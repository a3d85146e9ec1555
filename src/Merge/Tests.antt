-- ===== src/Merge/Tests.antt =====
-- internal/util/merge/standard.go with association lists as bags.
use cdc_sink.Base.{
  ℕ, ◌%◌, ◌≡◌, refl, ap, Bool, true, false, eqb, Option, none, some, List, [], ◌∷◌, length, nat_eq,
  map_get, map_put, map_delete, get-delete, HasDistinct, is_seen,
}
use cdc_sink.Merge.{Bags, Bound, merge_properties, standard_merge, conflict_of}
use cdc_sink.Merge.Properties.{merge_properties_exact}
use cdc_sink.Merge.ThreeWay.{IsBags, IsMerged, conflicts}
use cdc_sink.Merge.Laws.{update_of, resolution_of, standard_merge_outcome}

abbrev Row : Type 0
Row = List (ℕ × ℕ)

-- Two values are the same if they are off by a hundred.
abbrev same : Option ℕ → Option ℕ → Bool
same none none = true
same (some v) (some w) = eqb (v % 100) (w % 100)
same none (some w) = false
same (some v) none = false

-- Four columns.
abbrev columns : List ℕ
columns = 1 ∷ 2 ∷ 3 ∷ 4 ∷ []

abbrev rows : Bags ℕ ℕ Row
rows = record {
  get = map_get;
  put = map_put;
  delete = map_delete;
  len = length;
  new_bag_from = λ b. [];
  range = λ proposed before target. columns;
  sort = λ ps. ps;
  crep_equal = λ v w. some (same v w);
}

-- Each column is a form of its own.
abbrev by_itself : ℕ → ℕ
by_itself p = p

rows-IsBags : IsBags by_itself same rows
unfolding map_get
rows-IsBags = record {
  get_same = λ prop other b e. ap (λ p. map_get p b) e;
  get_put = λ prop other v b. refl;
  get_delete = λ prop other b. get-delete prop other b;
  equal_answers = λ v w. refl;
}

-- The source changes columns 1, 2 and 4, where 4 is new, and has column 3 in another representation;
-- the target has changed columns 2 and 3.
abbrev row_before : Row
row_before = (1, 10) ∷ (2, 20) ∷ (3, 30) ∷ []

abbrev row_proposed : Row
row_proposed = (1, 11) ∷ (2, 21) ∷ (3, 130) ∷ (4, 40) ∷ []

abbrev row_target : Row
row_target = (1, 10) ∷ (2, 25) ∷ (3, 35) ∷ []

abbrev conflict : Bound ℕ Row
conflict = update_of rows row_before row_proposed row_target

columns-HasDistinct : HasDistinct {C = ℕ} columns
unfolding is_seen
columns-HasDistinct = (refl, (refl, (refl, (refl, tt))))

unmerged_second : conflicts same rows row_before row_target row_proposed columns ≡ 2 ∷ []
unfolding conflicts map_get
unmerged_second = refl

merge_properties_exact_example :
    (con' : Bound ℕ Row) × (merge_properties rows columns conflict ≡ some con')
    × IsMerged by_itself same rows columns conflict con'
merge_properties_exact_example =
    merge_properties_exact by_itself same rows rows-IsBags columns conflict columns-HasDistinct

standard_merge_outcome_example :
    (con' : Bound ℕ Row) × IsMerged by_itself same rows columns conflict con'
    × (standard_merge rows none (conflict_of conflict)
        ≡ resolution_of rows none con'
            (conflicts same rows row_before row_target row_proposed columns))
standard_merge_outcome_example =
    standard_merge_outcome by_itself same rows rows-IsBags none row_before row_proposed row_target
      refl columns-HasDistinct
