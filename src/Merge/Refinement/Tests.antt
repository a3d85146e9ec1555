-- ===== src/Merge/Refinement/Tests.antt =====
-- internal/util/merge/standard.go with bags of two columns, a key and a value.
use cdc_sink.Base.{
  ℕ, ◌%◌, ◌≡◌, refl, Bool, true, false, Option, none, some, List, [], ◌∷◌, eqb, nat_eq, list_eq,
  option_eq, list_beq,
}
use cdc_sink.Types.{ColData}
use cdc_sink.Ident.{Text, Ident, new}
use cdc_sink.Ident.Compare.{canonical_ident}
use cdc_sink.Crep.{Value, string, equal}
use cdc_sink.Cmap
use cdc_sink.Merge.{Bags, Bound, standard_merge, conflict_of}
use cdc_sink.Merge.Bag.{Bag, new_bag, get, put, len, all_properties}
use cdc_sink.Merge.ThreeWay.{IsBags, IsMerged, conflicts}
use cdc_sink.Merge.Laws.{update_of, resolution_of}
use cdc_sink.Merge.Refinement.{
  equal_properties, same_value, equal_properties-same, keys_of, SpecBag, form_in, plain, bag_ops,
  bag_ops-IsBags, bag_merge_outcome,
}

abbrev same : Text → Text
same s = s

abbrev named : ℕ → Ident
named c = new (c ∷ [])

abbrev columns : List ColData
columns =
    record { default_expr = []; ignored = false; name = named b'k'; primary = true; kind = [] }
    ∷ record { default_expr = []; ignored = false; name = named b'v'; primary = false; kind = [] }
    ∷ []

-- Values that are off by a hundred have one representation.
abbrev representation : ℕ → Value
representation v = string ((v % 100) ∷ [])

abbrev canonical : ℕ → Option Value
canonical v = some (representation v)

abbrev same_values : Option ℕ → Option ℕ → Bool
same_values = same_value same 0 (λ ps. ps) canonical representation columns

-- What the merge calls of the bags.
abbrev row_ops : Bags Ident ℕ (SpecBag same (plain same columns) ℕ)
row_ops = bag_ops same 0 (λ ps. ps) (equal_properties canonical) (plain same columns)

abbrev blank : Bag ℕ
blank = new_bag same 0 (plain same columns)

blank_columns : blank.bag_spec ≡ plain same columns
unfolding new_bag
blank_columns = refl

abbrev row : ℕ → SpecBag same (plain same columns) ℕ
row v = row_ops.put (named b'v') v (row_ops.put (named b'k') 1 (blank, blank_columns))

row_filled : eqb (len (row 120).0) 0 ≡ false
unfolding len put new_bag canonical_ident Cmap.get Cmap.put list_beq
row_filled = refl

bag_ops-IsBags_example : IsBags (form_in same (plain same columns)) same_values row_ops
bag_ops-IsBags_example =
    bag_ops-IsBags same 0 (λ ps. ps) (equal_properties canonical) (plain same columns) same_values
      (equal_properties-same same 0 (λ ps. ps) canonical representation columns (λ v. refl))

-- The source changes the value from 20 to 30, and the target has 20 in another form.
bag_merge_outcome_example :
    (con' : Bound Ident (SpecBag same (plain same columns) ℕ)) × IsMerged
      (form_in same (plain same columns))
      same_values
      row_ops
      (keys_of (all_properties same (row 30).0 (row 20).0 (row 120).0))
      (update_of row_ops (row 20) (row 30) (row 120))
      con'
    × (standard_merge row_ops none (conflict_of (update_of row_ops (row 20) (row 30) (row 120)))
        ≡ resolution_of row_ops none con' (
            conflicts same_values row_ops
              (row 20)
              (row 120)
              (row 30)
              (keys_of (all_properties same (row 30).0 (row 20).0 (row 120).0))))
bag_merge_outcome_example =
    bag_merge_outcome same 0 (λ ps. ps) canonical representation columns none (row 20) (row 30)
      (row 120) (λ v. refl) row_filled

-- No conflict is left.
nothing_unmerged :
    conflicts same_values row_ops
      (row 20)
      (row 120)
      (row 30)
      (keys_of (all_properties same (row 30).0 (row 20).0 (row 120).0))
    ≡ []
unfolding conflicts keys_of all_properties get put new_bag canonical_ident Cmap.get Cmap.put
    Cmap.entries list_beq equal
nothing_unmerged = refl
