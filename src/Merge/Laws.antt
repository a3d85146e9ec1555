-- ===== src/Merge/Laws.antt =====
-- internal/util/merge/standard.go: what `Standard.Merge` resolves a conflict to.
use cdc_sink.Base.{
  ◌≡◌, refl, ap, Bool, false, Option, none, some, List, [], length, map, eqb, Comparable,
  HasDistinct, if◌then◌else◌,
}
use cdc_sink.Merge.{
  Bags, Bound, Conflict, Resolution, merge_properties, merge, finish, conflict_of, standard_merge,
}
use cdc_sink.Merge.Properties.{merge_properties_exact}
use cdc_sink.Merge.ThreeWay.{IsBags, IsMerged, conflicts}

module _ {P V B : Type 0} (bags : Bags P V B) where
  -- The three sides of an update, with nothing unmerged yet.
  abbrev pub update_of : B → B → B → Bound P B
  update_of before proposed target = record {
    before = before;
    proposed = proposed;
    target = target;
    unmerged = [];
  }

  -- The target, if there is no conflict, or what the fallback makes of the conflicts.
  abbrev pub resolution_of :
      Option (Conflict P B → Option (Resolution B)) → Bound P B → List P → Option (Resolution B)
  resolution_of fallback con ps =
      if eqb (length ps) 0
      then some (record { apply = some con.target; dlq = []; drop = false })
      else elim fallback [
        | none ↦ none
        | some merger ↦ merger (record {
          before = some con.before;
          proposed = some con.proposed;
          target = some con.target;
          unmerged = bags.sort ps;
        })
      ]

  finish-unmerged :
      (fallback : Option (Conflict P B → Option (Resolution B))) (con : Bound P B) (ps : List P)
      → con.unmerged ≡ ps
      → finish bags fallback (conflict_of con) ≡ resolution_of fallback con ps
  unfolding finish conflict_of
  finish-unmerged fallback con ps e = ap (resolution_of fallback con) e

  merge-run :
      (before proposed target : B) (con' : Bound P B)
      → eqb (bags.len target) 0 ≡ false
      → merge_properties bags (bags.range proposed before target) (update_of before proposed target)
        ≡ some con'
      → merge bags (conflict_of (update_of before proposed target)) ≡ some (conflict_of con')
  unfolding merge conflict_of
  merge-run before proposed target con' filled run = rw (filled, run) refl

module _ {P C V B : Type 0} ⦃c : Comparable C⦄ (form : P → C) (same : Option V → Option V → Bool)
    (bags : Bags P V B) (laws : IsBags form same bags) where
  -- On a conflict with all of its three sides, a target that has properties and no property unmerged
  -- yet, where a bag is a map by the form of the properties, `Range` visits no form twice, and
  -- `crep.Equal` gives no error and answers as `same` does, `Standard.Merge` resolves to the target
  -- with the three-way merge of the properties, by `same`, if there is no conflict. A property is in
  -- conflict where the proposed value differs from the one before and the target has a value that
  -- differs from both. If there are such properties, it gives the conflict, with these sorted, to the
  -- fallback, and reports an error where there is none.
  pub standard_merge_outcome :
      (fallback : Option (Conflict P B → Option (Resolution B))) (before proposed target : B)
      → eqb (bags.len target) 0 ≡ false
      → HasDistinct (map form (bags.range proposed before target))
      → (con' : Bound P B) × IsMerged form same bags
          (bags.range proposed before target)
          (update_of bags before proposed target)
          con'
        × (standard_merge bags fallback (conflict_of (update_of bags before proposed target))
            ≡ resolution_of bags fallback con'
                (conflicts same bags before target proposed (bags.range proposed before target)))
  unfolding standard_merge
  standard_merge_outcome fallback before proposed target filled distinct =
      let props = bags.range proposed before target in
      let (con', run, merged) =
        merge_properties_exact form same bags laws props (update_of bags before proposed target)
          distinct in
      let start = merge-run bags before proposed target con' filled run in
      let end =
        finish-unmerged bags fallback con' (conflicts same bags before target proposed props)
          merged.unmerged_props in
      (con', merged, rw start end)
