-- ===== src/Merge/Properties.antt =====
-- internal/util/merge/standard.go: what the loop of `merge` does to each property.
use cdc_sink.Base.{
  ◌≡◌, refl, inl, inr, sym, ap, ◌∙◌, Bool, true, false, not, ◌&&◌, ◌||◌, Option, none, some, List,
  [], ◌∷◌, ◌++◌, map, append_nil, append_assoc, Comparable, ◌==◌, option_eq, is_seen, HasDistinct,
  equals-false, arith, Bool-cases, if◌then◌else◌,
}
use cdc_sink.Merge.{◌>>=◌, Bags, Bound, is_safe, apply, merge_values, merge_properties}
use cdc_sink.Merge.ThreeWay.{
  is_undefined, IsBags, merged_value, is_conflict, is_applied, conflicts, IsMerged,
}

module _ {P C V B : Type 0} ⦃c : Comparable C⦄ (form : P → C) (same : Option V → Option V → Bool)
    (bags : Bags P V B) (laws : IsBags form same bags) where
  -- A conflict after its turn for a property.
  settled : P → Option V → Option V → Option V → Bound P B → Bound P B
  unfolding is_applied is_conflict
  settled prop before target proposed con = record con {
    target =
        if is_applied same before target proposed
        then apply bags prop proposed con.target
        else con.target;
    unmerged = con.unmerged ++ (if is_conflict same before target proposed then prop ∷ [] else []);
  }

  untouched : (con : Bound P B) → con ≡ record con { unmerged = con.unmerged ++ [] }
  untouched con = ap (λ (ps : List P). record con { unmerged = ps }) (sym (append_nil con.unmerged))

  applied :
      (target : B) (con : Bound P B)
      → ◌≡◌ {A = Bound P B}
          (record con { target = target })
          (record con { target = target; unmerged = con.unmerged ++ [] })
  applied target con =
      ap (λ (ps : List P). record con { target = target; unmerged = ps })
        (sym (append_nil con.unmerged))

  merge_values-settled :
      (prop : P) (before target proposed : Option V) (con : Bound P B)
      → merge_values bags prop before target proposed con
        ≡ some (settled prop before target proposed con)
  unfolding merge_values settled is_safe
  merge_values-settled prop before target proposed con = elim (Bool-cases (same before proposed)) [
    | inl unchanged ↦ rw (laws.equal_answers before proposed, unchanged) (ap some (untouched con))
    | inr changed ↦ elim (Bool-cases (same target proposed)) [
      | inl alike ↦
          rw
            (laws.equal_answers before proposed, changed, laws.equal_answers target proposed, alike)
            (ap some (untouched con))
      | inr differs ↦
          rw
            (
              laws.equal_answers before proposed,
              changed,
              laws.equal_answers target proposed,
              differs,
            )
            (settle_differing target)
    ]
  ]
    where
      settle_differing :
          (t : Option V)
          → (is_safe bags before t >>= λ safe.
              if safe
              then some (record con { target = apply bags prop proposed con.target })
              else some (record con { unmerged = con.unmerged ++ prop ∷ [] }))
            ≡ some (record con {
              target =
                  if is_undefined t || same before t
                  then apply bags prop proposed con.target
                  else con.target;
              unmerged =
                  con.unmerged
                  ++ (if not (same before t) && not (is_undefined t) then prop ∷ [] else []);
            })
      settle_differing none = elim (Bool-cases (same before none)) [
        | inl alike ↦ rw alike (ap some (applied (apply bags prop proposed con.target) con))
        | inr other ↦ rw other (ap some (applied (apply bags prop proposed con.target) con))
      ]
      settle_differing (some v) = elim (Bool-cases (same before (some v))) [
        | inl alike ↦
            rw (laws.equal_answers before (some v), alike)
              (ap some (applied (apply bags prop proposed con.target) con))
        | inr other ↦ rw (laws.equal_answers before (some v), other) refl
      ]

  get-apply :
      (prop other : P) (v : Option V) (b : B)
      → bags.get other (apply bags prop v b)
        ≡ (if form prop == form other then v else bags.get other b)
  unfolding apply
  get-apply prop other none b = laws.get_delete prop other b
  get-apply prop other (some v) b = laws.get_put prop other v b

  applied-value :
      (before target proposed : Option V)
      → is_applied same before target proposed ≡ true
      → proposed ≡ merged_value same before target proposed
  unfolding is_applied merged_value
  applied-value before target proposed h = ground arith

  kept-value :
      (before target proposed : Option V)
      → is_applied same before target proposed ≡ false
      → target ≡ merged_value same before target proposed
  unfolding is_applied merged_value
  kept-value before target proposed h = ground arith

  get-settled :
      (prop other : P) (con : Bound P B) (before target proposed : Option V)
      → bags.get prop con.target ≡ target
      → bags.get other (settled prop before target proposed con).target ≡ (
          if form prop == form other
          then merged_value same before target proposed
          else bags.get other con.target)
  unfolding settled
  get-settled prop other con before target proposed at_target =
      elim (Bool-cases (is_applied same before target proposed)) [
        | inl written ↦ rw written (
            get-apply prop other proposed con.target
            ∙ ap (λ v. if form prop == form other then v else bags.get other con.target)
                (applied-value before target proposed written))
        | inr kept ↦ elim (Bool-cases (form prop == form other)) [
          | inl alike ↦
              rw (kept, alike)
                (sym (
                    laws.get_same prop other con.target
                      ((c.equals_iff (form prop) (form other)).0 alike))
                  ∙ at_target
                  ∙ kept-value before target proposed kept)
          | inr differs ↦ rw (kept, differs) refl
        ]
      ]

  -- Where both sides stand after the turn for one property.
  turn : P → Bound P B → Bound P B
  turn p con =
      settled p (bags.get p con.before) (bags.get p con.target) (bags.get p con.proposed) con

  get-turn :
      (p other : P) (con : Bound P B)
      → bags.get other (turn p con).target ≡ (
          if form p == form other
          then merged_value same
              (bags.get p con.before)
              (bags.get p con.target)
              (bags.get p con.proposed)
          else bags.get other con.target)
  unfolding turn
  get-turn p other con =
      get-settled p other con (bags.get p con.before) (bags.get p con.target)
        (bags.get p con.proposed) refl

  conflicts-turn :
      (p : P) (con : Bound P B) (ps : List P)
      → is_seen (form p) (map form ps) ≡ false
      → conflicts same bags con.before (turn p con).target con.proposed ps
        ≡ conflicts same bags con.before con.target con.proposed ps
  unfolding conflicts is_seen
  conflicts-turn p con [] h = refl
  conflicts-turn p con (q ∷ ps) h =
      let other : (form p == form q) ≡ false =
        equals-false (form p) (form q)
          (λ e. ground (arith, h, (c.equals_iff (form q) (form p)).1 (sym e))) in
      let unchanged : bags.get q (turn p con).target ≡ bags.get q con.target =
        get-turn p q con ∙ rw other refl in
      rw (unchanged, conflicts-turn p con ps (ground (arith, h))) refl

  value-turn :
      (p q : P) (props : List P) (con : Bound P B)
      → is_seen (form p) (map form props) ≡ false
      → (if is_seen (form q) (map form props)
          then merged_value same
              (bags.get q con.before)
              (bags.get q (turn p con).target)
              (bags.get q con.proposed)
          else bags.get q (turn p con).target)
        ≡ (if is_seen (form q) (map form (p ∷ props))
            then merged_value same
                (bags.get q con.before)
                (bags.get q con.target)
                (bags.get q con.proposed)
            else bags.get q con.target)
  unfolding is_seen
  value-turn p q props con new = elim (Bool-cases (form p == form q)) [
    | inl alike ↦
        let e : form p ≡ form q = (c.equals_iff (form p) (form q)).0 alike in
        let unseen : is_seen (form q) (map form props) ≡ false =
          ap (λ r. is_seen r (map form props)) (sym e) ∙ new in
        rw (unseen, alike)
          (get-turn p q con
            ∙ rw alike (
                ap (λ v. merged_value same v (bags.get p con.target) (bags.get p con.proposed))
                  (laws.get_same p q con.before e)
                ∙ ap (λ v. merged_value same (bags.get q con.before) v (bags.get p con.proposed))
                    (laws.get_same p q con.target e)
                ∙ ap (λ v. merged_value same (bags.get q con.before) (bags.get q con.target) v)
                    (laws.get_same p q con.proposed e)))
    | inr differs ↦
        let kept : bags.get q (turn p con).target ≡ bags.get q con.target =
          get-turn p q con ∙ rw differs refl in
        rw (differs, kept) refl
  ]

  IsMerged-turn :
      (p : P) (props : List P) (con con' : Bound P B)
      → is_seen (form p) (map form props) ≡ false
      → IsMerged form same bags props (turn p con) con'
      → IsMerged form same bags (p ∷ props) con con'
  unfolding is_seen conflicts turn settled
  IsMerged-turn p props con con' new later = record {
    same_before = later.same_before;
    same_proposed = later.same_proposed;
    target_values = λ q. later.target_values q ∙ value-turn p q props con new;
    unmerged_props =
        later.unmerged_props
        ∙ append_assoc con.unmerged
            (if is_conflict same (bags.get p con.before) (bags.get p con.target)
                (bags.get p con.proposed)
              then p ∷ []
              else [])
            (conflicts same bags con.before (turn p con).target con.proposed props)
        ∙ ap
            (λ ps.
              con.unmerged
              ++ ((if is_conflict same (bags.get p con.before) (bags.get p con.target)
                      (bags.get p con.proposed)
                    then p ∷ []
                    else [])
                  ++ ps))
            (conflicts-turn p con props new);
  }

  -- The loop of `merge` over properties with different forms, where a bag is a map by form, and
  -- `crep.Equal` gives no error and answers as `same` does, succeeds. Each of the properties has in the
  -- target the three-way merge of its values, by `same`; all others keep theirs. The properties that
  -- the proposed side changed, where the target has a value that differs both from the one before and
  -- from the proposed one, are reported in the order of the loop, behind those that were.
  pub merge_properties_exact :
      (props : List P) (con : Bound P B)
      → HasDistinct (map form props)
      → (con' : Bound P B) × (merge_properties bags props con ≡ some con')
        × IsMerged form same bags props con con'
  unfolding merge_properties is_seen turn conflicts
  merge_properties_exact [] con h = (
    con,
    refl,
    record {
      same_before = refl;
      same_proposed = refl;
      target_values = λ p. refl;
      unmerged_props = sym (append_nil con.unmerged);
    },
  )
  merge_properties_exact (p ∷ props) con h =
      let (con', run, merged) = merge_properties_exact props (turn p con) h.1 in
      let step =
        merge_values-settled p (bags.get p con.before) (bags.get p con.target)
          (bags.get p con.proposed) con in
      (con', rw step run, IsMerged-turn p props con con' h.0 merged)
