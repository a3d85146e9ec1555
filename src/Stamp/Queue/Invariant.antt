-- ===== src/Stamp/Queue/Invariant.antt =====
-- internal/util/stamp/queue.go: the invariants of the queue, and what its checks say of them.
use cdc_sink.Base.{
  ◌≡◌, refl, sym, Bool, true, false, not, Option, none, some, List, [], ◌∷◌, Comparable, arith,
  Option-cases, inl, inr, subst,
}
use cdc_sink.Stamp.{Stamps}
use cdc_sink.Stamp.Order.{IsOrder, is_before, compare-before, compare-after, compare-less}
use cdc_sink.Stamp.Queue.Lists.{last_pair, Chain, Chain-last_pair}
use cdc_sink.Stamp.Queue.{
  Stamped, Queue, values_not_monotonic, markers_not_monotonic, consistent_past_values,
  consistent_past_markers, validate, check_values, check_markers, check_first_value,
  check_first_marker, or_else,
}

module _ {S V : Type 0} ⦃e : Comparable S⦄ (stamps : Stamps S) (stamped : Stamped S V) where
  -- A value may follow another of its own stamp.
  abbrev pub not_after : V → V → Bool
  not_after a b = not (stamps.less (stamped.stamp b) (stamped.stamp a))

  abbrev pub StartsAfter : Option S → List S → Type 0
  StartsAfter c [] = Unit
  StartsAfter c (s ∷ ss) = is_before stamps c s ≡ true

  abbrev pub StampsAfter : Option S → List V → Type 0
  StampsAfter c [] = Unit
  StampsAfter c (v ∷ vs) = is_before stamps c (stamped.stamp v) ≡ true

  -- The first four invariants of the source's list.
  pub record IsOrdered (q : Queue S V) : Type 0 where
    pub values_monotonic : Chain not_after q.values
    pub markers_monotonic : Chain stamps.less q.markers
    pub before_values : StampsAfter q.consistent q.values
    pub before_markers : StartsAfter q.consistent q.markers

  module _ (o : IsOrder stamps) where
    check_values-none : (vs : List V) → Chain not_after vs → check_values stamps stamped vs ≡ none
    unfolding check_values
    check_values-none vs h = elim (Option-cases (last_pair vs)) [
      | inl e ↦ rw (e, check_values) refl
      | inr ((a, b), e) ↦
          let fits = Chain-last_pair not_after vs a b h e in
          rw (e, check_values)
            (rw (compare-less stamps o (stamped.stamp b) (stamped.stamp a)) (ground arith))
    ]

    check_markers-none :
        (ms : List S) → Chain stamps.less ms → check_markers stamps stamped ms ≡ none
    unfolding check_markers
    check_markers-none ms h = elim (Option-cases (last_pair ms)) [
      | inl e ↦ rw (e, check_markers) refl
      | inr ((a, b), e) ↦
          let fits = Chain-last_pair stamps.less ms a b h e in
          rw (e, check_markers)
            (rw (compare-after stamps o b (some a)) (unfold is_before in rw fits refl))
    ]

    check_first_value-none :
        (c : Option S) (vs : List V)
        → StampsAfter c vs
        → check_first_value stamps stamped c vs ≡ none
    unfolding check_first_value
    check_first_value-none c [] h = refl
    check_first_value-none c (v ∷ vs) h = rw (compare-before stamps o c (stamped.stamp v), h) refl

    check_first_marker-none :
        (c : Option S) (ms : List S)
        → StartsAfter c ms
        → check_first_marker stamps stamped c ms ≡ none
    unfolding check_first_marker
    check_first_marker-none c [] h = refl
    check_first_marker-none c (m ∷ ms) h = rw (compare-before stamps o c m, h) refl

    -- The checks pass where the invariants hold.
    pub validate-none : (q : Queue S V) → IsOrdered q → validate stamps stamped q ≡ none
    unfolding validate or_else
    validate-none q h =
        rw
          (
            check_values-none q.values h.values_monotonic,
            check_markers-none q.markers h.markers_monotonic,
            check_first_value-none q.consistent q.values h.before_values,
            check_first_marker-none q.consistent q.markers h.before_markers,
          )
          refl

    -- What the checks report where one of them fails.
    pub validate-values :
        (q : Queue S V) (a b : V)
        → last_pair q.values ≡ some (a, b)
        → stamps.less (stamped.stamp b) (stamped.stamp a) ≡ true
        → validate stamps stamped q ≡ some values_not_monotonic
    unfolding validate or_else
    validate-values q a b e late =
        let found : check_values stamps stamped q.values ≡ some values_not_monotonic =
          unfold check_values in
          rw (e, check_values)
            (rw (compare-less stamps o (stamped.stamp b) (stamped.stamp a)) (rw late refl)) in
        rw found refl

    pub validate-first_value :
        (q : Queue S V) (v : V)
        → q.values ≡ v ∷ []
        → Chain stamps.less q.markers
        → is_before stamps q.consistent (stamped.stamp v) ≡ false
        → validate stamps stamped q ≡ some consistent_past_values
    unfolding validate or_else
    validate-first_value q v e chain late =
        let found : check_first_value stamps stamped q.consistent q.values
            ≡ some consistent_past_values =
          unfold check_first_value in
          rw (e, check_first_value)
            (rw (compare-before stamps o q.consistent (stamped.stamp v)) (rw late refl)) in
        let single : Chain not_after q.values = subst (λ vs. Chain not_after vs) (sym e) tt in
        rw (check_values-none q.values single, check_markers-none q.markers chain, found) refl

    pub validate-markers :
        (q : Queue S V) (a b : S)
        → Chain not_after q.values
        → last_pair q.markers ≡ some (a, b)
        → stamps.less a b ≡ false
        → validate stamps stamped q ≡ some markers_not_monotonic
    unfolding validate or_else
    validate-markers q a b chain e late =
        let found : check_markers stamps stamped q.markers ≡ some markers_not_monotonic =
          unfold check_markers in
          rw (e, check_markers)
            (rw (compare-after stamps o b (some a)) (unfold is_before in rw late refl)) in
        rw (check_values-none q.values chain, found) refl

    pub validate-first_marker :
        (q : Queue S V) (m : S)
        → Chain not_after q.values
        → StampsAfter q.consistent q.values
        → q.markers ≡ m ∷ []
        → is_before stamps q.consistent m ≡ false
        → validate stamps stamped q ≡ some consistent_past_markers
    unfolding validate or_else
    validate-first_marker q m chain after e late =
        let found : check_first_marker stamps stamped q.consistent q.markers
            ≡ some consistent_past_markers =
          unfold check_first_marker in
          rw (e, check_first_marker) (rw (compare-before stamps o q.consistent m) (rw late refl)) in
        let single : Chain stamps.less q.markers = subst (λ ms. Chain stamps.less ms) (sym e) tt in
        rw
          (
            check_values-none q.values chain,
            check_markers-none q.markers single,
            check_first_value-none q.consistent q.values after,
            found,
          )
          refl
