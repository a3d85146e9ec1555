-- ===== src/Stamp/Queue/Laws.antt =====
-- internal/util/stamp/queue.go: the outcome of `Dequeue`, `Enqueue` and `Mark` on every branch.
use cdc_sink.Base.{
  ◌≡◌, refl, sym, ap, Bool, true, false, Option, none, some, List, [], ◌∷◌, ◌++◌, Comparable, arith,
  Option-cases, Bool-cases, inl, inr, if◌then◌else◌, subst, ◌↔◌,
}
use cdc_sink.Stamp.{Stamps}
use cdc_sink.Stamp.Order.{IsOrder, is_before}
use cdc_sink.Stamp.Queue.Lists.{back, Chain, fits_back, Chain-append, last_pair-append, back-none}
use cdc_sink.Stamp.Queue.{
  Stamped, Queue, Error, validate, values_not_monotonic, consistent_past_values, push_value,
  advance_consistent_point, after_advance, dequeue, enqueue,
}
use cdc_sink.Stamp.Queue.Invariant.{
  IsOrdered, StampsAfter, not_after, validate-none, validate-values, validate-first_value,
}
use cdc_sink.Stamp.Queue.Advance.{Advanced, advance_lem}

module _ {S V : Type 0} ⦃e : Comparable S⦄ (stamps : Stamps S) (stamped : Stamped S V) where
  -- A value may be pushed: it is not before the tail, or after the point where nothing is queued.
  abbrev pub accepts_value : Queue S V → V → Bool
  accepts_value q v = elim (back q.values) [
    | none ↦ is_before stamps q.consistent (stamped.stamp v)
    | some t ↦ not_after stamps stamped t v
  ]

  -- The tail, if there is one, does not implement `Coalescing`.
  abbrev pub PlainTail : Queue S V → Type 0
  PlainTail q = elim (back q.values) [ none ↦ Unit | some t ↦ stamped.coalescing t ≡ none ]

  abbrev pub accepts_marker : Queue S V → S → Bool
  accepts_marker q m = elim (back q.markers) [
    | none ↦ is_before stamps q.consistent m
    | some t ↦ stamps.less t m
  ]

  module _ (o : IsOrder stamps) where
    pub without_head-IsOrdered :
        (q : Queue S V) (v : V) (vs : List V)
        → IsOrdered stamps stamped q
        → q.values ≡ v ∷ vs
        → IsOrdered stamps stamped (record q { values = vs })
    without_head-IsOrdered q v vs h eq = record {
      values_monotonic = tail-Chain vs chain;
      markers_monotonic = h.markers_monotonic;
      before_values = after vs chain;
      before_markers = h.before_markers;
    }
      where
        chain : Chain (not_after stamps stamped) (v ∷ vs)
        chain = subst (λ ws. Chain (not_after stamps stamped) ws) eq h.values_monotonic

        first : is_before stamps q.consistent (stamped.stamp v) ≡ true
        first = subst (λ ws. StampsAfter stamps stamped q.consistent ws) eq h.before_values

        tail-Chain :
            (ws : List V)
            → Chain (not_after stamps stamped) (v ∷ ws)
            → Chain (not_after stamps stamped) ws
        tail-Chain [] c = tt
        tail-Chain (w ∷ ws) c = c.1

        before_later :
            (c : Option S) (a b : S)
            → is_before stamps c a ≡ true
            → stamps.less b a ≡ false
            → is_before stamps c b ≡ true
        before_later none a b p r = unfold is_before in refl
        before_later (some c) a b p r = unfold is_before in o.before_later c a b p r

        after :
            (ws : List V)
            → Chain (not_after stamps stamped) (v ∷ ws)
            → StampsAfter stamps stamped q.consistent ws
        after [] c = tt
        after (w ∷ ws) c =
            before_later q.consistent (stamped.stamp v) (stamped.stamp w) first
              (ground (arith, c.0))

    dequeue-run :
        (q q' : Queue S V) (v : V) (vs : List V)
        → q.values ≡ v ∷ vs
        → advance_consistent_point stamps stamped (record q { values = vs })
          ≡ record { queue = q'; error = none }
        → dequeue stamps stamped q ≡ some (some v, q')
    unfolding dequeue
    dequeue-run q q' v vs eq run = rw (eq, dequeue) (ap (after_advance stamps stamped v) run)

    -- On a queue with the invariants `Dequeue` does not panic: it returns the first value and keeps
    -- the invariants. The consistent point moves over just the markers before the next value, or
    -- over all of them where no value is left, and the markers that it passes leave the queue.
    pub dequeue_advances :
        (q : Queue S V) (v : V) (vs : List V)
        → IsOrdered stamps stamped q
        → q.values ≡ v ∷ vs
        → (q' : Queue S V) × (dequeue stamps stamped q ≡ some (some v, q'))
          × IsOrdered stamps stamped q'
          × Advanced stamps stamped (record q { values = vs }) q'
    dequeue_advances q v vs h eq =
        let (q', run, ordered, how) =
          advance_lem stamps stamped o (record q { values = vs })
            (without_head-IsOrdered q v vs h eq) in
        (q', dequeue-run q q' v vs eq run, ordered, how)

    -- The checks after a push.
    pub push_value-accepted :
        (q : Queue S V) (v : V)
        → IsOrdered stamps stamped q
        → accepts_value q v ≡ true
        → IsOrdered stamps stamped (record q { values = q.values ++ v ∷ [] })
          × (push_value stamps stamped q v
              ≡ record { queue = record q { values = q.values ++ v ∷ [] }; error = none })
    push_value-accepted q v h ok = (pushed, pushed-run (validate-none stamps stamped o next pushed))
      where
        next : Queue S V
        next = record q { values = q.values ++ v ∷ [] }

        fits : fits_back (not_after stamps stamped) q.values v ≡ true
        fits = elim (Option-cases (back q.values)) [
          | inl none_back ↦ rw (none_back, fits_back) refl
          | inr (t, some_back) ↦ rw (some_back, fits_back) (rw (some_back, accepts_value) at ok)
        ]

        starts :
            (vs : List V)
            → back vs ≡ back q.values
            → StampsAfter stamps stamped q.consistent vs
            → StampsAfter stamps stamped q.consistent (vs ++ v ∷ [])
        starts [] same b =
            let no_tail : back q.values ≡ none = unfold back in sym same in
            rw (no_tail, accepts_value) at ok
        starts (w ∷ vs) same b = b

        pushed : IsOrdered stamps stamped next
        pushed = record {
          values_monotonic =
              Chain-append (not_after stamps stamped) q.values v h.values_monotonic fits;
          markers_monotonic = h.markers_monotonic;
          before_values = starts q.values refl h.before_values;
          before_markers = h.before_markers;
        }

        pushed-run :
            validate stamps stamped next ≡ none
            → push_value stamps stamped q v ≡ record { queue = next; error = none }
        pushed-run run = unfold push_value in rw (run, push_value) refl

    push_value-error :
        (q : Queue S V) (v : V) (error : Error)
        → validate stamps stamped (record q { values = q.values ++ v ∷ [] }) ≡ some error
        → push_value stamps stamped q v ≡ record { queue = q; error = some error }
    unfolding push_value
    push_value-error q v error run = rw (run, push_value) refl

    pub push_value-rejected :
        (q : Queue S V) (v : V)
        → IsOrdered stamps stamped q
        → accepts_value q v ≡ false
        → (error : Error) × (push_value stamps stamped q v
            ≡ record { queue = q; error = some error })
    push_value-rejected q v h late = elim (Option-cases (back q.values)) [
      | inl none_back ↦
          let pushed = record q { values = q.values ++ v ∷ [] } in
          let single : q.values ++ v ∷ [] ≡ v ∷ [] =
            ap (λ vs. vs ++ v ∷ []) (back-none q.values none_back) in
          let past : is_before stamps q.consistent (stamped.stamp v) ≡ false =
            rw (none_back, accepts_value) at late in
          (
            consistent_past_values,
            push_value-error q v consistent_past_values
                (validate-first_value stamps stamped o pushed v single h.markers_monotonic past),
          )
      | inr (t, some_back) ↦
          let pushed = record q { values = q.values ++ v ∷ [] } in
          let below : not_after stamps stamped t v ≡ false =
            rw (some_back, accepts_value) at late in
          (
            values_not_monotonic,
            push_value-error q v values_not_monotonic (
                validate-values stamps stamped o pushed t v
                  (last_pair-append q.values t v some_back) (ground arith)),
          )
    ]

    pub enqueue-plain :
        (q : Queue S V) (v : V)
        → PlainTail q
        → enqueue stamps stamped q v ≡ push_value stamps stamped q v
    unfolding enqueue
    enqueue-plain q v plain = elim (Option-cases (back q.values)) [
      | inl none_back ↦ rw (none_back, enqueue) refl
      | inr (t, some_back) ↦
          let shut : stamped.coalescing t ≡ none = rw (some_back, PlainTail) at plain in
          rw (some_back, enqueue) (rw shut refl)
    ]

    -- Where the tail does not coalesce, `Enqueue` on a queue with the invariants puts a value behind
    -- the others that is not before the tail, or that is after the consistent point if the queue
    -- holds none, and the invariants hold again. Any other value is refused with an error, and the
    -- queue is as it was.
    pub enqueue_outcome :
        (q : Queue S V) (v : V)
        → IsOrdered stamps stamped q
        → PlainTail q
        → IsOrdered stamps stamped (enqueue stamps stamped q v).queue
          × ((enqueue stamps stamped q v).queue
              ≡ (if accepts_value q v then record q { values = q.values ++ v ∷ [] } else q))
          × (((enqueue stamps stamped q v).error ≡ none) ↔ (accepts_value q v ≡ true))
    enqueue_outcome q v h plain = elim (Bool-cases (accepts_value q v)) [
      | inl ok ↦
          let (ordered, run) = push_value-accepted q v h ok in
          rw (enqueue-plain q v plain, run, ok) (ordered, refl, (λ _. refl, λ _. refl))
      | inr late ↦
          let (error, run) = push_value-rejected q v h late in
          rw (enqueue-plain q v plain, run, late) (h, refl, (λ x. cc, λ x. cc))
    ]
