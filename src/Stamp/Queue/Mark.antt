-- ===== src/Stamp/Queue/Mark.antt =====
-- internal/util/stamp/queue.go: the outcome of `Mark`, and of `Enqueue` onto a tail that coalesces.
use cdc_sink.Base.{
  ◌≡◌, refl, sym, ap, ◌∙◌, true, false, Option, none, some, List, [], ◌∷◌, ◌++◌, Comparable, arith,
  Option-cases, Bool-cases, inl, inr, subst,
}
use cdc_sink.Stamp.{Stamps}
use cdc_sink.Stamp.Order.{IsOrder, is_before}
use cdc_sink.Stamp.Queue.Lists.{
  back, set_back, fits_back, Chain-append, last_pair-append, back-none, Chain-set_back,
}
use cdc_sink.Stamp.Queue.{
  Stamped, Queue, Error, validate, markers_not_monotonic, consistent_past_markers,
  advance_consistent_point, enqueue, mark, push_value, after_coalesce,
}
use cdc_sink.Stamp.Queue.Invariant.{
  IsOrdered, StartsAfter, StampsAfter, not_after, validate-none, validate-markers,
  validate-first_marker,
}
use cdc_sink.Stamp.Queue.Advance.{Advanced, advance_lem}
use cdc_sink.Stamp.Queue.Laws.{
  accepts_marker, accepts_value, push_value-accepted, push_value-rejected, enqueue-plain, PlainTail,
}

module _ {S V : Type 0} ⦃e : Comparable S⦄ (stamps : Stamps S) (stamped : Stamped S V)
    (o : IsOrder stamps) where
  mark-run :
      (q : Queue S V) (m : S)
      → validate stamps stamped (record q { markers = q.markers ++ m ∷ [] }) ≡ none
      → mark stamps stamped q m
        ≡ advance_consistent_point stamps stamped (record q { markers = q.markers ++ m ∷ [] })
  unfolding mark
  mark-run q m run = rw (run, mark) refl

  mark-error :
      (q : Queue S V) (m : S) (error : Error)
      → validate stamps stamped (record q { markers = q.markers ++ m ∷ [] }) ≡ some error
      → mark stamps stamped q m ≡ record { queue = q; error = some error }
  unfolding mark
  mark-error q m error run = rw (run, mark) refl

  pub pushed-IsOrdered :
      (q : Queue S V) (m : S)
      → IsOrdered stamps stamped q
      → accepts_marker stamps stamped q m ≡ true
      → IsOrdered stamps stamped (record q { markers = q.markers ++ m ∷ [] })
  pushed-IsOrdered q m h ok = record {
    values_monotonic = h.values_monotonic;
    markers_monotonic = Chain-append stamps.less q.markers m h.markers_monotonic fits;
    before_values = h.before_values;
    before_markers = starts q.markers refl h.before_markers;
  }
    where
      fits : fits_back stamps.less q.markers m ≡ true
      fits = elim (Option-cases (back q.markers)) [
        | inl none_back ↦ rw (none_back, fits_back) refl
        | inr (t, some_back) ↦ rw (some_back, fits_back) (rw (some_back, accepts_marker) at ok)
      ]

      starts :
          (ms : List S)
          → back ms ≡ back q.markers
          → StartsAfter stamps stamped q.consistent ms
          → StartsAfter stamps stamped q.consistent (ms ++ m ∷ [])
      starts [] same b =
          let no_tail : back q.markers ≡ none = unfold back in sym same in
          rw (no_tail, accepts_marker) at ok
      starts (n ∷ ms) same b = b

  -- A marker after the last one, or after the consistent point where no marker is queued, is taken
  -- by `Mark` on a queue with the invariants: they hold again, and the consistent point moves over
  -- just the markers before the first value, or over all of them where nothing is queued.
  pub mark_accepted :
      (q : Queue S V) (m : S)
      → IsOrdered stamps stamped q
      → accepts_marker stamps stamped q m ≡ true
      → (q' : Queue S V) × (mark stamps stamped q m ≡ record { queue = q'; error = none })
        × IsOrdered stamps stamped q'
        × Advanced stamps stamped (record q { markers = q.markers ++ m ∷ [] }) q'
  mark_accepted q m h ok =
      let pushed = record q { markers = q.markers ++ m ∷ [] } in
      let ordered = pushed-IsOrdered q m h ok in
      let (q', run, after, how) = advance_lem stamps stamped o pushed ordered in
      (q', mark-run q m (validate-none stamps stamped o pushed ordered) ∙ run, after, how)

  -- A marker that is not after the last one, or not after the consistent point where no marker is
  -- queued, is refused by `Mark` on a queue with the invariants: it reports an error, and the queue
  -- is as it was.
  pub mark_rejected :
      (q : Queue S V) (m : S)
      → IsOrdered stamps stamped q
      → accepts_marker stamps stamped q m ≡ false
      → (error : Error) × (mark stamps stamped q m ≡ record { queue = q; error = some error })
  mark_rejected q m h late = elim (Option-cases (back q.markers)) [
    | inl none_back ↦
        let pushed = record q { markers = q.markers ++ m ∷ [] } in
        let single : q.markers ++ m ∷ [] ≡ m ∷ [] =
          ap (λ ms. ms ++ m ∷ []) (back-none q.markers none_back) in
        let past : is_before stamps q.consistent m ≡ false =
          rw (none_back, accepts_marker) at late in
        (
          consistent_past_markers,
          mark-error q m consistent_past_markers (
              validate-first_marker stamps stamped o pushed m h.values_monotonic h.before_values
                single past),
        )
    | inr (t, some_back) ↦
        let pushed = record q { markers = q.markers ++ m ∷ [] } in
        let below : stamps.less t m ≡ false = rw (some_back, accepts_marker) at late in
        (
          markers_not_monotonic,
          mark-error q m markers_not_monotonic (
              validate-markers stamps stamped o pushed t m h.values_monotonic
                (last_pair-append q.markers t m some_back) below),
        )
  ]

  -- Coalescing does not put the tail at an earlier stamp.
  pub record KeepsStamps : Type 0 where
    pub not_lower :
        (t next : V) (f : V → V × Option V)
        → stamped.coalescing t ≡ some f
        → stamps.less (stamped.stamp (f next).0) (stamped.stamp t) ≡ false

  push_value-IsOrdered :
      (q : Queue S V) (v : V)
      → IsOrdered stamps stamped q
      → IsOrdered stamps stamped (push_value stamps stamped q v).queue
  push_value-IsOrdered q v h = elim (Bool-cases (accepts_value stamps stamped q v)) [
    | inl ok ↦ let (ordered, run) = push_value-accepted stamps stamped o q v h ok in rw run ordered
    | inr late ↦ let (error, run) = push_value-rejected stamps stamped o q v h late in rw run h
  ]

  pub enqueue-coalesce :
      (q : Queue S V) (t v : V) (f : V → V × Option V)
      → back q.values ≡ some t
      → stamped.coalescing t ≡ some f
      → enqueue stamps stamped q v ≡ after_coalesce stamps stamped q (f v)
  unfolding enqueue
  enqueue-coalesce q t v f some_back open_tail = rw (some_back, enqueue) (rw open_tail refl)

  -- A tail in place of one that is not after it.
  merged-IsOrdered :
      (q : Queue S V) (t t' : V)
      → back q.values ≡ some t
      → stamps.less (stamped.stamp t') (stamped.stamp t) ≡ false
      → IsOrdered stamps stamped q
      → IsOrdered stamps stamped (record q { values = set_back q.values t' })
  merged-IsOrdered q t t' some_back keeps h = record {
    values_monotonic =
        Chain-set_back (not_after stamps stamped) q.values t t' some_back h.values_monotonic up;
    markers_monotonic = h.markers_monotonic;
    before_values = starts q.values some_back h.before_values;
    before_markers = h.before_markers;
  }
    where
      up : (a : V) → not_after stamps stamped a t ≡ true → not_after stamps stamped a t' ≡ true
      up a h' =
          ground (arith, o.before_later (stamped.stamp t') (stamped.stamp a) (stamped.stamp t))

      later :
          (c : Option S)
          → is_before stamps c (stamped.stamp t) ≡ true
          → is_before stamps c (stamped.stamp t') ≡ true
      later none p = unfold is_before in refl
      later (some c) p =
          unfold is_before in o.before_later c (stamped.stamp t) (stamped.stamp t') p keeps

      starts :
          (vs : List V)
          → back vs ≡ some t
          → StampsAfter stamps stamped q.consistent vs
          → StampsAfter stamps stamped q.consistent (set_back vs t')
      starts [] eq b = unfold set_back in tt
      starts (w ∷ []) eq b =
          let here : w ≡ t = unfold back in cc in
          unfold set_back in
          later q.consistent
            (subst (λ x. is_before stamps q.consistent (stamped.stamp x) ≡ true) here b)
      starts (w ∷ x ∷ vs) eq b = unfold set_back in b

  after_coalesce-IsOrdered :
      (q : Queue S V) (t : V) (r : V × Option V)
      → back q.values ≡ some t
      → stamps.less (stamped.stamp r.0) (stamped.stamp t) ≡ false
      → IsOrdered stamps stamped q
      → IsOrdered stamps stamped (after_coalesce stamps stamped q r).queue
  unfolding after_coalesce
  after_coalesce-IsOrdered q t (t', none) some_back keeps h =
      merged-IsOrdered q t t' some_back keeps h
  after_coalesce-IsOrdered q t (t', some w) some_back keeps h =
      push_value-IsOrdered (record q { values = set_back q.values t' }) w
        (merged-IsOrdered q t t' some_back keeps h)

  module _ (keeps : KeepsStamps) where
    -- Whatever the value, taken, coalesced or refused, `Enqueue` leaves a queue with the invariants.
    pub enqueue-IsOrdered :
        (q : Queue S V) (v : V)
        → IsOrdered stamps stamped q
        → IsOrdered stamps stamped (enqueue stamps stamped q v).queue
    enqueue-IsOrdered q v h = elim (Option-cases (back q.values)) [
      | inl none_back ↦
          rw (enqueue-plain stamps stamped o q v (rw (none_back, PlainTail) tt))
            (push_value-IsOrdered q v h)
      | inr (t, some_back) ↦ elim (Option-cases (stamped.coalescing t)) [
        | inl shut ↦
            rw (enqueue-plain stamps stamped o q v (rw (some_back, PlainTail) shut))
              (push_value-IsOrdered q v h)
        | inr (f, open_tail) ↦
            rw (enqueue-coalesce q t v f some_back open_tail)
              (after_coalesce-IsOrdered q t (f v) some_back (keeps.not_lower t v f open_tail) h)
      ]
    ]
