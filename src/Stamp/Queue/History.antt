-- ===== src/Stamp/Queue/History.antt =====
-- internal/util/stamp/queue.go: any sequence of calls on a queue that starts empty.
mod Tests
use cdc_sink.Base.{
  ◌≡◌, refl, sym, ap, ◌∙◌, Bool, true, false, Option, none, some, List, [], ◌∷◌, ◌++◌, Comparable,
  arith, Option-cases, Bool-cases, ◌⊎◌, inl, inr, subst,
}
use cdc_sink.Stamp.{Stamps}
use cdc_sink.Stamp.Order.{IsOrder, is_before}
use cdc_sink.Stamp.Queue.Lists.{back, set_back, Chain}
use cdc_sink.Stamp.Queue.{
  Stamped, Queue, Outcome, Error, empty, enqueue, mark, dequeue, push_value, after_coalesce,
  validate,
}
use cdc_sink.Stamp.Queue.Invariant.{IsOrdered, StartsAfter}
use cdc_sink.Stamp.Queue.Advance.{
  Advanced, latest, latest-grows, latest-some, latest-none, before_trans,
}
use cdc_sink.Stamp.Queue.Laws.{
  dequeue_advances, accepts_marker, enqueue-plain, PlainTail, without_head-IsOrdered,
}
use cdc_sink.Stamp.Queue.Mark.{
  KeepsStamps, enqueue-IsOrdered, mark_accepted, mark_rejected, pushed-IsOrdered, enqueue-coalesce,
}

module _ {S V : Type 0} ⦃e : Comparable S⦄ (stamps : Stamps S) (stamped : Stamped S V) where
  -- One call, whether it reports an error or not.
  pub data Step : Queue S V → Queue S V → Type 0 where
    enqueued : (q : Queue S V) (v : V) → Step q (enqueue stamps stamped q v).queue
    marked : (q : Queue S V) (m : S) → Step q (mark stamps stamped q m).queue
    dequeued :
        (q q' : Queue S V) (v : Option V) → dequeue stamps stamped q ≡ some (v, q') → Step q q'

  pub data Reach (q : Queue S V) : Queue S V → Type 0 where
    here : Reach q q
    next : {r t : Queue S V} → Reach q r → Step r t → Reach q t

  -- The second point is the first, or a stamp after it.
  abbrev pub NotLower : Option S → Option S → Type 0
  NotLower c c' = (c' ≡ c) ⊎ ((n : S) × (c' ≡ some n) × (is_before stamps c n ≡ true))

  module _ (o : IsOrder stamps) where
    NotLower-trans : (a b c : Option S) → NotLower a b → NotLower b c → NotLower a c
    NotLower-trans a b c (inl p) (inl q) = inl (q ∙ p)
    NotLower-trans a b c (inl p) (inr (n, q, up)) =
        inr (n, q, subst (λ x. is_before stamps x n ≡ true) p up)
    NotLower-trans a b c (inr (m, p, up)) (inl q) = inr (m, q ∙ p, up)
    NotLower-trans a b c (inr (m, p, up)) (inr (n, q, up')) = inr (
      n,
      q,
      before_trans stamps stamped o a m n up
          (unfold is_before in (subst (λ x. is_before stamps x n ≡ true) p up')),
    )

    Advanced-NotLower :
        (q q' : Queue S V)
        → IsOrdered stamps stamped q
        → Advanced stamps stamped q q'
        → NotLower q.consistent q'.consistent
    Advanced-NotLower q q' h how =
        let popped = how.popped in
        let start =
          subst (λ ms. StartsAfter stamps stamped q.consistent ms) how.split h.before_markers in
        let chain = subst (λ ms. Chain stamps.less ms) how.split h.markers_monotonic in
        elim (Option-cases (latest none popped)) [
          | inl e ↦ inl (
              how.moved
              ∙ ap (latest q.consistent) (latest-none stamps stamped o q.consistent popped e))
          | inr (n, e) ↦ inr (
            n,
            how.moved ∙ latest-some stamps stamped o q.consistent n popped e,
            latest-grows stamps stamped o q.consistent n popped q'.markers start chain e,
          )
        ]

    push_value-consistent :
        (q : Queue S V) (v : V) → (push_value stamps stamped q v).queue.consistent ≡ q.consistent
    unfolding push_value
    push_value-consistent q v = ground arith

    after_coalesce-consistent :
        (q : Queue S V) (r : V × Option V)
        → (after_coalesce stamps stamped q r).queue.consistent ≡ q.consistent
    after_coalesce-consistent q (t, none) = unfold after_coalesce in refl
    after_coalesce-consistent q (t, some v) =
        unfold after_coalesce in push_value-consistent (record q { values = set_back q.values t }) v

    enqueue-consistent :
        (q : Queue S V) (v : V) → (enqueue stamps stamped q v).queue.consistent ≡ q.consistent
    enqueue-consistent q v = elim (Option-cases (back q.values)) [
      | inl none_back ↦
          rw (enqueue-plain stamps stamped o q v (rw (none_back, PlainTail) tt))
            (push_value-consistent q v)
      | inr (t, some_back) ↦ elim (Option-cases (stamped.coalescing t)) [
        | inl shut ↦
            rw (enqueue-plain stamps stamped o q v (rw (some_back, PlainTail) shut))
              (push_value-consistent q v)
        | inr (f, open_tail) ↦
            rw (enqueue-coalesce stamps stamped o q t v f some_back open_tail)
              (after_coalesce-consistent q (f v))
      ]
    ]

    dequeue-empty : (q : Queue S V) → q.values ≡ [] → dequeue stamps stamped q ≡ some (none, q)
    unfolding dequeue
    dequeue-empty q h =
        rw (h, dequeue)
          (ap {B = Option (Option V × Queue S V)} (λ vs. some (none, record q { values = vs })) h)

    dequeue-lem :
        (q q' : Queue S V) (r : Option V) (vs : List V)
        → q.values ≡ vs
        → dequeue stamps stamped q ≡ some (r, q')
        → IsOrdered stamps stamped q
        → IsOrdered stamps stamped q' × NotLower q.consistent q'.consistent
    dequeue-lem q q' r [] eq run h =
        let same : ◌≡◌ {A = Option (Option V × Queue S V)} (some (none, q)) (some (r, q')) =
          sym (dequeue-empty q eq) ∙ run in
        let there : q ≡ q' = cc in
        subst (λ p. IsOrdered stamps stamped p × NotLower q.consistent p.consistent) there
          (h, inl refl)
    dequeue-lem q q' r (v ∷ vs) eq run h =
        let (p, run', ordered, how) = dequeue_advances stamps stamped o q v vs h eq in
        let same : ◌≡◌ {A = Option (Option V × Queue S V)} (some (some v, p)) (some (r, q')) =
          sym run' ∙ run in
        let there : p ≡ q' = cc in
        subst (λ p'. IsOrdered stamps stamped p' × NotLower q.consistent p'.consistent) there
          (
            ordered,
            Advanced-NotLower (record q { values = vs }) p
                (without_head-IsOrdered stamps stamped o q v vs h eq) how,
          )

    -- `Dequeue` on a queue with the invariants does not panic.
    dequeue_total :
        (q : Queue S V) (vs : List V)
        → q.values ≡ vs
        → IsOrdered stamps stamped q
        → (r : Option V) × (q' : Queue S V) × (dequeue stamps stamped q ≡ some (r, q'))
    dequeue_total q [] eq h = (none, q, dequeue-empty q eq)
    dequeue_total q (v ∷ vs) eq h =
        let (p, run, _, _) = dequeue_advances stamps stamped o q v vs h eq in (some v, p, run)

    module _ (keeps : KeepsStamps stamps stamped o) where
      Step-lem :
          {q q' : Queue S V}
          → Step q q'
          → IsOrdered stamps stamped q
          → IsOrdered stamps stamped q' × NotLower q.consistent q'.consistent
      Step-lem (enqueued q v) h =
          (enqueue-IsOrdered stamps stamped o keeps q v h, inl (enqueue-consistent q v))
      Step-lem (marked q m) h = elim (Bool-cases (accepts_marker stamps stamped q m)) [
        | inl ok ↦
            let (q', run, ordered, how) = mark_accepted stamps stamped o q m h ok in
            let pushed : Queue S V = record q { markers = q.markers ++ m ∷ [] } in
            let up = Advanced-NotLower pushed q' (pushed-IsOrdered stamps stamped o q m h ok) how in
            subst (λ p. IsOrdered stamps stamped p × NotLower q.consistent p.consistent)
              (sym (ap (λ r. r.queue) run)) (ordered, up)
        | inr late ↦
            let (error, run) = mark_rejected stamps stamped o q m h late in rw run (h, inl refl)
      ]
      Step-lem (dequeued q q' v run) h = dequeue-lem q q' v q.values refl run h

      Reach-lem :
          {q q' : Queue S V}
          → Reach q q'
          → IsOrdered stamps stamped q
          → IsOrdered stamps stamped q' × NotLower q.consistent q'.consistent
      Reach-lem here h = (h, inl refl)
      Reach-lem {q} {q' = t} (next {r} before step) h =
          let (mid, up) = Reach-lem before h in
          let (last, up') = Step-lem step mid in
          (last, NotLower-trans q.consistent r.consistent t.consistent up up')

      -- After any calls of `Enqueue`, `Mark` and `Dequeue` on an empty queue, refused ones included,
      -- the invariants hold and `Dequeue` does not panic; and whatever calls come after that, the
      -- consistent point stays or moves to a later stamp.
      pub history :
          {q q' : Queue S V}
          → Reach empty q
          → Reach q q'
          → IsOrdered stamps stamped q
            × ((r : Option V) × (p : Queue S V) × (dequeue stamps stamped q ≡ some (r, p)))
            × NotLower q.consistent q'.consistent
      history {q} past future =
          let (h, _) = Reach-lem past (record {
            values_monotonic = tt;
            markers_monotonic = tt;
            before_values = tt;
            before_markers = tt;
          }) in
          (h, dequeue_total q q.values refl h, (Reach-lem future h).1)
