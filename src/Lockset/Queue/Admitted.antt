-- ===== src/Lockset/Queue/Admitted.antt =====
-- internal/util/lockset/queue.go: who may run after each call.
use cdc_sink.Base.{
  ℕ, ◌≡◌, ◌≢◌, refl, sym, ap, ◌∙◌, subst, ◌⊎◌, inl, inr, ◌↔◌, Bool, true, false, Option, none, some,
  List, [], ◌∷◌, ◌++◌, length, All-map, Comparable, arith, same_or_not, Option-cases, map_get,
  if◌then◌else◌,
}
use cdc_sink.Lockset.Queue.{Queue, enqueue, dequeue}
use cdc_sink.Lockset.Queue.Arrival.{enqueue-IsQueue}
use cdc_sink.Lockset.Queue.Dedup.{IsIn}
use cdc_sink.Lockset.Queue.Dequeue.{dequeue_releases}
use cdc_sink.Lockset.Queue.Fronts.{is_front, IsFirst, without}
use cdc_sink.Lockset.Queue.Grants.{
  dropped, Reach, start, enqueued, refused, dequeued, not_queued, IsIn-dropped, IsIn-append,
  ready_or_not, IsGranted, live_unique,
}
use cdc_sink.Lockset.Queue.Invariant.{queue_of_key, IsReady, IsQueue, new_queue-IsQueue}
use cdc_sink.Lockset.Queue.Stage.{is_front-without}
use cdc_sink.Lockset.Queue.Line.{view-beyond}
use cdc_sink.Lockset.Queue.Views.{keys_at, live, live_at}

pub IsIn-if :
    {V : Type 0} (at_head : Bool) (val v : V) (granted : List V)
    → IsIn v (if at_head then val ∷ granted else granted)
      ↔ (((at_head ≡ true) × (val ≡ v)) ⊎ IsIn v granted)
IsIn-if true val v granted = (
  λ p. elim p [ inl q ↦ inl (refl, q) | inr q ↦ inr q ],
  λ p. elim p [ inl q ↦ inl q.1 | inr q ↦ inr q ],
)
IsIn-if false val v granted = (λ p. inr p, λ p. elim p [ inl q ↦ cc | inr q ↦ q ])

pub same_result : {A : Type 0} (o : Option A) (x y : A) → o ≡ some x → o ≡ some y → x ≡ y
same_result o x y at_x at_y = let both : some x ≡ some y = sym at_x ∙ at_y in cc

pub some_apart : {A : Type 0} (o : Option A) (x : A) → o ≡ some x → o ≡ none → ⊥
some_apart o x at_x at_none = let both : some x ≡ none = sym at_x ∙ at_none in cc

module _ {K V : Type 0} ⦃c : Comparable K⦄ ⦃d : Comparable V⦄ where
  -- A value that is already there is refused, and nothing changes.
  pub enqueue-dup :
      (q : Queue K V) (keys : List K) (val : V) (w : ℕ)
      → map_get val q.ref ≡ some w
      → enqueue q keys val ≡ some (none, q)
  unfolding enqueue
  enqueue-dup q keys val w found = rw (found, enqueue) refl

  pub dequeue-absent :
      (zero_value : V) (q : Queue K V) (val : V)
      → map_get val q.ref ≡ none
      → dequeue zero_value q val ≡ some ([], false, q)
  unfolding dequeue
  dequeue-absent zero_value q val absent = rw (absent, dequeue) refl

  enqueued-IsGranted :
      (q next : Queue K V) (granted : List V) (val : V) (said : Bool) (n : ℕ)
      → IsGranted q granted
      → live_at q.heap n ≡ none
      → live_at next.heap n ≡ some val
      → (said ≡ true) ↔ IsReady next n
      → ((i : ℕ)
          → i ≢ n
          → (live_at next.heap i ≡ live_at q.heap i) × (IsReady next i ↔ IsReady q i))
      → IsGranted next (if said then val ∷ granted else granted)
  enqueued-IsGranted q next granted val said n grants unborn live_n ready others v = (
    λ there. elim ((IsIn-if said val v granted).0 there) [
      | inl r ↦ (n, live_n ∙ ap some r.1, ready.0 r.0)
      | inr r ↦
          let (i, at_i, first) = (grants v).0 r in
          let old : i ≢ n =
            λ p. some_apart (live_at q.heap i) v at_i (ap (live_at q.heap) p ∙ unborn) in
          (i, (others i old).0 ∙ at_i, (others i old).1.1 first)
    ],
    λ (i, at_i, first). (IsIn-if said val v granted).1 (elim (same_or_not i n) [
      | inl p ↦ inl (
        ready.1 (subst (IsReady next) p first),
        same_result (live_at next.heap n) val v live_n (ap (live_at next.heap) (sym p) ∙ at_i),
      )
      | inr old ↦ inr ((grants v).1 (i, sym (others i old).0 ∙ at_i, (others i old).1.0 first))
    ]),
  )

  dequeued-IsGranted :
      (q next : Queue K V) (granted got : List V) (val : V) (w : ℕ)
      → IsQueue q
      → IsGranted q granted
      → live_at q.heap w ≡ some val
      → live_at next.heap w ≡ none
      → ((k : K) → queue_of_key next k ≡ without w (queue_of_key q k))
      → ((i : ℕ)
          → i ≢ w
          → (live_at next.heap i ≡ live_at q.heap i) × (keys_at next.heap i ≡ keys_at q.heap i))
      → ((v : V)
          → IsIn v got
            ↔ ((i : ℕ) × (live_at next.heap i ≡ some v) × IsReady next i × (IsReady q i → ⊥)))
      → IsGranted next (dropped val granted ++ got)
  dequeued-IsGranted q next granted got val w inv grants live_w gone shorter others released v =
      let split = IsIn-append v (dropped val granted) got in
      let kept = IsIn-dropped val v granted in
      let still : (i : ℕ) → i ≢ w → IsReady q i → IsReady next i = λ i ne first.
        subst (IsFirst i (queue_of_key next)) (sym (others i ne).1) (
          All-map (λ k. is_front i (queue_of_key q k) ≡ true)
            (λ k. is_front i (queue_of_key next k) ≡ true) (keys_at q.heap i)
            (λ k front.
              subst (λ l. is_front i l ≡ true) (sym (shorter k))
                (is_front-without i w (queue_of_key q k) ne front))
            first) in
      (
        λ there. elim (split.0 there) [
          | inl r ↦
              let (i, at_i, first) = (grants v).0 (kept.0 r).0 in
              let ne : i ≢ w = λ p.
                (kept.0 r).1
                  (same_result (live_at q.heap i) v val at_i (ap (live_at q.heap) p ∙ live_w)) in
              (i, (others i ne).0 ∙ at_i, still i ne first)
          | inr r ↦ let (i, at_i, first, was) = (released v).0 r in (i, at_i, first)
        ],
        λ (i, at_i, first).
            let ne : i ≢ w =
              λ p. some_apart (live_at next.heap i) v at_i (ap (live_at next.heap) p ∙ gone) in
            let before : live_at q.heap i ≡ some v = sym (others i ne).0 ∙ at_i in
            split.1 (elim (ready_or_not i (queue_of_key q) (keys_at q.heap i)) [
              | inl was ↦ inl (
                  kept.1 (
                    (grants v).1 (i, before, was),
                    λ p. ne (live_unique q i w val inv (before ∙ ap some p) live_w),
                  ))
              | inr was_not ↦ inr ((released v).1 (i, at_i, first, was_not))
            ]),
      )

  abbrev Holds : Queue K V → List V → Type 0
  Holds q granted = IsQueue q × IsGranted q granted

  enqueued-Holds :
      (q q' : Queue K V) (granted : List V) (keys : List K) (val : V) (at_head : Bool)
      → Holds q granted
      → enqueue q keys val ≡ some (some at_head, q')
      → Holds q' (if at_head then val ∷ granted else granted)
  enqueued-Holds q q' granted keys val at_head (inv, grants) run =
      elim (Option-cases (map_get val q.ref)) [
        | inr (w, found) ↦
            let same =
              same_result (enqueue q keys val) (none, q) (some at_head, q')
                (enqueue-dup q keys val w found) run in
            absurd (some_apart (some at_head) at_head refl (sym (ap (λ x. x.0) same)))
        | inl new ↦
            let (said, next, run', inv', live', keys', ready, others) =
              enqueue-IsQueue q keys val inv new in
            let same =
              same_result (enqueue q keys val) (some said, next) (some at_head, q') run' run in
            subst
              (λ (x : Option Bool × Queue K V).
                Holds x.1
                  (elim x.0 [ none ↦ granted | some b ↦ if b then val ∷ granted else granted ]))
              same
              (
                inv',
                enqueued-IsGranted q next granted val said (length q.heap) grants
                    (view-beyond none live q.heap (length q.heap) (omega arith)) live' ready
                    (λ i ne. ((others i ne).0, (others i ne).1)),
              )
      ]

  dequeued-Holds :
      (zero_value : V) (q q' : Queue K V) (granted : List V) (val : V) (ret : List V)
      → Holds q granted
      → dequeue zero_value q val ≡ some (ret, true, q')
      → Holds q' (dropped val granted ++ ret)
  dequeued-Holds zero_value q q' granted val ret (inv, grants) run =
      elim (Option-cases (map_get val q.ref)) [
        | inl absent ↦
            let same =
              same_result (dequeue zero_value q val) ([], false, q) (ret, true, q')
                (dequeue-absent zero_value q val absent) run in
            let bad : false ≡ true = ap (λ x. x.1) same in absurd (ground (arith, bad))
        | inr (w, found) ↦
            let (got, next, run', inv', shorter, size, gone, others, released) =
              dequeue_releases zero_value q val w inv found in
            let same =
              same_result (dequeue zero_value q val) (got, true, next) (ret, true, q') run' run in
            subst (λ (x : List V × Bool × Queue K V). Holds x.2 (dropped val granted ++ x.0)) same
              (
                inv',
                dequeued-IsGranted q next granted got val w inv grants ((inv.refs val w).0 found)
                    gone shorter others released,
              )
      ]

  refused-Holds :
      (q q' : Queue K V) (granted : List V) (keys : List K) (val : V)
      → Holds q granted
      → enqueue q keys val ≡ some (none, q')
      → Holds q' granted
  refused-Holds q q' granted keys val holds run = elim (Option-cases (map_get val q.ref)) [
    | inr (w, found) ↦
        let same =
          same_result (enqueue q keys val) (none, q) (none, q') (enqueue-dup q keys val w found)
            run in
        subst (λ (x : Option Bool × Queue K V). Holds x.1 granted) same holds
    | inl new ↦
        let out = enqueue-IsQueue q keys val holds.0 new in
        let same = same_result (enqueue q keys val) (some out.0, out.1) (none, q') out.2 run in
        absurd (some_apart (some out.0) out.0 refl (ap (λ x. x.0) same))
  ]

  not_queued-Holds :
      (zero_value : V) (q q' : Queue K V) (granted : List V) (val : V) (ret : List V)
      → Holds q granted
      → dequeue zero_value q val ≡ some (ret, false, q')
      → Holds q' granted
  not_queued-Holds zero_value q q' granted val ret holds run =
      elim (Option-cases (map_get val q.ref)) [
        | inl absent ↦
            let same =
              same_result (dequeue zero_value q val) ([], false, q) (ret, false, q')
                (dequeue-absent zero_value q val absent) run in
            subst (λ (x : List V × Bool × Queue K V). Holds x.2 granted) same holds
        | inr (w, found) ↦
            let out = dequeue_releases zero_value q val w holds.0 found in
            let same =
              same_result (dequeue zero_value q val) (out.0, true, out.1) (ret, false, q') out.2
                run in
            let bad : true ≡ false = ap (λ x. x.1) same in absurd (ground (arith, bad))
      ]

  -- Through any sequence of calls all is in order, and the values that may run are just those of the
  -- waiters that are in front of the queue of each of their keys.
  pub reach-IsGranted :
      (zero_value : V) (q : Queue K V) (granted : List V)
      → Reach zero_value q granted
      → IsQueue q × IsGranted q granted
  reach-IsGranted zero_value q granted start = (
    new_queue-IsQueue,
    λ v. (λ p. absurd p, λ (i, at_i, first). absurd (some_apart none v at_i refl)),
  )
  reach-IsGranted zero_value q' granted' (enqueued keys val at_head before run) =
      enqueued-Holds _ q' _ keys val at_head (reach-IsGranted zero_value _ _ before) run
  reach-IsGranted zero_value q' granted (refused keys val before run) =
      refused-Holds _ q' granted keys val (reach-IsGranted zero_value _ _ before) run
  reach-IsGranted zero_value q' granted' (dequeued val ret before run) =
      dequeued-Holds zero_value _ q' _ val ret (reach-IsGranted zero_value _ _ before) run
  reach-IsGranted zero_value q' granted (not_queued val ret before run) =
      not_queued-Holds zero_value _ q' granted val ret (reach-IsGranted zero_value _ _ before) run
