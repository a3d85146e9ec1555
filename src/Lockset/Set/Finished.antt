-- ===== src/Lockset/Set/Finished.antt =====
-- internal/util/lockset/lockset.go: the end of a call, and a cancellation, keep every task covered.
use cdc_sink.Base.{
  ℕ, ◌≤◌, ◌≡◌, refl, ap, ◌∙◌, ◌⊎◌, inl, inr, Bool, true, false, Option, none, some, List, [], ◌∷◌,
  ◌++◌, get_elem?-some, Comparable, nat_eq, option_eq, arith, Bool-cases, Option-cases, Ensures,
}
use cdc_sink.Lockset.Queue.{is_head}
use cdc_sink.Lockset.Set.{
  Status, Fn, canceled, Result, ok, err, retry_at_head, Job, pending, running, dequeuing, Tasks,
  fn_at, set_fn, set_status, is_retry_requested, cancel, finish, fall_back, try_again,
}
use cdc_sink.Lockset.Set.Awake.{
  starts, total, asked_at-set_fn, asked_at-set_status_other, asked_at-set_status, IsAwake,
  push-IsAwake, turn-IsAwake,
}
use cdc_sink.Lockset.Set.Effects.{granted-IsQueued}
use cdc_sink.Lockset.Set.Held.{
  present, fn_at-set_fn, fn_at-set_fn_other, fn_at-set_status, length-set_fn,
}
use cdc_sink.Lockset.Set.Safety.{IsSafe}
use cdc_sink.Lockset.Set.Tended.{one_self, one_other, not_at_head, holding-IsAwake}

module _ {K E : Type 0} ⦃c : Comparable K⦄ (granted : List (Option ℕ)) where
  -- While a goroutine holds a waiter its function is gone.
  held-gone :
      (s : Tasks K E) (w : ℕ) (fn : Fn) (at_head : Bool)
      → IsSafe granted (running w fn at_head ∷ []) s
      → present (fn_at s.waiters w) ≡ 0
  held-gone s w fn at_head safe =
      let only = safe.once w in let self = one_self w in omega (arith, only, self)

  finished-IsAwake :
      (s : Tasks K E) (w : ℕ) (fn : Fn) (at_head : Bool) (status : Status E)
      → IsSafe granted (running w fn at_head ∷ []) s
      → IsAwake granted (running w fn at_head ∷ []) s
      → IsAwake granted []
          (record s { waiters = set_status w status s.waiters; jobs = s.jobs ++ dequeuing w ∷ [] })
  finished-IsAwake s w fn at_head status safe inv =
      push-IsAwake granted (record s { waiters = set_status w status s.waiters }) (dequeuing w) []
        (holding-IsAwake granted s w (running w fn at_head ∷ []) (dequeuing w) status s.waiters inv
          (λ v ne.
            let nothing = one_other w v ne in
            (refl, refl, omega (arith, nothing), omega arith, omega arith))
          (one_self w) (held-gone s w fn at_head safe))

  -- The function is given back, with a request for a retry.
  asked-IsAwake :
      (s : Tasks K E) (w : ℕ) (fn : Fn) (at_head : Bool) (out : List Job)
      → IsSafe granted (running w fn at_head ∷ []) s
      → IsAwake granted (running w fn at_head ∷ []) s
      → (1 ≤ total (starts w) out) ⊎ (is_head s.queue (some w) ≡ false)
      → IsAwake granted out (record s {
        waiters = set_status w Status.retry_requested (set_fn w (some fn) s.waiters);
      })
  unfolding is_retry_requested
  asked-IsAwake s w fn at_head out safe inv seen =
      let below =
        safe.fresh w (granted-IsQueued none s.queue granted (some w) safe.reach safe.sound_out.0) in
      let given = set_fn w (some fn) s.waiters in
      let (old, at_w) =
        get_elem?-some given w
          (let size = length-set_fn s.waiters w (some fn) in omega (arith, below, size)) in
      let back : present (fn_at (set_status w Status.retry_requested given) w) ≡ 1 = ap present (
        fn_at-set_status given w w Status.retry_requested
        ∙ fn_at-set_fn s.waiters w (some fn) below) in
      turn-IsAwake granted s (running w fn at_head ∷ []) out
        (set_status w Status.retry_requested given) w inv
        (λ v ne.
          let nothing = one_other w v ne in
          (
            ap present (
                fn_at-set_status given w v Status.retry_requested
                ∙ fn_at-set_fn_other s.waiters w v (some fn) ne),
            asked_at-set_status_other given w v Status.retry_requested ne
                ∙ asked_at-set_fn s.waiters w v (some fn),
            omega (arith, nothing),
            omega arith,
            omega arith,
          ))
        (λ queued. omega (arith, back))
        (λ may has. elim seen [
          | inl started ↦ inl (omega (arith, started))
          | inr behind ↦ inr (
            asked_at-set_status given w Status.retry_requested old at_w,
            inl (not_at_head s.queue (some w) behind),
          )
        ])

  pub finish-IsAwake :
      (s : Tasks K E) (w : ℕ) (fn : Fn) (at_head : Bool) (result : Result E)
      → IsSafe granted (running w fn at_head ∷ []) s
      → IsAwake granted (running w fn at_head ∷ []) s
      → Ensures (IsAwake granted []) (finish w fn at_head result s)
  unfolding finish try_again
  finish-IsAwake s w fn at_head ok safe inv =
      finished-IsAwake s w fn at_head Status.success safe inv
  finish-IsAwake s w fn at_head (err e) safe inv =
      finished-IsAwake s w fn at_head (Status.failed e) safe inv
  finish-IsAwake s w fn true (retry_at_head t) safe inv = elim (Option-cases (fall_back t)) [
    | inl gone ↦ rw gone tt
    | inr (status, there) ↦ rw there (finished-IsAwake s w fn true status safe inv)
  ]
  finish-IsAwake s w fn false (retry_at_head t) safe inv =
      elim (Bool-cases (is_head s.queue (some w))) [
        | inl now ↦
            let self = one_self w in
            rw now (
              push-IsAwake granted _ (pending w false) [] (
                asked-IsAwake s w fn false (pending w false ∷ []) safe inv
                  (inl (omega (arith, self)))))
        | inr later ↦ rw later (asked-IsAwake s w fn false [] safe inv (inr later))
      ]

  pub cancel-IsAwake :
      (s : Tasks K E) (w : ℕ)
      → IsSafe granted [] s
      → IsAwake granted [] s
      → IsAwake granted [] (cancel w s)
  unfolding cancel
  cancel-IsAwake s w safe inv = elim (Option-cases (fn_at s.waiters w)) [
    | inl gone ↦ rw (gone, cancel) inv
    | inr (fn, there) ↦
        let below = safe.fresh w (safe.has_fn w (λ p. ground (arith, there, p))) in
        let back = ap present (fn_at-set_fn s.waiters w (some canceled) below) in
        let self = one_self w in
        rw (there, cancel)
          (push-IsAwake granted _ (pending w true) [] (
            turn-IsAwake granted s [] (pending w true ∷ []) (set_fn w (some canceled) s.waiters) w
              inv
              (λ v ne. (
                ap present (fn_at-set_fn_other s.waiters w v (some canceled) ne),
                asked_at-set_fn s.waiters w v (some canceled),
                omega arith,
                omega arith,
                omega arith,
              ))
              (λ queued. omega (arith, back)) (λ may has. inl (omega (arith, self)))))
  ]
