-- ===== src/Lockset/Set/Quiet.antt =====
-- internal/util/lockset/lockset.go: no task is forgotten.
use cdc_sink.Base.{
  ℕ, ◌≡◌, ap, inl, inr, true, Option, none, some, List, [], Comparable, nat_eq, option_eq, arith,
  Option-cases,
}
use cdc_sink.Lockset.Queue.{is_empty, peek_head}
use cdc_sink.Lockset.Queue.Dedup.{IsIn}
use cdc_sink.Lockset.Queue.Progress.{head_granted}
use cdc_sink.Lockset.Set.{Tasks, fn_at}
use cdc_sink.Lockset.Set.Awake.{starts, looks, total, IsKept}
use cdc_sink.Lockset.Set.Effects.{granted-IsQueued}
use cdc_sink.Lockset.Set.Held.{held, present}
use cdc_sink.Lockset.Set.Runs.{Runs, Runs-IsKept}

module _ {K E : Type 0} ⦃c : Comparable K⦄ where
  -- Somebody has still to see to the head.
  head_busy :
      (granted : List (Option ℕ)) (s : Tasks K E) (u : Option ℕ)
      → IsKept granted [] s
      → s.jobs ≡ []
      → peek_head s.queue ≡ some u
      → IsIn u granted
      → ⊥
  head_busy granted s none (inv, awake) idle at_head may =
      awake.not_nil (granted-IsQueued none s.queue granted none inv.reach may)
  head_busy granted s (some w) (inv, awake) idle at_head may =
      let queued = granted-IsQueued none s.queue granted (some w) inv.reach may in
      let nobody = ap (held w) idle in
      let starting = ap (total (starts w)) idle in
      let looking = ap (total (looks w)) idle in
      let tended = awake.tended w queued in
      let only = inv.once w in
      let has : present (fn_at s.waiters w) ≡ 1 = omega (arith, tended, only, nobody) in
      elim (awake.covered w may has) [
        | inl started ↦ absurd (omega (arith, started, starting))
        | inr (asked, inl behind) ↦ behind at_head
        | inr (asked, inr looked) ↦ absurd (omega (arith, looked, looking))
      ]

  -- Whatever the order of the calls and of the turns, and whatever the callbacks return: when no
  -- goroutine is left, the queue is empty, and no waiter still has its function, which a goroutine takes
  -- to call it or to cancel it.
  pub Runs-quiet :
      (canceled_err dup_err : E) (s : Tasks K E)
      → Runs canceled_err dup_err s
      → s.jobs ≡ []
      → (is_empty s.queue ≡ true) × ((w : ℕ) → fn_at s.waiters w ≡ none)
  Runs-quiet canceled_err dup_err s runs idle =
      let (granted, inv) = Runs-IsKept canceled_err dup_err s runs in
      elim (head_granted none s.queue granted inv.0.reach) [
        | inl (empty, nobody) ↦ (
          empty,
          λ w. elim (Option-cases (fn_at s.waiters w)) [
            | inl gone ↦ gone
            | inr (fn, there) ↦
                let queued = inv.0.has_fn w (λ p. ground (arith, there, p)) in
                let absent = nobody (some w) in absurd (ground (arith, queued, absent))
          ],
        )
        | inr (u, at_head, may) ↦ absurd (head_busy granted s u inv idle at_head may)
      ]
