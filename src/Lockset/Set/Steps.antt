-- ===== src/Lockset/Set/Steps.antt =====
-- internal/util/lockset/lockset.go: each turn of a goroutine is safe, and none panics.
use cdc_sink.Base.{
  ℕ, ◌≡◌, refl, sym, ap, ◌∙◌, inl, inr, Bool, true, false, Option, none, some, List, [], ◌∷◌, ◌++◌,
  get_elem?, Comparable, nat_eq, option_eq, arith, same_or_not, All-append, Bool-cases,
  Option-cases, Ensures,
}
use cdc_sink.Lockset.Queue.{is_head}
use cdc_sink.Lockset.Queue.Dedup.{IsIn}
use cdc_sink.Lockset.Set.{
  Status, Fn, canceled, Result, ok, err, retry_at_head, pending, running, dequeuing, checking,
  marking, mark_head, Tasks, fn_at, set_fn, set_status, cancel, begin, finish, check, fall_back,
  try_again, is_retry_requested,
}
use cdc_sink.Lockset.Set.Held.{present, fn_at-set_fn, fn_at-set_fn_other, length-set_fn}
use cdc_sink.Lockset.Set.Safety.{IsSafe, push-IsSafe, turn-IsSafe}
use cdc_sink.Lockset.Set.Turns.{
  status-IsSafe, called-IsSafe, taken-IsSafe, again-IsSafe, end-IsSafe, new-IsSafe,
  dispose_all-IsSafe,
}

module _ {K E : Type 0} ⦃c : Comparable K⦄ (granted : List (Option ℕ)) where
  -- The waiter of a goroutine that has started is in the queue, and may run if it was not cancelled.
  pub begin-IsSafe :
      (canceled_err : E) (s : Tasks K E) (w : ℕ) (cancel : Bool)
      → IsSafe granted (pending w cancel ∷ []) s
      → IsSafe granted [] (begin canceled_err w cancel s)
  unfolding begin
  begin-IsSafe canceled_err s w true inv = elim (Option-cases (fn_at s.waiters w)) [
    | inl gone ↦ rw (gone, begin) (end-IsSafe granted s (pending w true) [] inv)
    | inr (fn, there) ↦
        let queued = inv.has_fn w (λ p. ground (arith, there, p)) in
        let taken =
          taken-IsSafe granted s w fn (pending w true) (dequeuing w) inv there queued (λ v. refl)
            (λ v. refl) in
        rw (there, begin)
          (push-IsSafe granted _ (dequeuing w) [] (
            status-IsSafe granted (record s { waiters = set_fn w none s.waiters })
              (dequeuing w ∷ []) w (Status.failed canceled_err) taken))
  ]
  begin-IsSafe canceled_err s w false inv = elim (Option-cases (fn_at s.waiters w)) [
    | inl gone ↦ rw (gone, begin) (end-IsSafe granted s (pending w false) [] inv)
    | inr (fn, there) ↦
        let queued = inv.has_fn w (λ p. ground (arith, there, p)) in
        let may : IsIn (some w) granted = inv.sound_out.0.1 queued in
        let job = running w fn (is_head s.queue (some w)) in
        let taken =
          taken-IsSafe granted s w fn (pending w false) job inv there may (λ v. refl) (λ v. refl) in
        rw (there, begin)
          (push-IsSafe granted _ job [] (
            status-IsSafe granted (record s { waiters = set_fn w none s.waiters }) (job ∷ []) w
              Status.executing taken))
  ]

  finished-IsSafe :
      (s : Tasks K E) (w : ℕ) (fn : Fn) (at_head : Bool) (status : Status E)
      → IsSafe granted (running w fn at_head ∷ []) s
      → IsSafe granted []
          (record s { waiters = set_status w status s.waiters; jobs = s.jobs ++ dequeuing w ∷ [] })
  finished-IsSafe s w fn at_head status inv =
      push-IsSafe granted (record s { waiters = set_status w status s.waiters }) (dequeuing w) []
        (status-IsSafe granted s (dequeuing w ∷ []) w status
          (called-IsSafe granted s w fn at_head inv))

  pub finish-IsSafe :
      (s : Tasks K E) (w : ℕ) (fn : Fn) (at_head : Bool) (result : Result E)
      → IsSafe granted (running w fn at_head ∷ []) s
      → Ensures (IsSafe granted []) (finish w fn at_head result s)
  unfolding finish try_again
  finish-IsSafe s w fn at_head ok inv = finished-IsSafe s w fn at_head Status.success inv
  finish-IsSafe s w fn at_head (err e) inv = finished-IsSafe s w fn at_head (Status.failed e) inv
  finish-IsSafe s w fn true (retry_at_head t) inv = elim (Option-cases (fall_back t)) [
    | inl gone ↦ rw gone tt
    | inr (status, there) ↦ rw there (finished-IsSafe s w fn true status inv)
  ]
  finish-IsSafe s w fn false (retry_at_head t) inv =
      let again = again-IsSafe granted s w fn false inv in
      let set_back : Tasks K E = record s { waiters = set_fn w (some fn) s.waiters } in
      let asked =
        status-IsSafe granted set_back (pending w false ∷ []) w Status.retry_requested again in
      elim (Bool-cases (is_head s.queue (some w))) [
        | inl now ↦ rw now (push-IsSafe granted _ (pending w false) [] asked)
        | inr later ↦ rw later (end-IsSafe granted _ (pending w false) [] asked)
      ]

  pub cancel-IsSafe : (s : Tasks K E) (w : ℕ) → IsSafe granted [] s → IsSafe granted [] (cancel w s)
  unfolding cancel
  cancel-IsSafe s w inv = elim (Option-cases (fn_at s.waiters w)) [
    | inl gone ↦ rw (gone, cancel) inv
    | inr (fn, there) ↦
        let below = inv.fresh w (inv.has_fn w (λ p. ground (arith, there, p))) in
        let swapped = fn_at-set_fn s.waiters w (some canceled) below in
        let waiters = set_fn w (some canceled) s.waiters in
        let size = length-set_fn s.waiters w (some canceled) in
        let turned =
          turn-IsSafe granted s [] [] waiters inv size tt
            (λ v some_fn. elim (same_or_not w v) [
              | inl same ↦ inv.has_fn v (λ p. ground (arith, there, ap (fn_at s.waiters) same ∙ p))
              | inr ne ↦
                  inv.has_fn v
                    (λ p. some_fn (fn_at-set_fn_other s.waiters w v (some canceled) ne ∙ p))
            ])
            (λ v. elim (same_or_not w v) [
              | inl same ↦
                  let now : present (fn_at waiters v) ≡ 1 =
                    ap present (ap (fn_at waiters) (sym same) ∙ swapped) in
                  let before : present (fn_at s.waiters v) ≡ 1 =
                    ap present (ap (fn_at s.waiters) (sym same) ∙ there) in
                  omega (arith, now, before)
              | inr ne ↦
                  let kept = ap present (fn_at-set_fn_other s.waiters w v (some canceled) ne) in
                  omega (arith, kept)
            ]) in
        rw (there, cancel)
          (new-IsSafe granted (record s { waiters = waiters }) [] w true turned
            (omega (arith, below, size)))
  ]

  pub check-IsSafe :
      (s : Tasks K E) (next : List (Option ℕ)) (head : Option ℕ)
      → IsSafe granted (checking next head ∷ []) s
      → IsSafe granted [] (check next head s)
  unfolding check
  check-IsSafe s next none inv =
      dispose_all-IsSafe granted s next (end-IsSafe granted s (checking next none) [] inv)
        inv.sound_out.0.0
  check-IsSafe s next (some h) inv = elim (Option-cases (get_elem? s.waiters h)) [
    | inl out ↦
        rw (out, check)
          (dispose_all-IsSafe granted s next (end-IsSafe granted s (checking next (some h)) [] inv)
            inv.sound_out.0.0)
    | inr (head, at_h) ↦ elim (Bool-cases (is_retry_requested head.status)) [
      | inl asked ↦
          let known = All-append _ next (some h ∷ []) inv.sound_out.0.0 (inv.sound_out.0.1, tt) in
          rw (at_h, check)
            (rw asked (
              push-IsSafe granted s (marking next h) [] (
                turn-IsSafe granted s (checking next (some h) ∷ []) (marking next h ∷ []) s.waiters
                  inv refl (known, tt) inv.has_fn (λ w. omega arith))))
      | inr not_asked ↦
          rw (at_h, check)
            (rw not_asked (
              dispose_all-IsSafe granted s next
                (end-IsSafe granted s (checking next (some h)) [] inv) inv.sound_out.0.0))
    ]
  ]

  pub mark_head-IsSafe :
      (s : Tasks K E) (next : List (Option ℕ)) (h : ℕ)
      → IsSafe granted (marking next h ∷ []) s
      → IsSafe granted [] (mark_head next h s)
  unfolding mark_head
  mark_head-IsSafe s next h inv =
      let marked = status-IsSafe granted s (marking next h ∷ []) h Status.retry_queued inv in
      dispose_all-IsSafe granted _ (next ++ some h ∷ [])
        (end-IsSafe granted _ (marking next h) [] marked) marked.sound_out.0
