-- ===== src/Lockset/Set/TaskKeys.antt =====
-- internal/util/lockset/lockset.go: the keys of a task are those of its value in the queue.
use cdc_sink.Base.{
  ℕ, ◌≡◌, refl, sym, ap, ◌∙◌, subst, inl, inr, Bool, true, false, Option, none, some, List, [], ◌∷◌,
  ◌++◌, get_elem?, Comparable, nat_eq, option_eq, Bool-cases, Option-cases, Ensures,
}
use cdc_sink.Lockset.Queue.{dedup, is_head}
use cdc_sink.Lockset.Queue.Progress.{keys_of}
use cdc_sink.Lockset.Queue.Views.{view, view-set_keeps}
use cdc_sink.Lockset.Set.{
  Status, Fn, canceled, Result, ok, err, retry_at_head, Waiter, Tasks, fn_at, set_fn, set_status,
  is_retry_requested, dispose, dispose_all, cancel, begin, finish, check, mark_head, fall_back,
  try_again,
}
use cdc_sink.Lockset.Set.Effects.{IsQueued}

module _ {K E : Type 0} where
  -- The keys of a task.
  abbrev pub task_keys : List (Waiter K E) → ℕ → List K
  task_keys = view [] (λ (x : Waiter K E). x.keys)

  task_keys-set_fn :
      (waiters : List (Waiter K E)) (w v : ℕ) (fn : Option Fn)
      → task_keys (set_fn w fn waiters) v ≡ task_keys waiters v
  unfolding set_fn
  task_keys-set_fn waiters w v fn = elim (Option-cases (get_elem? waiters w)) [
    | inl out ↦ rw (out, set_fn) refl
    | inr (old, at_w) ↦
        rw (at_w, set_fn)
          (view-set_keeps [] (λ (x : Waiter K E). x.keys) waiters w v old (record old { fn = fn })
            at_w refl)
  ]

  task_keys-set_status :
      (waiters : List (Waiter K E)) (w v : ℕ) (status : Status E)
      → task_keys (set_status w status waiters) v ≡ task_keys waiters v
  unfolding set_status
  task_keys-set_status waiters w v status = elim (Option-cases (get_elem? waiters w)) [
    | inl out ↦ rw (out, set_status) refl
    | inr (old, at_w) ↦
        rw (at_w, set_status)
          (view-set_keeps [] (λ (x : Waiter K E). x.keys) waiters w v old
            (record old { status = status }) at_w refl)
  ]

  -- A step that changes neither the queue nor the keys.
  abbrev pub HasSame : Tasks K E → Tasks K E → Type 0
  HasSame s s' = (s'.queue ≡ s.queue) × ((w : ℕ) → task_keys s'.waiters w ≡ task_keys s.waiters w)

  both_set :
      (waiters : List (Waiter K E)) (w v : ℕ) (fn : Option Fn) (status : Status E)
      → task_keys (set_status w status (set_fn w fn waiters)) v ≡ task_keys waiters v
  both_set waiters w v fn status =
      task_keys-set_status (set_fn w fn waiters) w v status ∙ task_keys-set_fn waiters w v fn

  pub dispose_all-HasSame :
      (s : Tasks K E) (next : List (Option ℕ)) → HasSame s (dispose_all next s)
  unfolding dispose_all
  dispose_all-HasSame s [] = (refl, λ w. refl)
  dispose_all-HasSame s (none ∷ next) = dispose_all-HasSame s next
  dispose_all-HasSame s (some v ∷ next) = dispose_all-HasSame (dispose v false s) next

  pub cancel-HasSame : (s : Tasks K E) (w : ℕ) → HasSame s (cancel w s)
  unfolding cancel
  cancel-HasSame s w = elim (Option-cases (fn_at s.waiters w)) [
    | inl gone ↦ rw (gone, cancel) (refl, λ v. refl)
    | inr (fn, there) ↦
        rw (there, cancel) (refl, λ v. task_keys-set_fn s.waiters w v (some canceled))
  ]

module _ {K E : Type 0} ⦃c : Comparable K⦄ where
  pub begin-HasSame :
      (canceled_err : E) (s : Tasks K E) (w : ℕ) (stop : Bool)
      → HasSame s (begin canceled_err w stop s)
  unfolding begin
  begin-HasSame canceled_err s w stop = elim (Option-cases (fn_at s.waiters w)) [
    | inl gone ↦ rw (gone, begin) (refl, λ v. refl)
    | inr (fn, there) ↦ elim stop as (λ b. HasSame s (begin canceled_err w b s)) [
      | true ↦
          rw (there, begin) (refl, λ v. both_set s.waiters w v none (Status.failed canceled_err))
      | false ↦ rw (there, begin) (refl, λ v. both_set s.waiters w v none Status.executing)
    ]
  ]

  pub finish-HasSame :
      (s : Tasks K E) (w : ℕ) (fn : Fn) (at_head : Bool) (result : Result E)
      → Ensures (HasSame s) (finish w fn at_head result s)
  unfolding finish try_again
  finish-HasSame s w fn at_head ok = (refl, λ v. task_keys-set_status s.waiters w v Status.success)
  finish-HasSame s w fn at_head (err e) =
      (refl, λ v. task_keys-set_status s.waiters w v (Status.failed e))
  finish-HasSame s w fn true (retry_at_head t) = elim (Option-cases (fall_back t)) [
    | inl gone ↦ rw gone tt
    | inr (status, there) ↦ rw there (refl, λ v. task_keys-set_status s.waiters w v status)
  ]
  finish-HasSame s w fn false (retry_at_head t) = elim (Bool-cases (is_head s.queue (some w))) [
    | inl now ↦ rw now (refl, λ v. both_set s.waiters w v (some fn) Status.retry_requested)
    | inr later ↦ rw later (refl, λ v. both_set s.waiters w v (some fn) Status.retry_requested)
  ]

  pub check-HasSame :
      (s : Tasks K E) (next : List (Option ℕ)) (head : Option ℕ) → HasSame s (check next head s)
  unfolding check
  check-HasSame s next none = dispose_all-HasSame s next
  check-HasSame s next (some h) = elim (Option-cases (get_elem? s.waiters h)) [
    | inl out ↦ rw (out, check) (dispose_all-HasSame s next)
    | inr (head, at_h) ↦ elim (Bool-cases (is_retry_requested head.status)) [
      | inl asked ↦ rw (at_h, check) (rw asked (refl, λ v. refl))
      | inr quiet ↦ rw (at_h, check) (rw quiet (dispose_all-HasSame s next))
    ]
  ]

  pub mark_head-HasSame :
      (s : Tasks K E) (next : List (Option ℕ)) (h : ℕ) → HasSame s (mark_head next h s)
  unfolding mark_head
  mark_head-HasSame s next h =
      let marked : Tasks K E = record s { waiters = set_status h Status.retry_queued s.waiters } in
      let rest = dispose_all-HasSame marked (next ++ some h ∷ []) in
      (rest.0, λ v. rest.1 v ∙ task_keys-set_status s.waiters h v Status.retry_queued)

  -- Each task in the queue is there under its own keys.
  abbrev pub IsKeyed : Tasks K E → Type 0
  IsKeyed s =
      (w : ℕ) → IsQueued s.queue (some w) → keys_of s.queue (some w) ≡ dedup (task_keys s.waiters w)

  pub same-IsKeyed : (s s' : Tasks K E) → HasSame s s' → IsKeyed s → IsKeyed s'
  same-IsKeyed s s' (queue, keys) keyed w there =
      ap (λ q. keys_of q (some w)) queue
      ∙ keyed w (subst (λ q. IsQueued q (some w)) queue there)
      ∙ ap dedup (sym (keys w))
