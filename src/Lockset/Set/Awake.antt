-- ===== src/Lockset/Set/Awake.antt =====
-- internal/util/lockset/lockset.go: somebody will see to each task that may run.
use cdc_sink.Base.{
  ℕ, ◌+◌, ◌≤◌, ◌≡◌, ◌≢◌, refl, sym, ap, ◌∙◌, subst, ◌⊎◌, inl, inr, Bool, true, false, Option, none,
  some, List, [], ◌∷◌, ◌++◌, get_elem?, Comparable, nat_eq, option_eq, arith, same_or_not,
  Option-cases,
}
use cdc_sink.Lockset.Queue.{Queue, peek_head}
use cdc_sink.Lockset.Queue.Dedup.{IsIn}
use cdc_sink.Lockset.Queue.Views.{view, view-set_same, view-set_other, view-set_keeps}
use cdc_sink.Lockset.Set.{
  Status, Fn, Job, pending, running, dequeuing, peeking, checking, marking, Waiter, Tasks, fn_at,
  set_fn, set_status, is_retry_requested,
}
use cdc_sink.Lockset.Set.Effects.{IsQueued}
use cdc_sink.Lockset.Set.Held.{held, held-append, present}
use cdc_sink.Lockset.Set.Safety.{IsSafe}
use cdc_sink.Lockset.Set.Turns.{one_if}

-- How often the waiter is in the list.
abbrev pub listed : ℕ → List (Option ℕ) → ℕ
listed w [] = 0
listed w (none ∷ next) = listed w next
listed w (some v ∷ next) = one_if v w + listed w next

pub listed-append :
    (w : ℕ) (xs ys : List (Option ℕ)) → listed w (xs ++ ys) ≡ listed w xs + listed w ys
listed-append w [] ys = omega arith
listed-append w (none ∷ xs) ys = listed-append w xs ys
listed-append w (some v ∷ xs) ys = let rest = listed-append w xs ys in omega (arith, rest)

-- A goroutine that will start the waiter, or dispose of it.
abbrev pub starts : ℕ → Job → ℕ
starts w (pending v cancel) = one_if v w
starts w (running v fn at_head) = 0
starts w (dequeuing v) = 0
starts w (peeking next) = listed w next
starts w (checking next head) = listed w next
starts w (marking next h) = listed w (next ++ some h ∷ [])

-- A goroutine that will look at the waiter if it is at the head.
abbrev pub looks : ℕ → Job → ℕ
looks w (pending v cancel) = 0
looks w (running v fn at_head) = 0
looks w (dequeuing v) = 0
looks w (peeking next) = 1
looks w (checking next none) = 0
looks w (checking next (some h)) = one_if h w
looks w (marking next h) = 0

abbrev pub total : (Job → ℕ) → List Job → ℕ
total f [] = 0
total f (j ∷ jobs) = f j + total f jobs

pub total-append : (f : Job → ℕ) (xs ys : List Job) → total f (xs ++ ys) ≡ total f xs + total f ys
total-append f [] ys = omega arith
total-append f (j ∷ xs) ys = let rest = total-append f xs ys in omega (arith, rest)

module _ {K E : Type 0} where
  -- Whether the waiter has asked for a retry that nobody has started.
  abbrev pub asked_at : List (Waiter K E) → ℕ → Bool
  asked_at = view false (λ (x : Waiter K E). is_retry_requested x.status)

  pub asked_at-set_fn :
      (waiters : List (Waiter K E)) (w v : ℕ) (fn : Option Fn)
      → asked_at (set_fn w fn waiters) v ≡ asked_at waiters v
  unfolding set_fn
  asked_at-set_fn waiters w v fn = elim (Option-cases (get_elem? waiters w)) [
    | inl out ↦ rw (out, set_fn) refl
    | inr (old, at_w) ↦
        rw (at_w, set_fn)
          (view-set_keeps false (λ (x : Waiter K E). is_retry_requested x.status) waiters w v old
            (record old { fn = fn }) at_w refl)
  ]

  pub asked_at-set_status_other :
      (waiters : List (Waiter K E)) (w v : ℕ) (status : Status E)
      → w ≢ v
      → asked_at (set_status w status waiters) v ≡ asked_at waiters v
  unfolding set_status
  asked_at-set_status_other waiters w v status ne = elim (Option-cases (get_elem? waiters w)) [
    | inl out ↦ rw (out, set_status) refl
    | inr (old, at_w) ↦
        rw (at_w, set_status)
          (view-set_other false (λ (x : Waiter K E). is_retry_requested x.status) waiters w v
            (record old { status = status }) ne)
  ]

  pub asked_at-set_status :
      (waiters : List (Waiter K E)) (w : ℕ) (status : Status E) (old : Waiter K E)
      → get_elem? waiters w ≡ some old
      → asked_at (set_status w status waiters) w ≡ is_retry_requested status
  unfolding set_status
  asked_at-set_status waiters w status old at_w =
      rw (at_w, set_status)
        (view-set_same false (λ (x : Waiter K E). is_retry_requested x.status) waiters w old
          (record old { status = status }) at_w)

module _ {K E : Type 0} ⦃c : Comparable K⦄ where
  -- A goroutine will start the waiter, or it has asked for a retry, and it is not at the head, or a
  -- goroutine will look at the head.
  abbrev pub IsCovered : Queue K (Option ℕ) → List (Waiter K E) → List Job → List Job → ℕ → Type 0
  IsCovered q waiters jobs out w =
      (1 ≤ total (starts w) jobs + total (starts w) out)
      ⊎ ((asked_at waiters w ≡ true)
          × ((peek_head q ≡ some (some w) → ⊥) ⊎ (1 ≤ total (looks w) jobs + total (looks w) out)))

  -- With the goroutines `out` taken out: each waiter in the queue has its function, or a goroutine
  -- holds it, and each that may run and has its function is covered.
  pub record IsAwake (granted : List (Option ℕ)) (out : List Job) (s : Tasks K E) : Type 0 where
    pub tended :
        (w : ℕ)
        → IsQueued s.queue (some w)
        → 1 ≤ held w s.jobs + held w out + present (fn_at s.waiters w)
    pub covered :
        (w : ℕ)
        → IsIn (some w) granted
        → present (fn_at s.waiters w) ≡ 1
        → IsCovered s.queue s.waiters s.jobs out w
    pub not_nil : IsQueued s.queue none → ⊥

  pub pull-IsAwake :
      (granted : List (Option ℕ)) (s : Tasks K E) (front back : List Job) (j : Job)
      → s.jobs ≡ front ++ j ∷ back
      → IsAwake granted [] s
      → IsAwake granted (j ∷ []) (record s { jobs = front ++ back })
  pull-IsAwake granted s front back j split inv =
      let sum : (f : Job → ℕ) → total f s.jobs ≡ total f (front ++ back) + f j = λ f.
        let there = ap (total f) split in
        let parts = total-append f front (j ∷ back) in
        let rest = total-append f front back in omega (arith, there, parts, rest) in
      record {
        tended = λ w queued.
            let was = inv.tended w queued in
            let there = ap (held w) split in
            let parts = held-append w front (j ∷ back) in
            let rest = held-append w front back in omega (arith, was, there, parts, rest);
        covered = λ w may has. elim (inv.covered w may has) [
          | inl started ↦ inl (let parts = sum (starts w) in omega (arith, started, parts))
          | inr (asked, inl not_head) ↦ inr (asked, inl not_head)
          | inr (asked, inr looked) ↦
              inr (asked, inr (let parts = sum (looks w) in omega (arith, looked, parts)))
        ];
        not_nil = inv.not_nil;
      }

  pub push-IsAwake :
      (granted : List (Option ℕ)) (s : Tasks K E) (j : Job) (out : List Job)
      → IsAwake granted (j ∷ out) s
      → IsAwake granted out (record s { jobs = s.jobs ++ j ∷ [] })
  push-IsAwake granted s j out inv = record {
    tended = λ w queued.
        let was = inv.tended w queued in
        let parts = held-append w s.jobs (j ∷ []) in omega (arith, was, parts);
    covered = λ w may has. elim (inv.covered w may has) [
      | inl started ↦
          inl (let parts = total-append (starts w) s.jobs (j ∷ []) in omega (arith, started, parts))
      | inr (asked, inl not_head) ↦ inr (asked, inl not_head)
      | inr (asked, inr looked) ↦ inr (
        asked,
        inr (let parts = total-append (looks w) s.jobs (j ∷ []) in omega (arith, looked, parts)),
      )
    ];
    not_nil = inv.not_nil;
  }

  -- A turn that changes one waiter only.
  pub turn-IsAwake :
      (granted : List (Option ℕ)) (s : Tasks K E) (out out' : List Job)
      (waiters : List (Waiter K E)) (w : ℕ)
      → IsAwake granted out s
      → ((v : ℕ)
          → w ≢ v
          → (present (fn_at waiters v) ≡ present (fn_at s.waiters v))
            × (asked_at waiters v ≡ asked_at s.waiters v)
            × (held v out ≤ held v out')
            × (total (starts v) out ≤ total (starts v) out')
            × (total (looks v) out ≤ total (looks v) out'))
      → (IsQueued s.queue (some w) → 1 ≤ held w s.jobs + held w out' + present (fn_at waiters w))
      → (IsIn (some w) granted
          → present (fn_at waiters w) ≡ 1
          → IsCovered s.queue waiters s.jobs out' w)
      → IsAwake granted out' (record s { waiters = waiters })
  turn-IsAwake granted s out out' waiters w inv others tended covered = record {
    tended = λ v queued. elim (same_or_not w v) [
      | inl same ↦
          subst (λ x. 1 ≤ held x s.jobs + held x out' + present (fn_at waiters x)) same
            (tended (subst (λ x. IsQueued s.queue (some x)) (sym same) queued))
      | inr ne ↦
          let was = inv.tended v queued in
          let kept = (others v ne).0 in let more = (others v ne).2 in omega (arith, was, kept, more)
    ];
    covered = λ v may has. elim (same_or_not w v) [
      | inl same ↦ subst (IsCovered s.queue waiters s.jobs out') same (
          covered (subst (λ x. IsIn (some x) granted) (sym same) may)
            (ap (λ x. present (fn_at waiters x)) same ∙ has))
      | inr ne ↦
          let (kept, asks, holding, starting, looking) = others v ne in
          elim (inv.covered v may (sym kept ∙ has)) [
            | inl started ↦ inl (omega (arith, started, starting))
            | inr (asked, inl not_head) ↦ inr (asks ∙ asked, inl not_head)
            | inr (asked, inr looked) ↦ inr (asks ∙ asked, inr (omega (arith, looked, looking)))
          ]
    ];
    not_nil = inv.not_nil;
  }

  -- Both invariants.
  abbrev pub IsKept : List (Option ℕ) → List Job → Tasks K E → Type 0
  IsKept granted out s = IsSafe granted out s × IsAwake granted out s
