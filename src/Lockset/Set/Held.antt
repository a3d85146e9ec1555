-- ===== src/Lockset/Set/Held.antt =====
-- internal/util/lockset/lockset.go: which goroutines have taken the function of a waiter.
use cdc_sink.Base.{
  ℕ, zero, suc, ◌+◌, ◌<◌, ◌≡◌, ◌≢◌, refl, sym, ◌∙◌, inl, inr, Option, none, some, List, [], ◌∷◌,
  ◌++◌, length, length-set, get_elem?, set, get_elem?-some, arith, eqb, Option-cases, if◌then◌else◌,
}
use cdc_sink.Lockset.Set.{
  Status, Fn, Job, pending, running, dequeuing, peeking, checking, marking, Waiter, fn_at, set_fn,
  set_status,
}
use cdc_sink.Lockset.Queue.Views.{
  view-set_same, view-set_other, view-set_keeps, view, view-append_last, view-append_other,
}

-- How often a goroutine holds the waiter: from when it has taken the function until it dequeues.
abbrev pub holds : ℕ → Job → ℕ
holds w (pending v cancel) = 0
holds w (running v fn at_head) = if eqb v w then 1 else 0
holds w (dequeuing v) = if eqb v w then 1 else 0
holds w (peeking next) = 0
holds w (checking next head) = 0
holds w (marking next h) = 0

abbrev pub held : ℕ → List Job → ℕ
held w [] = 0
held w (j ∷ jobs) = holds w j + held w jobs

pub held-append : (w : ℕ) (xs ys : List Job) → held w (xs ++ ys) ≡ held w xs + held w ys
held-append w [] ys = omega arith
held-append w (j ∷ xs) ys = let rest = held-append w xs ys in omega (arith, rest)

-- A goroutine that has been taken out of the list.
pub held-out :
    (w : ℕ) (front back : List Job) (j : Job)
    → held w (front ++ j ∷ back) ≡ held w (front ++ back) + holds w j
held-out w front back j =
    let with_j = held-append w front (j ∷ back) in
    let without_j = held-append w front back in omega (arith, with_j, without_j)

pub held-in :
    (w : ℕ) (jobs : List Job) (j : Job) → held w (jobs ++ j ∷ []) ≡ held w jobs + holds w j
held-in w jobs j = let both = held-append w jobs (j ∷ []) in omega (arith, both)

-- Whether the function is there to be taken.
abbrev pub present : Option Fn → ℕ
present none = 0
present (some fn) = 1

module _ {K E : Type 0} where
  pub fn_at-view :
      (waiters : List (Waiter K E)) (w : ℕ)
      → fn_at waiters w ≡ view none (λ (x : Waiter K E). x.fn) waiters w
  unfolding fn_at
  fn_at-view [] w = refl
  fn_at-view (x ∷ rest) zero = refl
  fn_at-view (x ∷ rest) (suc w) = fn_at-view rest w

  pub fn_at-set_fn :
      (waiters : List (Waiter K E)) (w : ℕ) (fn : Option Fn)
      → w < length waiters
      → fn_at (set_fn w fn waiters) w ≡ fn
  unfolding set_fn
  fn_at-set_fn waiters w fn inside = elim (Option-cases (get_elem? waiters w)) [
    | inl out ↦
        let (old, at_w) = get_elem?-some waiters w inside in absurd (ground (arith, out, at_w))
    | inr (old, at_w) ↦
        let changed : Waiter K E = record old { fn = fn } in
        rw (at_w, set_fn)
          (fn_at-view (set waiters w changed) w
            ∙ view-set_same none (λ (x : Waiter K E). x.fn) waiters w old changed at_w)
  ]

  pub fn_at-set_fn_other :
      (waiters : List (Waiter K E)) (w v : ℕ) (fn : Option Fn)
      → w ≢ v
      → fn_at (set_fn w fn waiters) v ≡ fn_at waiters v
  unfolding set_fn
  fn_at-set_fn_other waiters w v fn ne = elim (Option-cases (get_elem? waiters w)) [
    | inl out ↦ rw (out, set_fn) refl
    | inr (old, at_w) ↦
        let changed : Waiter K E = record old { fn = fn } in
        rw (at_w, set_fn)
          (fn_at-view (set waiters w changed) v
            ∙ view-set_other none (λ (x : Waiter K E). x.fn) waiters w v changed ne
            ∙ sym (fn_at-view waiters v))
  ]

  pub fn_at-set_status :
      (waiters : List (Waiter K E)) (w v : ℕ) (status : Status E)
      → fn_at (set_status w status waiters) v ≡ fn_at waiters v
  unfolding set_status
  fn_at-set_status waiters w v status = elim (Option-cases (get_elem? waiters w)) [
    | inl out ↦ rw (out, set_status) refl
    | inr (old, at_w) ↦
        let changed : Waiter K E = record old { status = status } in
        rw (at_w, set_status)
          (fn_at-view (set waiters w changed) v
            ∙ view-set_keeps none (λ (x : Waiter K E). x.fn) waiters w v old changed at_w refl
            ∙ sym (fn_at-view waiters v))
  ]

  pub length-set_status :
      (waiters : List (Waiter K E)) (w : ℕ) (status : Status E)
      → length (set_status w status waiters) ≡ length waiters
  unfolding set_status
  length-set_status waiters w status = elim (Option-cases (get_elem? waiters w)) [
    | inl out ↦ rw (out, set_status) refl
    | inr (old, at_w) ↦
        rw (at_w, set_status) (length-set waiters w (record old { status = status }))
  ]

  pub length-set_fn :
      (waiters : List (Waiter K E)) (w : ℕ) (fn : Option Fn)
      → length (set_fn w fn waiters) ≡ length waiters
  unfolding set_fn
  length-set_fn waiters w fn = elim (Option-cases (get_elem? waiters w)) [
    | inl out ↦ rw (out, set_fn) refl
    | inr (old, at_w) ↦ rw (at_w, set_fn) (length-set waiters w (record old { fn = fn }))
  ]

  pub fn_at-append :
      (waiters : List (Waiter K E)) (waiter : Waiter K E) (w : ℕ)
      → w ≢ length waiters
      → fn_at (waiters ++ waiter ∷ []) w ≡ fn_at waiters w
  fn_at-append waiters waiter w ne =
      fn_at-view (waiters ++ waiter ∷ []) w
      ∙ view-append_other none (λ (x : Waiter K E). x.fn) waiters waiter w ne
      ∙ sym (fn_at-view waiters w)

  pub fn_at-append_last :
      (waiters : List (Waiter K E)) (waiter : Waiter K E)
      → fn_at (waiters ++ waiter ∷ []) (length waiters) ≡ waiter.fn
  fn_at-append_last waiters waiter =
      fn_at-view (waiters ++ waiter ∷ []) (length waiters)
      ∙ view-append_last none (λ (x : Waiter K E). x.fn) waiters waiter
