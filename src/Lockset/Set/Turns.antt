-- ===== src/Lockset/Set/Turns.antt =====
-- internal/util/lockset/lockset.go: a turn of a goroutine that leaves the queue as it is.
use cdc_sink.Base.{
  ℕ, ◌≡◌, ◌≢◌, refl, sym, ap, ◌∙◌, subst, inl, inr, Bool, false, Option, none, some, List, [], ◌∷◌,
  length, Comparable, nat_eq, option_eq, arith, eqb, eqb_iff, same_or_not, Bool-cases,
  if◌then◌else◌,
}
use cdc_sink.Lockset.Set.{
  Status, Fn, Job, pending, running, dequeuing, Tasks, fn_at, set_fn, set_status, dispose,
  dispose_all, cancel,
}
use cdc_sink.Lockset.Set.Effects.{IsQueued, granted-IsQueued}
use cdc_sink.Lockset.Set.Held.{
  holds, present, fn_at-set_fn, fn_at-set_fn_other, fn_at-set_status, length-set_status,
  length-set_fn,
}
use cdc_sink.Lockset.Set.Safety.{AreKnown, IsSound, IsSafe, push-IsSafe, turn-IsSafe}

-- What `holds` counts.
abbrev pub one_if : ℕ → ℕ → ℕ
one_if w v = if eqb w v then 1 else 0

holds_self : (w : ℕ) → one_if w w ≡ 1
holds_self w = rw ((eqb_iff w w).1 refl) refl

holds_other : (w v : ℕ) → w ≢ v → one_if w v ≡ 0
holds_other w v ne = elim (Bool-cases (eqb w v)) [
  | inl same ↦ absurd (ne ((eqb_iff w v).0 same))
  | inr other ↦ rw other refl
]

module _ {K E : Type 0} ⦃c : Comparable K⦄ (granted : List (Option ℕ)) where
  -- A change of a status.
  pub status-IsSafe :
      (s : Tasks K E) (out : List Job) (w : ℕ) (status : Status E)
      → IsSafe granted out s
      → IsSafe granted out (record s { waiters = set_status w status s.waiters })
  status-IsSafe s out w status inv =
      let same : (v : ℕ) → fn_at (set_status w status s.waiters) v ≡ fn_at s.waiters v =
        λ v. fn_at-set_status s.waiters w v status in
      turn-IsSafe granted s out out (set_status w status s.waiters) inv
        (length-set_status s.waiters w status) inv.sound_out
        (λ v some_fn. inv.has_fn v (λ p. some_fn (same v ∙ p)))
        (λ v. let p = ap present (same v) in omega (arith, p))

  -- A goroutine whose task has been called leaves the queue next.
  pub called-IsSafe :
      (s : Tasks K E) (w : ℕ) (fn : Fn) (at_head : Bool)
      → IsSafe granted (running w fn at_head ∷ []) s
      → IsSafe granted (dequeuing w ∷ []) s
  called-IsSafe s w fn at_head inv =
      turn-IsSafe granted s (running w fn at_head ∷ []) (dequeuing w ∷ []) s.waiters inv refl
        (granted-IsQueued none s.queue granted (some w) inv.reach inv.sound_out.0, tt) inv.has_fn
        (λ v. omega arith)

  -- The function is taken, by a goroutine that holds the waiter from then on.
  pub taken-IsSafe :
      (s : Tasks K E) (w : ℕ) (fn : Fn) (j j' : Job)
      → (inv : IsSafe granted (j ∷ []) s) → fn_at s.waiters w ≡ some fn
      → IsSound (length s.waiters) s.queue granted j'
      → ((v : ℕ) → holds v j ≡ 0)
      → ((v : ℕ) → holds v j' ≡ one_if w v)
      → IsSafe granted (j' ∷ []) (record s { waiters = set_fn w none s.waiters })
  taken-IsSafe s w fn j j' inv there sound no_hold hold =
      let queued = inv.has_fn w (λ p. ground (arith, there, p)) in
      let gone = fn_at-set_fn s.waiters w none (inv.fresh w queued) in
      turn-IsSafe granted s (j ∷ []) (j' ∷ []) (set_fn w none s.waiters) inv
        (length-set_fn s.waiters w none) (sound, tt)
        (λ v some_fn. elim (same_or_not w v) [
          | inl same ↦ absurd (some_fn (ap (fn_at (set_fn w none s.waiters)) (sym same) ∙ gone))
          | inr ne ↦ inv.has_fn v (λ p. some_fn (fn_at-set_fn_other s.waiters w v none ne ∙ p))
        ])
        (λ v. elim (same_or_not w v) [
          | inl same ↦
              let now : present (fn_at (set_fn w none s.waiters) v) ≡ 0 =
                ap present (ap (fn_at (set_fn w none s.waiters)) (sym same) ∙ gone) in
              let before : present (fn_at s.waiters v) ≡ 1 =
                ap present (ap (fn_at s.waiters) (sym same) ∙ there) in
              let one : one_if w v ≡ 1 = ap (one_if w) (sym same) ∙ holds_self w in
              let mine = hold v in
              let none_held = no_hold v in omega (arith, now, before, one, mine, none_held)
          | inr ne ↦
              let kept = ap present (fn_at-set_fn_other s.waiters w v none ne) in
              let nothing = holds_other w v ne in
              let mine = hold v in
              let none_held = no_hold v in omega (arith, kept, nothing, mine, none_held)
        ])

  -- The function is given back.
  pub again-IsSafe :
      (s : Tasks K E) (w : ℕ) (fn : Fn) (at_head : Bool)
      → IsSafe granted (running w fn at_head ∷ []) s
      → IsSafe granted (pending w false ∷ []) (record s { waiters = set_fn w (some fn) s.waiters })
  again-IsSafe s w fn at_head inv =
      let queued = granted-IsQueued none s.queue granted (some w) inv.reach inv.sound_out.0 in
      let below = inv.fresh w queued in
      let back = fn_at-set_fn s.waiters w (some fn) below in
      turn-IsSafe granted s (running w fn at_head ∷ []) (pending w false ∷ [])
        (set_fn w (some fn) s.waiters) inv (length-set_fn s.waiters w (some fn))
        ((below, λ p. inv.sound_out.0), tt)
        (λ v some_fn. elim (same_or_not w v) [
          | inl same ↦ subst (λ x. IsQueued s.queue (some x)) same queued
          | inr ne ↦ inv.has_fn v (λ p. some_fn (fn_at-set_fn_other s.waiters w v (some fn) ne ∙ p))
        ])
        (λ v. elim (same_or_not w v) [
          | inl same ↦
              let now : present (fn_at (set_fn w (some fn) s.waiters) v) ≡ 1 =
                ap present (ap (fn_at (set_fn w (some fn) s.waiters)) (sym same) ∙ back) in
              let one : one_if w v ≡ 1 = ap (one_if w) (sym same) ∙ holds_self w in
              omega (arith, now, one)
          | inr ne ↦
              let kept = ap present (fn_at-set_fn_other s.waiters w v (some fn) ne) in
              omega (arith, kept)
        ])

  -- A goroutine that ends, and that holds nothing.
  pub end-IsSafe :
      (s : Tasks K E) (j : Job) (out : List Job) → IsSafe granted (j ∷ out) s → IsSafe granted out s
  end-IsSafe s j out inv =
      turn-IsSafe granted s (j ∷ out) out s.waiters inv refl inv.sound_out.1 inv.has_fn
        (λ v. omega arith)

  -- A new goroutine.
  pub new-IsSafe :
      (s : Tasks K E) (out : List Job) (w : ℕ) (cancel : Bool)
      → (inv : IsSafe granted out s) → IsSound (length s.waiters) s.queue granted (pending w cancel)
      → IsSafe granted out (dispose w cancel s)
  new-IsSafe s out w cancel inv sound = push-IsSafe granted s (pending w cancel) out (
      turn-IsSafe granted s out (pending w cancel ∷ out) s.waiters inv refl (sound, inv.sound_out)
        inv.has_fn (λ v. omega arith))

  pub dispose_all-IsSafe :
      (s : Tasks K E) (next : List (Option ℕ))
      → (inv : IsSafe granted [] s) → AreKnown (length s.waiters) s.queue granted next
      → IsSafe granted [] (dispose_all next s)
  unfolding dispose_all
  dispose_all-IsSafe s [] inv known = inv
  dispose_all-IsSafe s (none ∷ next) inv known = dispose_all-IsSafe s next inv known.1
  dispose_all-IsSafe s (some w ∷ next) inv known =
      dispose_all-IsSafe (dispose w false s) next (new-IsSafe s [] w false inv known.0) known.1
