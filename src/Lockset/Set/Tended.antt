-- ===== src/Lockset/Set/Tended.antt =====
-- internal/util/lockset/lockset.go: the start of a goroutine keeps every task covered.
use cdc_sink.Base.{
  ℕ, ◌≤◌, ◌≡◌, ◌≢◌, refl, ap, ◌∙◌, inl, inr, Bool, true, false, Option, none, some, List, [], ◌∷◌,
  Comparable, nat_eq, option_eq, ==_refl, arith, eqb, eqb_iff, Bool-cases, Option-cases,
}
use cdc_sink.Lockset.Queue.{Queue, is_head, peek_head, has_elt}
use cdc_sink.Lockset.Set.{
  Status, Job, pending, running, dequeuing, Waiter, Tasks, fn_at, set_fn, set_status, begin,
}
use cdc_sink.Lockset.Set.Awake.{
  starts, looks, total, asked_at, asked_at-set_fn, asked_at-set_status_other, IsAwake, push-IsAwake,
  turn-IsAwake,
}
use cdc_sink.Lockset.Set.Held.{
  holds, held, present, fn_at-set_fn, fn_at-set_fn_other, fn_at-set_status,
}
use cdc_sink.Lockset.Set.Safety.{IsSafe}
use cdc_sink.Lockset.Set.Turns.{one_if}

pub one_self : (w : ℕ) → one_if w w ≡ 1
one_self w = rw ((eqb_iff w w).1 refl) refl

pub one_other : (w v : ℕ) → w ≢ v → one_if w v ≡ 0
one_other w v ne = elim (Bool-cases (eqb w v)) [
  | inl same ↦ absurd (ne ((eqb_iff w v).0 same))
  | inr other ↦ rw other refl
]

-- `IsHead` is false.
pub not_at_head :
    {K : Type 0} ⦃c : Comparable K⦄ (q : Queue K (Option ℕ)) (u : Option ℕ)
    → is_head q u ≡ false
    → peek_head q ≡ some u
    → ⊥
unfolding has_elt
not_at_head q u behind at_head =
    let yes : is_head q u ≡ true = rw (at_head, has_elt) (==_refl u) in
    absurd (ground (arith, behind, yes))

module _ {K E : Type 0} ⦃c : Comparable K⦄ (granted : List (Option ℕ)) where
  -- A goroutine that finds the function taken ends.
  stale-IsAwake :
      (s : Tasks K E) (w : ℕ) (stop : Bool)
      → fn_at s.waiters w ≡ none
      → IsAwake granted (pending w stop ∷ []) s
      → IsAwake granted [] s
  stale-IsAwake s w stop gone inv =
      turn-IsAwake granted s (pending w stop ∷ []) [] s.waiters w inv
        (λ v ne.
          let nothing = one_other w v ne in
          (refl, refl, omega arith, omega (arith, nothing), omega arith))
        (λ queued. let was = inv.tended w queued in omega (arith, was))
        (λ may has. let no = ap present gone in absurd (omega (arith, has, no)))

  -- A goroutine that takes the function, or that holds it, and sets the status.
  pub holding-IsAwake :
      (s : Tasks K E) (w : ℕ) (out : List Job) (j : Job) (status : Status E)
      (waiters : List (Waiter K E))
      → IsAwake granted out s
      → ((v : ℕ)
          → w ≢ v
          → (present (fn_at waiters v) ≡ present (fn_at s.waiters v))
            × (asked_at waiters v ≡ asked_at s.waiters v)
            × (held v out ≤ 0)
            × (total (starts v) out ≤ 0)
            × (total (looks v) out ≤ 0))
      → holds w j ≡ 1
      → present (fn_at waiters w) ≡ 0
      → IsAwake granted (j ∷ []) (record s { waiters = set_status w status waiters })
  holding-IsAwake s w out j status waiters inv others mine gone =
      turn-IsAwake granted s out (j ∷ []) (set_status w status waiters) w inv
        (λ v ne.
          let (kept, asks, holding, starting, looking) = others v ne in
          (
            ap present (fn_at-set_status waiters w v status) ∙ kept,
            asked_at-set_status_other waiters w v status ne ∙ asks,
            omega (arith, holding),
            omega (arith, starting),
            omega (arith, looking),
          ))
        (λ queued. omega (arith, mine))
        (λ may has.
          let same = ap present (fn_at-set_status waiters w w status) in
          absurd (omega (arith, has, same, gone)))

  pub begin-IsAwake :
      (canceled_err : E) (s : Tasks K E) (w : ℕ) (stop : Bool)
      → IsSafe granted (pending w stop ∷ []) s
      → IsAwake granted (pending w stop ∷ []) s
      → IsAwake granted [] (begin canceled_err w stop s)
  unfolding begin
  begin-IsAwake canceled_err s w stop safe inv = elim (Option-cases (fn_at s.waiters w)) [
    | inl gone ↦ rw (gone, begin) (stale-IsAwake s w stop gone inv)
    | inr (fn, there) ↦
        let below = safe.fresh w (safe.has_fn w (λ p. ground (arith, there, p))) in
        let taken = ap present (fn_at-set_fn s.waiters w none below) in
        let others : (v : ℕ)
            → w ≢ v
            → (present (fn_at (set_fn w none s.waiters) v) ≡ present (fn_at s.waiters v))
              × (asked_at (set_fn w none s.waiters) v ≡ asked_at s.waiters v)
              × (held v (pending w stop ∷ []) ≤ 0)
              × (total (starts v) (pending w stop ∷ []) ≤ 0)
              × (total (looks v) (pending w stop ∷ []) ≤ 0) =
          λ v ne.
            let nothing = one_other w v ne in
            (
              ap present (fn_at-set_fn_other s.waiters w v none ne),
              asked_at-set_fn s.waiters w v none,
              omega arith,
              omega (arith, nothing),
              omega arith,
            ) in
        elim stop as (λ b. IsAwake granted [] (begin canceled_err w b s)) [
          | true ↦
              rw (there, begin)
                (push-IsAwake granted _ (dequeuing w) [] (
                  holding-IsAwake s w (pending w stop ∷ []) (dequeuing w)
                    (Status.failed canceled_err) (set_fn w none s.waiters) inv others (one_self w)
                    taken))
          | false ↦
              rw (there, begin)
                (push-IsAwake granted _ (running w fn (is_head s.queue (some w))) [] (
                  holding-IsAwake s w (pending w stop ∷ [])
                    (running w fn (is_head s.queue (some w))) Status.executing
                    (set_fn w none s.waiters) inv others (one_self w) taken))
        ]
  ]
