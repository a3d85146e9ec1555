-- ===== src/Lockset/Queue/Grants.antt =====
-- internal/util/lockset/queue.go: the values that may run, through any sequence of calls.
use cdc_sink.Base.{
  ℕ, ◌≡◌, ◌≢◌, sym, ◌∙◌, ◌⊎◌, inl, inr, ◌↔◌, Bool, true, false, none, some, List, [], ◌∷◌, ◌++◌,
  length, Comparable, ◌==◌, eqb, eqb_iff, arith, Bool-cases, if◌then◌else◌,
}
use cdc_sink.Lockset.Queue.{Queue, new_queue, enqueue, dequeue}
use cdc_sink.Lockset.Queue.Dedup.{IsIn}
use cdc_sink.Lockset.Queue.Fronts.{fronts, IsFirst, fronts-IsFirst}
use cdc_sink.Lockset.Queue.Invariant.{IsReady, IsQueue}
use cdc_sink.Lockset.Queue.Views.{live_at}

-- The list without the value.
abbrev pub dropped : {V : Type 0} ⦃d : Comparable V⦄ → V → List V → List V
dropped val [] = []
dropped val (v ∷ vals) = let rest = dropped val vals in if v == val then rest else v ∷ rest

-- The queues that calls of `Enqueue` and `Dequeue` lead to from `NewQueue`, with the values that may
-- run: `Enqueue` said that the value is at the head of its queues, or a `Dequeue` returned it, and it
-- has not been dequeued since.
pub data Reach {K V : Type 0} ⦃c : Comparable K⦄ ⦃d : Comparable V⦄ (zero_value : V)
    : Queue K V → List V → Type 0 where
  start : Reach zero_value new_queue []
  enqueued :
      {q q' : Queue K V} {granted : List V} (keys : List K) (val : V) (at_head : Bool)
      → Reach zero_value q granted
      → enqueue q keys val ≡ some (some at_head, q')
      → Reach zero_value q' (if at_head then val ∷ granted else granted)
  refused :
      {q q' : Queue K V} {granted : List V} (keys : List K) (val : V)
      → Reach zero_value q granted
      → enqueue q keys val ≡ some (none, q')
      → Reach zero_value q' granted
  dequeued :
      {q q' : Queue K V} {granted : List V} (val : V) (ret : List V)
      → Reach zero_value q granted
      → dequeue zero_value q val ≡ some (ret, true, q')
      → Reach zero_value q' (dropped val granted ++ ret)
  not_queued :
      {q q' : Queue K V} {granted : List V} (val : V) (ret : List V)
      → Reach zero_value q granted
      → dequeue zero_value q val ≡ some (ret, false, q')
      → Reach zero_value q' granted

pub IsIn-dropped :
    {V : Type 0} ⦃d : Comparable V⦄ (val v : V) (vals : List V)
    → IsIn v (dropped val vals) ↔ (IsIn v vals × (v ≢ val))
IsIn-dropped val v [] = (λ p. absurd p, λ p. absurd p.0)
IsIn-dropped ⦃d⦄ val v (u ∷ vals) =
    let rest = IsIn-dropped val v vals in
    elim (Bool-cases (u == val)) [
      | inl same ↦
          let here : u ≡ val = (d.equals_iff u val).0 same in
          rw same (
            λ p. (inr (rest.0 p).0, (rest.0 p).1),
            λ p. elim p.0 [ inl q ↦ absurd (p.1 (sym q ∙ here)) | inr q ↦ rest.1 (q, p.1) ],
          )
      | inr other ↦
          let ne : u ≢ val = λ p. ground (arith, other, (d.equals_iff u val).1 p) in
          rw other (
            λ p. elim p [
              | inl q ↦ (inl q, λ r. ne (q ∙ r))
              | inr q ↦ (inr (rest.0 q).0, (rest.0 q).1)
            ],
            λ p. elim p.0 [ inl q ↦ inl q | inr q ↦ inr (rest.1 (q, p.1)) ],
          )
    ]

pub IsIn-append :
    {V : Type 0} (v : V) (xs ys : List V) → IsIn v (xs ++ ys) ↔ (IsIn v xs ⊎ IsIn v ys)
IsIn-append v [] ys = (λ p. inr p, λ p. elim p [ inl q ↦ absurd q | inr q ↦ q ])
IsIn-append v (x ∷ xs) ys =
    let rest = IsIn-append v xs ys in
    (
      λ p. elim p [
        | inl q ↦ inl (inl q)
        | inr q ↦ elim (rest.0 q) [ inl r ↦ inl (inr r) | inr r ↦ inr r ]
      ],
      λ p. elim p [
        | inl q ↦ elim q [ inl r ↦ inl r | inr r ↦ inr (rest.1 (inl r)) ]
        | inr q ↦ inr (rest.1 (inr q))
      ],
    )

pub ready_or_not :
    {K : Type 0} (i : ℕ) (queue : K → List ℕ) (keys : List K)
    → IsFirst i queue keys ⊎ (IsFirst i queue keys → ⊥)
ready_or_not i queue keys =
    let all = (fronts-IsFirst i queue keys).1 in
    elim (Bool-cases (eqb (fronts i queue keys) (length keys))) [
      | inl full ↦ inl (all.0 ((eqb_iff (fronts i queue keys) (length keys)).0 full))
      | inr partial ↦
          inr (λ p.
            ground (arith, partial, (eqb_iff (fronts i queue keys) (length keys)).1 (all.1 p)))
    ]

module _ {K V : Type 0} ⦃c : Comparable K⦄ ⦃d : Comparable V⦄ where
  -- The values are just those of the waiters in front of all their queues.
  abbrev pub IsGranted : Queue K V → List V → Type 0
  IsGranted q granted =
      (v : V) → IsIn v granted ↔ ((i : ℕ) × (live_at q.heap i ≡ some v) × IsReady q i)

  pub live_unique :
      (q : Queue K V) (i j : ℕ) (v : V)
      → IsQueue q
      → live_at q.heap i ≡ some v
      → live_at q.heap j ≡ some v
      → i ≡ j
  live_unique q i j v inv at_i at_j =
      let both : some i ≡ some j = sym ((inv.refs v i).1 at_i) ∙ (inv.refs v j).1 at_j in cc
