-- ===== src/Lockset/Queue/Stage.antt =====
-- internal/util/lockset/queue.go: the queues of the keys while `Dequeue` takes a waiter out of them.
use cdc_sink.Base.{
  is_seen, ℕ, ◌≡◌, ◌≢◌, refl, sym, ap, ◌∙◌, ◌⊎◌, inl, inr, true, false, List, [], ◌∷◌, All-map,
  Comparable, ◌==◌, ==_refl, equals-false, eqb, eqb_iff, arith, Bool-cases, if◌then◌else◌,
}
use cdc_sink.Lockset.Queue.Dedup.{IsIn}
use cdc_sink.Lockset.Queue.Fronts.{Ascends, without, is_front, IsFirst}

eqb-false : (a b : ℕ) → a ≢ b → eqb a b ≡ false
eqb-false a b ne = elim (Bool-cases (eqb a b)) [
  | inl same ↦ absurd (ne ((eqb_iff a b).0 same))
  | inr other ↦ other
]

-- A waiter in a queue is alone, or in front of another one, or behind another one.
pub front-cases :
    (w : ℕ) (entries : List ℕ)
    → IsIn w entries
    → Ascends entries
    → (entries ≡ w ∷ [])
      ⊎ ((h : ℕ) × (rest : List ℕ) × (entries ≡ w ∷ h ∷ rest) × (h ≢ w))
      ⊎ (is_front w entries ≡ false)
front-cases w [] there asc = absurd there
front-cases w (e ∷ []) (inl here) asc = inl (ap (λ x. x ∷ []) here)
front-cases w (e ∷ []) (inr later) asc = absurd later
front-cases w (e ∷ f ∷ entries) there asc = elim (Bool-cases (eqb e w)) [
  | inl same ↦
      let here : e ≡ w = (eqb_iff e w).0 same in
      let above = asc.0.0 in
      inr (inl (f, entries, ap (λ x. x ∷ f ∷ entries) here, λ p. omega (arith, above, p, here)))
  | inr other ↦ inr (inr other)
]

pub without_front : (w : ℕ) (rest : List ℕ) → without w (w ∷ rest) ≡ rest
without_front w rest = rw ((eqb_iff w w).1 refl) refl

pub is_front-without :
    (i w : ℕ) (entries : List ℕ)
    → i ≢ w
    → is_front i entries ≡ true
    → is_front i (without w entries) ≡ true
is_front-without i w [] ne front = front
is_front-without i w (e ∷ entries) ne front =
    let here : e ≡ i = (eqb_iff e i).0 front in rw (eqb-false e w (λ p. ne (sym here ∙ p))) front

-- A queue that keeps its front.
pub is_front-without_behind :
    (i w : ℕ) (entries : List ℕ)
    → is_front w entries ≡ false
    → is_front i (without w entries) ≡ is_front i entries
is_front-without_behind i w [] behind = refl
is_front-without_behind i w (e ∷ entries) behind = rw behind refl

pub is_front-other : (i w : ℕ) (rest : List ℕ) → i ≢ w → is_front i (w ∷ rest) ≡ false
is_front-other i w rest ne = eqb-false w i (λ p. ne (sym p))

pub without_absent : (w : ℕ) (entries : List ℕ) → (IsIn w entries → ⊥) → without w entries ≡ entries
without_absent w [] absent = refl
without_absent w (e ∷ entries) absent =
    rw (eqb-false e w (λ p. absent (inl p)))
      (ap (◌∷◌ e) (without_absent w entries (λ p. absent (inr p))))

module _ {K : Type 0} ⦃c : Comparable K⦄ (w : ℕ) (queue : K → List ℕ) where
  -- The waiter still stands in the queues of the keys of the list, and has left the others.
  abbrev pub stage : List K → K → List ℕ
  stage owed k = if is_seen k owed then queue k else without w (queue k)

  pub stage_here : (k : K) (owed : List K) → stage (k ∷ owed) k ≡ queue k
  unfolding is_seen
  stage_here k owed = rw (==_refl k) refl

  pub stage_left :
      (k : K) (owed : List K) → is_seen k owed ≡ false → stage owed k ≡ without w (queue k)
  stage_left k owed gone = rw gone refl

  pub stage_other : (k j : K) (owed : List K) → k ≢ j → stage (k ∷ owed) j ≡ stage owed j
  unfolding is_seen
  stage_other k j owed ne = rw (equals-false k j ne) refl

  -- Who is in front of a queue stays there when another waiter leaves.
  stage-front :
      (i : ℕ) (k : K) (owed : List K) (j : K)
      → i ≢ w
      → is_front i (stage (k ∷ owed) j) ≡ true
      → is_front i (stage owed j) ≡ true
  unfolding is_seen
  stage-front i k owed j ne front = elim (Bool-cases (is_seen j owed)) [
    | inl still ↦ elim (Bool-cases (k == j)) [
      | inl same ↦ rw still (rw same at front)
      | inr other ↦ rw still (rw (other, still) at front)
    ]
    | inr left ↦ elim (Bool-cases (k == j)) [
      | inl same ↦ rw left (is_front-without i w (queue j) ne (rw same at front))
      | inr other ↦ rw left (rw (other, left) at front)
    ]
  ]

  pub IsFirst-next :
      (i : ℕ) (k : K) (owed keys : List K)
      → i ≢ w
      → IsFirst i (stage (k ∷ owed)) keys
      → IsFirst i (stage owed) keys
  IsFirst-next i k owed keys ne = All-map _ _ keys (λ j. stage-front i k owed j ne)

  -- A turn of the loop that changes no other front.
  pub stage-quiet :
      (i : ℕ) (k : K) (owed : List K)
      → is_seen k owed ≡ false
      → is_front i (without w (queue k)) ≡ is_front i (queue k)
      → (j : K) → is_front i (stage owed j) ≡ is_front i (stage (k ∷ owed) j)
  unfolding is_seen
  stage-quiet i k owed gone quiet j = elim (Bool-cases (k == j)) [
    | inl same ↦
        let p : k ≡ j = (c.equals_iff k j).0 same in
        let left : is_seen j owed ≡ false = ap (λ x. is_seen x owed) (sym p) ∙ gone in
        let here : is_front i (without w (queue j)) ≡ is_front i (queue j) =
          ap (λ x. is_front i (without w (queue x))) (sym p)
          ∙ quiet
          ∙ ap (λ x. is_front i (queue x)) p in
        rw (left, same) here
    | inr other ↦ rw other refl
  ]
