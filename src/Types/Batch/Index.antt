-- ===== src/Types/Batch/Index.antt =====
-- internal/types/batches.go: the index of a multi-batch by time.
use cdc_sink.Base.{
  ℕ, zero, suc, ◌+◌, ◌≡◌, refl, sym, ap, ◌∙◌, inl, inr, Bool, none, some, List, [], ◌∷◌, ◌++◌,
  get_elem?, set, nat_eq, list_eq, option_eq, map_get, ◌==◌, arith, Bool-cases, All, if◌then◌else◌,
}
use cdc_sink.Base.Int.{int_eq}
use cdc_sink.Hlc.{Time, time_eq}
use cdc_sink.Ident.Keys.{array_key_eq, qualified_key_eq}
use cdc_sink.Types.Batch.{TemporalBatch}

unfoldable pub total : {A : Type 0} → (A → ℕ) → List A → ℕ
total f [] = 0
total f (x ∷ xs) = f x + total f xs

-- `sort.Sort` keeps the elements: each function has the same sum over them.
abbrev pub KeepsElements : ((ℕ → ℕ → Bool) → List ℕ → List ℕ) → Type 0
KeepsElements sort =
    (less : ℕ → ℕ → Bool) (xs : List ℕ) (f : ℕ → ℕ) → total f (sort less xs) ≡ total f xs

unfoldable pub pointers : List (Time × ℕ) → List ℕ
pointers [] = []
pointers ((t, p) ∷ m) = p ∷ pointers m

module _ {Meta : Type 0} where
  -- Each pointer of the index is to a batch at its time, and no time is in the index twice.
  abbrev pub IsIndex : List (TemporalBatch Meta) → List (Time × ℕ) → Type 0
  IsIndex heap [] = Unit
  IsIndex heap ((t, p) ∷ m) =
      ((b : TemporalBatch Meta) × (get_elem? heap p ≡ some b) × (b.time ≡ t))
      × (map_get t m ≡ none)
      × IsIndex heap m

  pub get_elem?-append :
      (heap : List (TemporalBatch Meta)) (x b : TemporalBatch Meta) (p : ℕ)
      → get_elem? heap p ≡ some b
      → get_elem? (heap ++ x ∷ []) p ≡ some b
  get_elem?-append [] x b p h = cc
  get_elem?-append (y ∷ heap) x b zero h = h
  get_elem?-append (y ∷ heap) x b (suc p) h = get_elem?-append heap x b p h

  -- A batch at the end of the heap disturbs no pointer.
  pub IsIndex-append :
      (heap : List (TemporalBatch Meta)) (x : TemporalBatch Meta) (m : List (Time × ℕ))
      → IsIndex heap m
      → IsIndex (heap ++ x ∷ []) m
  IsIndex-append heap x [] h = tt
  IsIndex-append heap x ((t, p) ∷ m) ((b, there, at), fresh, rest) =
      ((b, get_elem?-append heap x b p there, at), fresh, IsIndex-append heap x m rest)

  -- A pointer's batch after a change of one at a pointer.
  pub get_elem?-set :
      (heap : List (TemporalBatch Meta)) (old x b : TemporalBatch Meta) (p q : ℕ)
      → get_elem? heap p ≡ some old
      → get_elem? heap q ≡ some b
      → get_elem? (set heap p x) q ≡ (if p == q then some x else some b)
  get_elem?-set [] old x b p q h h' = cc
  get_elem?-set (y ∷ heap) old x b zero zero h h' = refl
  get_elem?-set (y ∷ heap) old x b zero (suc q) h h' = ground (arith, h')
  get_elem?-set (y ∷ heap) old x b (suc p) zero h h' = ground (arith, h')
  get_elem?-set (y ∷ heap) old x b (suc p) (suc q) h h' =
      ground (arith, get_elem?-set heap old x b p q h h')

  -- Nor does a change of a batch that keeps its time.
  pub IsIndex-set :
      (heap : List (TemporalBatch Meta)) (p : ℕ) (old x : TemporalBatch Meta) (m : List (Time × ℕ))
      → get_elem? heap p ≡ some old
      → x.time ≡ old.time
      → IsIndex heap m
      → IsIndex (set heap p x) m
  IsIndex-set heap p old x [] there same h = tt
  IsIndex-set heap p old x ((t, q) ∷ m) there same ((b, at_q, time), fresh, rest) =
      let kept = IsIndex-set heap p old x m there same rest in
      let after = get_elem?-set heap old x b p q there at_q in
      elim (Bool-cases (p == q)) [
        | inr other ↦ ((b, after ∙ rw other refl, time), fresh, kept)
        | inl here ↦
            let eq : p ≡ q = (nat_eq.equals_iff p q).0 here in
            let one : old.time ≡ b.time = ground (arith, eq, there, at_q) in
            ((x, after ∙ rw here refl, same ∙ one ∙ time), fresh, kept)
      ]

  pub map_get-IsIndex :
      (heap : List (TemporalBatch Meta)) (m : List (Time × ℕ)) (t : Time) (p : ℕ)
      → IsIndex heap m
      → map_get t m ≡ some p
      → (b : TemporalBatch Meta) × (get_elem? heap p ≡ some b) × (b.time ≡ t)
  unfolding map_get
  map_get-IsIndex heap [] t p h there = cc
  map_get-IsIndex heap ((u, q) ∷ m) t p ((b, at_q, time), fresh, rest) there =
      elim (Bool-cases (u == t)) [
        | inl same ↦
            let eq : u ≡ t = (time_eq.equals_iff u t).0 same in
            let one : q ≡ p = ground (arith, same, there) in
            (b, ap (λ i. get_elem? heap i) (sym one) ∙ at_q, time ∙ eq)
        | inr other ↦ map_get-IsIndex heap m t p rest (ground (arith, other, there))
      ]

pub All-set :
    {A : Type 0} (P : A → Type 0) (xs : List A) (i : ℕ) (x : A)
    → All P xs
    → P x
    → All P (set xs i x)
All-set P [] i x h px = tt
All-set P (y ∷ xs) zero x h px = (px, h.1)
All-set P (y ∷ xs) (suc i) x h px = (h.0, All-set P xs i x h.1 px)

pub total-append :
    {A : Type 0} (f : A → ℕ) (xs : List A) (x : A) → total f (xs ++ x ∷ []) ≡ total f xs + f x
unfolding total
total-append f [] x = omega arith
total-append f (y ∷ xs) x = omega (arith, total-append f xs x)
