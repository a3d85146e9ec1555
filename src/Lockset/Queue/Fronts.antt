-- ===== src/Lockset/Queue/Fronts.antt =====
-- internal/util/lockset/queue.go: the queue of a key as an ascending list of addresses, and how
-- many of the keys of a waiter have it in front.
use cdc_sink.Base.{
  is_seen, HasDistinct, ℕ, suc, ◌≤◌, ◌<◌, ◌≡◌, ◌≢◌, refl, sym, ap, ◌∙◌, ◌↔◌, inl, inr, Bool, true,
  false, List, [], ◌∷◌, length, All, Comparable, eqb, eqb_iff, arith, Bool-cases, if◌then◌else◌,
}
use cdc_sink.Lockset.Queue.{index_in, remove_at}
use cdc_sink.Lockset.Queue.Dedup.{IsIn, All-IsIn, is_seen-IsIn}

-- Every address is below the next ones: the waiters stand in the order in which they came.
abbrev pub Ascends : List ℕ → Type 0
Ascends [] = Unit
Ascends (e ∷ entries) = All (λ f. e < f) entries × Ascends entries

-- The queue without the waiter.
abbrev pub without : ℕ → List ℕ → List ℕ
without w [] = []
without w (e ∷ entries) = let rest = without w entries in if eqb e w then entries else e ∷ rest

abbrev pub is_front : ℕ → List ℕ → Bool
is_front i [] = false
is_front i (e ∷ entries) = eqb e i

without-All :
    (P : ℕ → Type 0) (w : ℕ) (entries : List ℕ) → All P entries → All P (without w entries)
without-All P w [] all = tt
without-All P w (e ∷ entries) all = elim (Bool-cases (eqb e w)) [
  | inl same ↦ rw same all.1
  | inr other ↦ rw other (all.0, without-All P w entries all.1)
]

pub without-Ascends : (w : ℕ) (entries : List ℕ) → Ascends entries → Ascends (without w entries)
without-Ascends w [] asc = tt
without-Ascends w (e ∷ entries) asc = elim (Bool-cases (eqb e w)) [
  | inl same ↦ rw same asc.1
  | inr other ↦ rw other (without-All (λ f. e < f) w entries asc.0, without-Ascends w entries asc.1)
]

pub IsIn-without :
    (i w : ℕ) (entries : List ℕ)
    → Ascends entries
    → IsIn i (without w entries) ↔ (IsIn i entries × (i ≢ w))
IsIn-without i w [] asc = (λ p. absurd p, λ p. absurd p.0)
IsIn-without i w (e ∷ entries) asc = elim (Bool-cases (eqb e w)) [
  | inl same ↦
      let here : e ≡ w = (eqb_iff e w).0 same in
      let later : IsIn i entries → i ≢ w =
        λ p q. let past = All-IsIn (λ f. e < f) i entries asc.0 p in omega (arith, past, q, here) in
      rw same
        (λ p. (inr p, later p), λ p. elim p.0 [ inl q ↦ absurd (p.1 (sym q ∙ here)) | inr q ↦ q ])
  | inr other ↦
      let rest = IsIn-without i w entries asc.1 in
      rw other (
        λ p. elim p [
          | inl q ↦ (inl q, λ r. ground (arith, other, (eqb_iff e w).1 (q ∙ r)))
          | inr q ↦ (inr ((rest.0 q).0), (rest.0 q).1)
        ],
        λ p. elim p.0 [ inl q ↦ inl q | inr q ↦ inr (rest.1 (q, p.1)) ],
      )
]

-- The search of `Dequeue` finds a waiter that is there, and the slice loses it.
pub index_in-without :
    (w : ℕ) (entries : List ℕ)
    → IsIn w entries
    → (index_in w entries < length entries)
      × (remove_at (index_in w entries) entries ≡ without w entries)
unfolding index_in remove_at
index_in-without w [] there = absurd there
index_in-without w (e ∷ []) (inl here) =
    let same = (eqb_iff e w).1 here in (omega arith, rw same refl)
index_in-without w (e ∷ []) (inr later) = absurd later
index_in-without w (e ∷ f ∷ entries) there = elim (Bool-cases (eqb e w)) [
  | inl same ↦ rw same (omega arith, refl)
  | inr other ↦
      let later : IsIn w (f ∷ entries) = elim there [
        | inl p ↦ absurd (ground (arith, other, (eqb_iff e w).1 p))
        | inr p ↦ p
      ] in
      let rest = index_in-without w (f ∷ entries) later in
      rw other (omega (arith, rest.0), ap (◌∷◌ e) rest.1)
]

-- Just the front of a queue has the index 0.
pub index_in-front :
    (w : ℕ) (entries : List ℕ)
    → IsIn w entries
    → (eqb (index_in w entries) 0 ≡ true) ↔ (is_front w entries ≡ true)
unfolding index_in
index_in-front w [] there = absurd there
index_in-front w (e ∷ []) (inl here) = (λ p. (eqb_iff e w).1 here, λ p. refl)
index_in-front w (e ∷ []) (inr later) = absurd later
index_in-front w (e ∷ f ∷ entries) there = elim (Bool-cases (eqb e w)) [
  | inl same ↦ rw same (λ p. refl, λ p. refl)
  | inr other ↦ rw other (λ p. ground (arith, p), λ p. ground (arith, p))
]

module _ {K : Type 0} where
  -- How many of the keys have the waiter in front of their queue.
  abbrev pub fronts : ℕ → (K → List ℕ) → List K → ℕ
  fronts i queue [] = 0
  fronts i queue (k ∷ keys) =
      let rest = fronts i queue keys in if is_front i (queue k) then suc rest else rest

  -- The waiter is in front of the queue of every key.
  abbrev pub IsFirst : ℕ → (K → List ℕ) → List K → Type 0
  IsFirst i queue keys = All (λ k. is_front i (queue k) ≡ true) keys

  pub fronts-IsFirst :
      (i : ℕ) (queue : K → List ℕ) (keys : List K)
      → (fronts i queue keys ≤ length keys)
        × ((fronts i queue keys ≡ length keys) ↔ IsFirst i queue keys)
  fronts-IsFirst i queue [] = (omega arith, (λ p. tt, λ p. refl))
  fronts-IsFirst i queue (k ∷ keys) = let rest = fronts-IsFirst i queue keys in ground (arith, rest)

  pub fronts-same :
      (i : ℕ) (old new : K → List ℕ) (keys : List K)
      → ((k : K) → IsIn k keys → is_front i (new k) ≡ is_front i (old k))
      → fronts i new keys ≡ fronts i old keys
  fronts-same i old new [] each = refl
  fronts-same i old new (k ∷ keys) each =
      let rest = fronts-same i old new keys (λ j p. each j (inr p)) in
      let here = each k (inl refl) in ground (arith, rest, here)

  pub IsFirst-same :
      (i : ℕ) (old new : K → List ℕ) (keys : List K)
      → ((k : K) → is_front i (new k) ≡ is_front i (old k))
      → IsFirst i new keys ↔ IsFirst i old keys
  IsFirst-same i old new [] each = (λ p. tt, λ p. tt)
  IsFirst-same i old new (k ∷ keys) each =
      let rest = IsFirst-same i old new keys each in
      let here = each k in (λ p. (sym here ∙ p.0, rest.0 p.1), λ p. (here ∙ p.0, rest.1 p.1))

module _ {K : Type 0} ⦃c : Comparable K⦄ where
  -- A waiter that comes to the front of one more queue has one more front.
  pub fronts-gain :
      (i : ℕ) (old new : K → List ℕ) (keys : List K) (k : K)
      → HasDistinct keys
      → IsIn k keys
      → is_front i (old k) ≡ false
      → is_front i (new k) ≡ true
      → ((j : K) → j ≢ k → new j ≡ old j)
      → fronts i new keys ≡ suc (fronts i old keys)
  fronts-gain i old new [] k distinct there before after others = absurd there
  fronts-gain i old new (j ∷ keys) k distinct (inl here) before after others =
      let gone : (l : K) → IsIn l keys → l ≢ k = λ l p q.
        let seen = (is_seen-IsIn l keys).1 p in
        let not_seen : is_seen l keys ≡ false =
          ap (λ x. is_seen x keys) (q ∙ sym here) ∙ distinct.0 in
        ground (arith, seen, not_seen) in
      let rest = fronts-same i old new keys (λ l p. ap (is_front i) (others l (gone l p))) in
      let was : is_front i (old j) ≡ false = ap (λ x. is_front i (old x)) here ∙ before in
      let is : is_front i (new j) ≡ true = ap (λ x. is_front i (new x)) here ∙ after in
      ground (arith, rest, was, is)
  fronts-gain i old new (j ∷ keys) k distinct (inr later) before after others =
      let rest = fronts-gain i old new keys k distinct.1 later before after others in
      let away : j ≢ k = λ q.
        let seen = (is_seen-IsIn k keys).1 later in
        let not_seen : is_seen k keys ≡ false = ap (λ x. is_seen x keys) (sym q) ∙ distinct.0 in
        ground (arith, seen, not_seen) in
      let same : is_front i (new j) ≡ is_front i (old j) = ap (is_front i) (others j away) in
      ground (arith, rest, same)
