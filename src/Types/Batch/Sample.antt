-- ===== src/Types/Batch/Sample.antt =====
-- A sort for concrete runs of the batches.
use cdc_sink.Base.{
  ℕ, ◌+◌, ◌≤◌, ◌≡◌, refl, ap, ◌∙◌, inl, inr, Bool, List, [], ◌∷◌, ltb, arith, Bool-cases, All,
  if◌then◌else◌,
}
use cdc_sink.Types.Batch.Index.{total, KeepsElements}
use cdc_sink.Types.Batch.Flattened.{KeepsSlices}
use cdc_sink.Types.Batch.Ordered.{IsSortedBy, SortsByPlace}

-- An insertion sort.
unfoldable pub insert_sorted : {A : Type 0} → (A → A → Bool) → A → List A → List A
insert_sorted less x [] = x ∷ []
insert_sorted less x (y ∷ ys) =
    let rest = insert_sorted less x ys in if less y x then y ∷ rest else x ∷ y ∷ ys

unfoldable pub sorted : {A : Type 0} → (A → A → Bool) → List A → List A
unfolding insert_sorted
sorted less [] = []
sorted less (x ∷ xs) = insert_sorted less x (sorted less xs)

total-insert_sorted :
    {A : Type 0} (less : A → A → Bool) (f : A → ℕ) (x : A) (ys : List A)
    → total f (insert_sorted less x ys) ≡ f x + total f ys
unfolding total insert_sorted
total-insert_sorted less f x [] = refl
total-insert_sorted less f x (y ∷ ys) = elim (Bool-cases (less y x)) [
  | inl after ↦ rw after (omega (arith, total-insert_sorted less f x ys))
  | inr before ↦ rw before refl
]

pub sorted-KeepsSlices : KeepsSlices (λ A. sorted)
unfolding total sorted
sorted-KeepsSlices A less [] f = refl
sorted-KeepsSlices A less (x ∷ xs) f =
    total-insert_sorted less f x (sorted less xs)
    ∙ ap (λ n. f x + n) (sorted-KeepsSlices A less xs f)

pub sorted-KeepsElements : KeepsElements sorted
sorted-KeepsElements less xs f = sorted-KeepsSlices ℕ less xs f

module _ (P : ℕ → Type 0) (less : ℕ → ℕ → Bool) where
  All-insert_sorted : (x : ℕ) (ys : List ℕ) → P x → All P ys → All P (insert_sorted less x ys)
  unfolding insert_sorted
  All-insert_sorted x [] px h = (px, tt)
  All-insert_sorted x (y ∷ ys) px h = elim (Bool-cases (less y x)) [
    | inl after ↦ rw after (h.0, All-insert_sorted x ys px h.1)
    | inr before ↦ rw before (px, h)
  ]

  All-sorted : (xs : List ℕ) → All P xs → All P (sorted less xs)
  unfolding sorted
  All-sorted [] h = tt
  All-sorted (x ∷ xs) h = All-insert_sorted x (sorted less xs) h.0 (All-sorted xs h.1)

module _ (less : ℕ → ℕ → Bool) (place : ℕ → ℕ) where
  All-le :
      (p q : ℕ) (ys : List ℕ)
      → place p ≤ place q
      → All (λ y. place q ≤ place y) ys
      → All (λ y. place p ≤ place y) ys
  All-le p q [] le h = tt
  All-le p q (y ∷ ys) le h = (omega (arith, le, h.0), All-le p q ys le h.1)

  insert_sorted-IsSortedBy :
      (x : ℕ) (ys : List ℕ)
      → All (λ y. less y x ≡ ltb (place y) (place x)) ys
      → IsSortedBy place ys
      → IsSortedBy place (insert_sorted less x ys)
  unfolding insert_sorted
  insert_sorted-IsSortedBy x [] agree h = (tt, tt)
  insert_sorted-IsSortedBy x (y ∷ ys) agree h = elim (Bool-cases (less y x)) [
    | inl after ↦
        let le : place y ≤ place x = ground (arith, after, agree.0) in
        rw after (
          All-insert_sorted (λ z. place y ≤ place z) less x ys le h.0,
          insert_sorted-IsSortedBy x ys agree.1 h.1,
        )
    | inr before ↦
        let le : place x ≤ place y = ground (arith, before, agree.0) in
        rw before ((le, All-le x y ys le h.0), h)
  ]

  -- The test that stands for an element in front of another, for the rest of a list.
  abbrev Agrees : List ℕ → ℕ → Type 0
  Agrees xs x = All (λ y. less x y ≡ ltb (place x) (place y)) xs

  Agrees-tail : (x : ℕ) (xs ys : List ℕ) → All (Agrees (x ∷ xs)) ys → All (Agrees xs) ys
  Agrees-tail x xs [] h = tt
  Agrees-tail x xs (y ∷ ys) h = (h.0.1, Agrees-tail x xs ys h.1)

  Agrees-head :
      (x : ℕ) (xs ys : List ℕ)
      → All (Agrees (x ∷ xs)) ys
      → All (λ y. less y x ≡ ltb (place y) (place x)) ys
  Agrees-head x xs [] h = tt
  Agrees-head x xs (y ∷ ys) h = (h.0.0, Agrees-head x xs ys h.1)

  sorted-IsSortedBy : (xs : List ℕ) → All (Agrees xs) xs → IsSortedBy place (sorted less xs)
  unfolding sorted
  sorted-IsSortedBy [] h = tt
  sorted-IsSortedBy (x ∷ xs) h =
      insert_sorted-IsSortedBy x (sorted less xs)
        (All-sorted (λ y. less y x ≡ ltb (place y) (place x)) less xs (Agrees-head x xs xs h.1))
        (sorted-IsSortedBy xs (Agrees-tail x xs xs h.1))

pub sorted-SortsByPlace : SortsByPlace sorted
sorted-SortsByPlace less xs place h = sorted-IsSortedBy less place xs h
