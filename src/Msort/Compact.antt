-- ===== src/Msort/Compact.antt =====
-- internal/util/msort/msort.go: the loop of `uniqueBy` against a fold that keeps one element for
-- each key.
use mathlib.Core.Option
use cdc_sink.Base.{
  ℕ, zero, suc, ◌≡◌, refl, ap, true, false, Option, none, some, List, [], ◌∷◌, get_elem?, set,
  Comparable, ◌==◌, arith, if◌then◌else◌,
}

module _ {ℓ κ} {C : Type κ} {E : Type ℓ} ⦃e : Comparable C⦄ (key : E → C) where
  -- The place of the first element with a key.
  unfoldable pub index_of : C → List E → Option ℕ
  index_of k [] = none
  index_of k (y ∷ ys) = if key y == k then some 0 else Option.map suc (index_of k ys)

  -- The first element with a key.
  unfoldable pub find : C → List E → Option E
  find k [] = none
  find k (y ∷ ys) = if key y == k then some y else find k ys

  -- No two elements have one key.
  abbrev pub HasDistinctKeys : List E → Type ℓ
  HasDistinctKeys [] = Unit
  HasDistinctKeys (y ∷ ys) = (find (key y) ys ≡ none) × HasDistinctKeys ys

  pub index_of-get :
      (k : C) (ys : List E) (j : ℕ)
      → index_of k ys ≡ some j
      → (y : E) × (get_elem? ys j ≡ some y) × (key y ≡ k) × (find k ys ≡ some y)
  unfolding index_of find
  index_of-get k [] j h = cc
  index_of-get k (y ∷ ys) zero h =
      let same : (key y == k) ≡ true = ground arith in
      (y, refl, (e.equals_iff (key y) k).0 same, rw same)
  index_of-get k (y ∷ ys) (suc j) h =
      let other : (key y == k) ≡ false = ground arith in
      let rest = index_of-get k ys j (ground arith) in (rest.0, rest.1, rest.2, rw other rest.3)

  pub index_of-set :
      (k : C) (ys : List E) (j : ℕ) (y v : E)
      → get_elem? ys j ≡ some y
      → key v ≡ key y
      → index_of k (set ys j v) ≡ index_of k ys
  unfolding index_of
  index_of-set k [] j y v h same = refl
  index_of-set k (x ∷ ys) zero y v h same = let here : x ≡ y = cc in rw (same, ← here) refl
  index_of-set k (x ∷ ys) (suc j) y v h same = rw (index_of-set k ys j y v h same)

module _ {ℓ} {E : Type ℓ} where
  unfoldable pub update_at : ℕ → (E → E) → List E → List E
  update_at j f [] = []
  update_at zero f (y ∷ ys) = f y ∷ ys
  update_at (suc j) f (y ∷ ys) = y ∷ update_at j f ys

  pub update_at-set :
      (j : ℕ) (f : E → E) (y : E) (ys : List E)
      → get_elem? ys j ≡ some y
      → update_at j f ys ≡ set ys j (f y)
  unfolding update_at
  update_at-set j f y [] h = refl
  update_at-set zero f y (z ∷ ys) h = let here : z ≡ y = cc in rw here refl
  update_at-set (suc j) f y (z ∷ ys) h = ap (◌∷◌ z) (update_at-set j f y ys h)

-- What the loop computes: from the back, each element is merged into the one kept for its key, or
-- put in front.
module _ {ℓ κ} {C : Type κ} {E : Type ℓ} ⦃e : Comparable C⦄ (key : E → C) (pick : E → E → E) where
  unfoldable pub absorb : E → List E → List E
  absorb x kept = elim (index_of key (key x) kept) [
    | some j ↦ update_at j (λ y. pick y x) kept
    | none ↦ x ∷ kept
  ]

  unfoldable pub compact : List E → List E
  compact [] = []
  compact (x ∷ xs) = absorb x (compact xs)

  pub absorb-fresh :
      (x : E) (kept : List E) → index_of key (key x) kept ≡ none → absorb x kept ≡ x ∷ kept
  unfolding absorb
  absorb-fresh x kept h = rw (h, absorb) refl

  pub absorb-seen :
      (x : E) (kept : List E) (j : ℕ)
      → index_of key (key x) kept ≡ some j
      → absorb x kept ≡ update_at j (λ y. pick y x) kept
  unfolding absorb
  absorb-seen x kept j h = rw (h, absorb) refl
