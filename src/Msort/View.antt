-- ===== src/Msort/View.antt =====
-- internal/util/msort/msort.go: what the fold of `uniqueBy` keeps for each key.
use cdc_sink.Base.{
  ℕ, zero, suc, ◌≡◌, refl, ap, sym, ◌∙◌, false, Option, none, some, List, [], ◌∷◌, set, Comparable,
  ◌==◌, arith, Option-cases, inl, inr, if◌then◌else◌, Bool-cases, nat_eq, list_eq, subst,
}
use cdc_sink.Msort.Compact.{
  index_of, find, HasDistinctKeys, index_of-get, absorb, compact, update_at-set, absorb-fresh,
  absorb-seen,
}

module _ {ℓ κ} {C : Type κ} {E : Type ℓ} ⦃e : Comparable C⦄ (key : E → C) where
  find-of-index : (k : C) (ys : List E) → index_of key k ys ≡ none → find key k ys ≡ none
  unfolding index_of find
  find-of-index k [] h = refl
  find-of-index k (y ∷ ys) h = ground (arith, find-of-index k ys)

  -- Replacing the element of a key changes what is found for that key alone.
  find-update :
      (k x : C) (ys : List E) (j : ℕ) (v : E)
      → index_of key x ys ≡ some j
      → key v ≡ x
      → find key k (set ys j v) ≡ (if key v == k then some v else find key k ys)
  unfolding index_of find
  find-update k x [] j v h same = cc
  find-update k x (y ∷ ys) zero v h same =
      ground (arith, e.equals_iff (key y) x, e.equals_iff (key v) k, e.equals_iff (key y) k)
  find-update k x (y ∷ ys) (suc j) v h same = ground (
    arith,
    e.equals_iff (key y) x,
    e.equals_iff (key v) k,
    e.equals_iff (key y) k,
    find-update k x ys j v,
  )

  set-HasDistinctKeys :
      (x : C) (ys : List E) (j : ℕ) (v : E)
      → index_of key x ys ≡ some j
      → key v ≡ x
      → HasDistinctKeys key ys
      → HasDistinctKeys key (set ys j v)
  set-HasDistinctKeys x [] j v h same d = d
  set-HasDistinctKeys x (y ∷ ys) zero v h same d =
      let (z, here, kz, _) = index_of-get key x (y ∷ ys) 0 h in
      let first : y ≡ z = cc in
      let old : key y ≡ key v = ap key first ∙ kz ∙ sym same in
      (subst (λ k. find key k ys ≡ none) old d.0, d.1)
  set-HasDistinctKeys x (y ∷ ys) (suc j) v h same d =
      let inner : index_of key x ys ≡ some j = unfold index_of in ground arith in
      let other : (key v == key y) ≡ false =
        unfold index_of in ground (arith, e.equals_iff (key y) x, e.equals_iff (key v) (key y)) in
      (
        rw (find-update (key y) x ys j v inner same, other) d.0,
        set-HasDistinctKeys x ys j v inner same d.1,
      )

module _ {ℓ} {E : Type ℓ} (pick : E → E → E) where
  -- An element that came before the one kept for its key.
  unfoldable pub merge : E → Option E → E
  merge x none = x
  merge x (some y) = pick y x

module _ {ℓ κ} {C : Type κ} {E : Type ℓ} ⦃e : Comparable C⦄ (key : E → C) (pick : E → E → E) where
  -- What one key sees of the slice: its elements, from the back.
  unfoldable pub view : C → List E → Option E
  view k [] = none
  view k (x ∷ xs) = let rest = view k xs in if key x == k then some (merge pick x rest) else rest

module _ {ℓ κ} {C : Type κ} {E : Type ℓ} ⦃e : Comparable C⦄ (key : E → C) (pick : E → E → E)
    (pick_keeps : (a b : E) → key a ≡ key b → key (pick a b) ≡ key a) where
  module _ (x : E) (kept : List E) (d : HasDistinctKeys key kept) where
    absorb-HasDistinctKeys : HasDistinctKeys key (absorb key pick x kept)
    absorb-HasDistinctKeys = elim (Option-cases (index_of key (key x) kept)) [
      | inl fresh ↦
          rw (absorb-fresh key pick x kept fresh) (find-of-index key (key x) kept fresh, d)
      | inr (j, seen) ↦
          let (y, at_j, same, _) = index_of-get key (key x) kept j seen in
          rw (absorb-seen key pick x kept j seen, update_at-set j (λ y'. pick y' x) y kept at_j)
            (set-HasDistinctKeys key (key x) kept j (pick y x) seen (pick_keeps y x same ∙ same) d)
    ]

    find-absorb :
        (k : C)
        → find key k (absorb key pick x kept)
          ≡ (if key x == k then some (merge pick x (find key k kept)) else find key k kept)
    find-absorb k = elim (Option-cases (index_of key (key x) kept)) [
      | inl fresh ↦
          let gone = find-of-index key (key x) kept fresh in
          rw (absorb-fresh key pick x kept fresh) (
            unfold find merge in
            elim (Bool-cases (key x == k)) [
              | inl p ↦
                  let at_k =
                    subst (λ k'. find key k' kept ≡ none) ((e.equals_iff (key x) k).0 p) gone in
                  rw (p, at_k) refl
              | inr p ↦ rw p refl
            ])
      | inr (j, seen) ↦
          let (y, at_j, same, there) = index_of-get key (key x) kept j seen in
          let kv = pick_keeps y x same ∙ same in
          rw
            (
              absorb-seen key pick x kept j seen,
              update_at-set j (λ y'. pick y' x) y kept at_j,
              find-update key k (key x) kept j (pick y x) seen kv,
              kv,
            )
            (unfold merge in
              elim (Bool-cases (key x == k)) [
                | inl p ↦
                    let at_k =
                      subst (λ k'. find key k' kept ≡ some y) ((e.equals_iff (key x) k).0 p)
                        there in
                    rw (p, at_k) refl
                | inr p ↦ rw p refl
              ])
    ]

  -- The fold keeps one element for each key, what the key sees.
  pub compact-HasDistinctKeys : (xs : List E) → HasDistinctKeys key (compact key pick xs)
  unfolding compact
  compact-HasDistinctKeys [] = tt
  compact-HasDistinctKeys (x ∷ xs) =
      absorb-HasDistinctKeys x (compact key pick xs) (compact-HasDistinctKeys xs)

  pub find-compact : (k : C) (xs : List E) → find key k (compact key pick xs) ≡ view key pick k xs
  unfolding compact view
  find-compact k [] = unfold find in refl
  find-compact k (x ∷ xs) =
      find-absorb x (compact key pick xs) (compact-HasDistinctKeys xs) k
      ∙ rw (find-compact k xs) refl
