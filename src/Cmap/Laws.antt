-- ===== src/Cmap/Laws.antt =====
-- internal/util/cmap: what the operations of `Map` do to each key.
use cdc_sink.Base.{
  ◌+◌, ◌≡◌, refl, sym, ap, ◌∙◌, inl, inr, false, none, some, [], ◌∷◌, length, Comparable, ◌==◌,
  equals-false, arith, Bool-cases, if◌then◌else◌,
}
use cdc_sink.Cmap.{Entry, Cmap, value_of, find, store, erase, match_entry, get, put, delete}

module _ {ℓ κ ν} {K : Type ℓ} {C : Type κ} {V : Type ν} ⦃c : Comparable C⦄ where
  abbrev pub NodupKeys : Cmap K C V → Type (ℓ ⊔ ν)
  NodupKeys [] = Unit
  NodupKeys ((k, e) ∷ m) = (find k m ≡ none) × NodupKeys m

  pub find-store :
      (j k : C) (e : Entry K V) (m : Cmap K C V)
      → find k (store j e m) ≡ (if j == k then some e else find k m)
  unfolding find store
  find-store j k e [] = refl
  find-store j k e ((i, x) ∷ m) =
      ground (arith, c.equals_iff j k, c.equals_iff i k, c.equals_iff i j, find-store j k e m)

  pub find-erase :
      (j k : C) (m : Cmap K C V) → find k (erase j m) ≡ (if j == k then none else find k m)
  unfolding find erase
  find-erase j k [] = ground arith
  find-erase j k ((i, x) ∷ m) =
      ground (arith, c.equals_iff j k, c.equals_iff i k, c.equals_iff i j, find-erase j k m)

  pub store-NodupKeys :
      (j : C) (e : Entry K V) (m : Cmap K C V) → NodupKeys m → NodupKeys (store j e m)
  unfolding store find
  store-NodupKeys j e [] u = (refl, tt)
  store-NodupKeys j e ((i, x) ∷ m) u = elim (Bool-cases (i == j)) [
    | inl same ↦ rw same u
    | inr other ↦
        let back : (j == i) ≡ false =
          equals-false j i (λ p. ground (arith, other, (c.equals_iff i j).1 (sym p))) in
        rw other ((find-store j i e m ∙ rw back u.0), store-NodupKeys j e m u.1)
  ]

  pub erase-NodupKeys : (j : C) (m : Cmap K C V) → NodupKeys m → NodupKeys (erase j m)
  unfolding erase
  erase-NodupKeys j [] u = tt
  erase-NodupKeys j ((i, x) ∷ m) u = elim (Bool-cases (i == j)) [
    | inl same ↦ rw same (erase-NodupKeys j m u.1)
    | inr other ↦
        let back : (j == i) ≡ false =
          equals-false j i (λ p. ground (arith, other, (c.equals_iff i j).1 (sym p))) in
        rw other ((find-erase j i m ∙ rw back u.0), erase-NodupKeys j m u.1)
  ]

  -- A new key adds an entry, and one that is there does not.
  pub length-store :
      (j : C) (e : Entry K V) (m : Cmap K C V)
      → length (store j e m) ≡ (elim (find j m) [ none ↦ length m + 1 | some old ↦ length m ])
  unfolding store find
  length-store j e [] = omega arith
  length-store j e ((i, x) ∷ m) = ground (arith, length-store j e m)

  erase-absent : (j : C) (m : Cmap K C V) → find j m ≡ none → erase j m ≡ m
  unfolding erase find
  erase-absent j [] h = refl
  erase-absent j ((i, x) ∷ m) h = ground (arith, erase-absent j m)

  pub length-erase :
      (j : C) (e : Entry K V) (m : Cmap K C V)
      → NodupKeys m
      → find j m ≡ some e
      → length m ≡ length (erase j m) + 1
  unfolding erase find
  length-erase j e [] u h = cc
  length-erase j e ((i, x) ∷ m) u h = elim (Bool-cases (i == j)) [
    | inl same ↦
        let p : i ≡ j = (c.equals_iff i j).0 same in
        let gone = erase-absent j m (ap (λ k. find k m) (sym p) ∙ u.0) in
        rw (same, gone) (omega arith)
    | inr other ↦
        let rest = length-erase j e m u.1 (ground (arith, other, h)) in
        rw other (omega (arith, rest))
  ]

module _ {ℓ κ ν} {K : Type ℓ} {C : Type κ} {V : Type ν} ⦃c : Comparable C⦄ (mapper : K → C) where
  -- Every entry stands under the canonical form of its key, and each form stands once.
  abbrev pub AreCanonical : Cmap K C V → Type κ
  AreCanonical [] = Unit
  AreCanonical ((k, e) ∷ m) = (k ≡ mapper e.key) × AreCanonical m

  pub get-put :
      (key other : K) (v : V) (m : Cmap K C V)
      → get mapper other (put mapper key v m)
        ≡ (if mapper key == mapper other then some v else get mapper other m)
  unfolding get match_entry put
  get-put key other v m =
      ap value_of (find-store (mapper key) (mapper other) (record { key = key; value = v }) m)
      ∙ (elim (Bool-cases (mapper key == mapper other)) [
        | inl same ↦ rw same refl
        | inr differs ↦ rw differs refl
      ])

  pub get-delete :
      (key other : K) (m : Cmap K C V)
      → get mapper other (delete mapper key m)
        ≡ (if mapper key == mapper other then none else get mapper other m)
  unfolding get match_entry delete
  get-delete key other m =
      ap value_of (find-erase (mapper key) (mapper other) m)
      ∙ (elim (Bool-cases (mapper key == mapper other)) [
        | inl same ↦ rw same refl
        | inr differs ↦ rw differs refl
      ])
