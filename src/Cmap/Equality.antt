-- ===== src/Cmap/Equality.antt =====
-- internal/util/cmap/equal.go: `Equal` visits the entries of one map only, and still compares both.
use cdc_sink.Base.{
  ℕ, ◌≡◌, refl, sym, ap, ◌∙◌, inl, inr, Bool, true, Option, none, some, [], ◌∷◌, Comparable, ◌==◌,
  ==_refl, Bool-cases,
}
use cdc_sink.Cmap.{Entry, Cmap, find, MapRef}
use cdc_sink.Cmap.Laws.{NodupKeys, AreCanonical}

module _ {ℓ κ ν} {K : Type ℓ} {C : Type κ} {V : Type ν} ⦃c : Comparable C⦄ where
  -- Each form of the first map is in the second.
  abbrev IsCovered : Cmap K C V → Cmap K C V → Type (ℓ ⊔ ν)
  IsCovered [] b = Unit
  IsCovered ((k, e) ∷ a) b = ((e' : Entry K V) × (find k b ≡ some e')) × IsCovered a b

module _ {ℓ κ ν} {K : Type ℓ} {C : Type κ} {V : Type ν} ⦃c : Comparable C⦄ where
  pub find-skip :
      (k j : C) (e x : Entry K V) (a : Cmap K C V)
      → find k a ≡ none
      → find j a ≡ some x
      → find j ((k, e) ∷ a) ≡ some x
  unfolding find
  find-skip k j e x a absent there = elim (Bool-cases (k == j)) [
    | inl same ↦
        let p : k ≡ j = (c.equals_iff k j).0 same in
        let gone : find j a ≡ none = ap (λ i. find i a) (sym p) ∙ absent in absurd (cc)
    | inr other ↦ rw other there
  ]

  pub find-head : (k : C) (e : Entry K V) (a : Cmap K C V) → find k ((k, e) ∷ a) ≡ some e
  unfolding find
  find-head k e a = rw (==_refl k) refl

module _ {ℓ κ ν} {K : Type ℓ} {C : Type κ} {V : Type ν} ⦃c : Comparable C⦄ (mapper : K → C)
    (comparator : V → V → Bool) where
  -- Both have no entry, or the comparator answers true.
  abbrev pub SameEntry : Option (Entry K V) → Option (Entry K V) → Type 0
  SameEntry none none = Unit
  SameEntry (some x) (some y) = comparator x.value y.value ≡ true
  SameEntry none (some y) = ⊥
  SameEntry (some x) none = ⊥

  -- Nil, or a map in which the entries stand under the canonical forms of their keys, each form once.
  abbrev pub IsMap : MapRef K C V → Type (ℓ ⊔ κ ⊔ ν)
  IsMap none = Unit
  IsMap (some (p, m)) = NodupKeys m × AreCanonical mapper m

  -- Both are nil, or both are the same map.
  abbrev pub IsOne : MapRef K C V → MapRef K C V → Type 0
  IsOne none none = Unit
  IsOne none (some (q, n)) = ⊥
  IsOne (some (p, m)) none = ⊥
  IsOne (some (p, m)) (some (q, n)) = p ≡ q

  -- Neither is nil, and each form has an entry in both maps, with values for which the comparator answers
  -- true, or in neither.
  abbrev pub SameEntries : MapRef K C V → MapRef K C V → Type (ℓ ⊔ κ ⊔ ν)
  SameEntries a b =
      (p : ℕ) × (m : Cmap K C V) × (q : ℕ) × (n : Cmap K C V) × (a ≡ some (p, m))
      × (b ≡ some (q, n))
      × ((k : C) → SameEntry (find k m) (find k n))
