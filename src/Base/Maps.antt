-- ===== src/Base/Maps.antt =====
-- Go maps as association lists: the first entry of a key is the one that counts.
use mathlib.Core.Path.{◌≡◌, refl, ap, sym, ◌∙◌}
use mathlib.Core.Logic.{◌≢◌, inl, inr}
use mathlib.Core.Bool.{false}
use mathlib.Core.Option.{Option, none, some}
use mathlib.Core.List.{List, [], ◌∷◌}
use native.Mathlib.Omega.{arith}
use cdc_sink.Base.Tests.{if◌then◌else◌, Bool-cases}
use cdc_sink.Base.Equality.{Comparable, ◌==◌, equals-false}

module _ {ℓ κ} {C : Type ℓ} {V : Type κ} ⦃e : Comparable C⦄ where
  unfoldable pub map_get : C → List (C × V) → Option V
  map_get k [] = none
  map_get k ((j, v) ∷ m) = if j == k then some v else map_get k m

  abbrev pub map_put : C → V → List (C × V) → List (C × V)
  map_put k v m = (k, v) ∷ m

  unfoldable pub map_delete : C → List (C × V) → List (C × V)
  map_delete k [] = []
  map_delete k ((j, v) ∷ m) = let rest = map_delete k m in if j == k then rest else (j, v) ∷ rest

  pub get-put_same : (k : C) (v : V) (m : List (C × V)) → map_get k (map_put k v m) ≡ some v
  unfolding map_get
  get-put_same k v m = rw ((e.equals_iff k k).1 refl) refl

  pub get-put_other :
      (j k : C) (v : V) (m : List (C × V)) → j ≢ k → map_get k (map_put j v m) ≡ map_get k m
  unfolding map_get
  get-put_other j k v m ne = rw (equals-false j k ne) refl

  pub get-delete_same : (k : C) (m : List (C × V)) → map_get k (map_delete k m) ≡ none
  unfolding map_get map_delete
  get-delete_same k [] = refl
  get-delete_same k ((j, v) ∷ m) = elim (Bool-cases (j == k)) [
    | inl same ↦ rw same (get-delete_same k m)
    | inr other ↦ rw (other, other) (get-delete_same k m)
  ]

  pub get-delete_other :
      (j k : C) (m : List (C × V)) → j ≢ k → map_get k (map_delete j m) ≡ map_get k m
  unfolding map_get map_delete
  get-delete_other j k [] ne = refl
  get-delete_other j k ((i, v) ∷ m) ne = elim (Bool-cases (i == j)) [
    | inl same ↦
        let there : i ≡ j = (e.equals_iff i j).0 same in
        let past : (i == k) ≡ false = equals-false i k (λ p. ne (sym there ∙ p)) in
        rw (same, past) (get-delete_other j k m ne)
    | inr other ↦ elim (Bool-cases (i == k)) [
      | inl hit ↦ rw (other, hit) refl
      | inr miss ↦ rw (other, miss) (get-delete_other j k m ne)
    ]
  ]

  pub get-delete :
      (j k : C) (m : List (C × V))
      → map_get k (map_delete j m) ≡ (if j == k then none else map_get k m)
  get-delete j k m = elim (Bool-cases (j == k)) [
    | inl same ↦
        let p : j ≡ k = (e.equals_iff j k).0 same in
        rw same (ap (λ i. map_get k (map_delete i m)) p ∙ get-delete_same k m)
    | inr differs ↦
        rw differs (get-delete_other j k m (λ p. ground (arith, differs, (e.equals_iff j k).1 p)))
  ]
