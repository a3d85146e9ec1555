-- ===== src/Base/Equality.antt =====
-- Go's `==` on a comparable type, as an instance.
use mathlib.Core.Path.{◌≡◌, refl}
use mathlib.Core.Logic.{◌≢◌, ◌↔◌, inl, inr}
use mathlib.Core.Bool.{Bool, true, false, ◌&&◌}
use mathlib.Core.Option.{Option, none, some}
use mathlib.Core.List.{List, [], ◌∷◌}
use Prim.Native.Nat.{ℕ}
use native.Mathlib.Omega.{arith}
use cdc_sink.Base.Tests.{eqb, eqb_iff, Bool-cases, if◌then◌else◌}

-- A comparable type of Go: its `==` finds out whether two values are the same.
pub record Comparable {κ} (C : Type κ) : Type κ where
  pub equals : C → C → Bool
  pub equals_iff : (x y : C) → (equals x y ≡ true) ↔ (x ≡ y)

infix 40 ◌==◌
abbrev pub ◌==◌ {κ} : {C : Type κ} ⦃comparable : Comparable C⦄ (x y : C) → Bool
◌==◌ ⦃comparable⦄ x y = comparable.equals x y

pub ==_refl {ℓ} : {A : Type ℓ} ⦃e : Comparable A⦄ (a : A) → (a == a) ≡ true
==_refl ⦃e⦄ a = (e.equals_iff a a).1 refl

pub equals-false {κ} : {C : Type κ} ⦃comparable : Comparable C⦄ (j k : C) → j ≢ k → (j == k) ≡ false
equals-false ⦃comparable = e⦄ j k ne = elim (Bool-cases (j == k)) [
  | inl same ↦ absurd (ne ((e.equals_iff j k).0 same))
  | inr other ↦ other
]

instance abbrev pub nat_eq : Comparable ℕ
nat_eq = record { equals = eqb; equals_iff = eqb_iff }

-- Equality of byte strings and other lists, element by element.
unfoldable pub list_beq {ℓ} : {A : Type ℓ} ⦃e : Comparable A⦄ → List A → List A → Bool
list_beq [] [] = true
list_beq (x ∷ xs) (y ∷ ys) = x == y && list_beq xs ys
list_beq xs ys = false

pub list_beq_iff {ℓ} :
    {A : Type ℓ} ⦃e : Comparable A⦄ (xs ys : List A) → (list_beq xs ys ≡ true) ↔ (xs ≡ ys)
unfolding list_beq
list_beq_iff [] [] = ground arith
list_beq_iff ⦃e⦄ (x ∷ xs) (y ∷ ys) = ground (arith, e.equals_iff x y, list_beq_iff xs ys)
list_beq_iff [] (y ∷ ys) = ground arith
list_beq_iff (x ∷ xs) [] = ground arith

instance abbrev pub list_eq {ℓ} : {A : Type ℓ} ⦃e : Comparable A⦄ → Comparable (List A)
list_eq = record { equals = list_beq; equals_iff = list_beq_iff }

-- Membership in a list, as a test.
unfoldable pub is_seen {κ} : {C : Type κ} ⦃comparable : Comparable C⦄ → C → List C → Bool
is_seen key [] = false
is_seen key (k ∷ seen) = if k == key then true else is_seen key seen

-- No element stands in the list twice.
abbrev pub HasDistinct {κ} : {C : Type κ} ⦃comparable : Comparable C⦄ → List C → Type 0
HasDistinct [] = Unit
HasDistinct (k ∷ keys) = (is_seen k keys ≡ false) × HasDistinct keys

abbrev pub option_beq {κ} : {C : Type κ} ⦃comparable : Comparable C⦄ → Option C → Option C → Bool
option_beq none none = true
option_beq none (some y) = false
option_beq (some x) none = false
option_beq (some x) (some y) = x == y

pub option_beq_iff {κ} :
    {C : Type κ} ⦃comparable : Comparable C⦄ (x y : Option C) → (option_beq x y ≡ true) ↔ (x ≡ y)
option_beq_iff none none = ground arith
option_beq_iff none (some y) = ground arith
option_beq_iff (some x) none = ground arith
option_beq_iff ⦃comparable = e⦄ (some x) (some y) = ground (arith, e.equals_iff x y)

instance abbrev pub option_eq {κ} : {C : Type κ} ⦃comparable : Comparable C⦄ → Comparable (Option C)
option_eq = record { equals = option_beq; equals_iff = option_beq_iff }
