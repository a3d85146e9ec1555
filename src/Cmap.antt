-- ===== src/Cmap.antt =====
-- internal/util/cmap: maps by a canonical form of the key. The table of Go is a list of its entries in
-- the order in which `Range` happens to visit them.
pub mod Laws
pub mod Equality
pub mod Tests
use cdc_sink.Base.{
  ℕ, zero, suc, ◌≡◌, Bool, true, false, ◌&&◌, Option, none, some, List, [], ◌∷◌, ◌++◌, length, eqb,
  Comparable, ◌==◌, if◌then◌else◌,
}

pub record Entry {ℓ κ} (K : Type ℓ) (V : Type κ) : Type (ℓ ⊔ κ) where
  pub key : K
  pub value : V

abbrev pub value_of {ℓ κ} : {K : Type ℓ} {V : Type κ} → Option (Entry K V) → Option V
value_of none = none
value_of (some e) = some e.value

module _ {ℓ κ ν} {K : Type ℓ} {C : Type κ} {V : Type ν} ⦃c : Comparable C⦄ where
  -- The built-in operations of Go on `map[C]*Entry[K, V]`.
  unfoldable pub find : C → List (C × Entry K V) → Option (Entry K V)
  find k [] = none
  find k ((j, e) ∷ m) = if j == k then some e else find k m

  unfoldable pub store : C → Entry K V → List (C × Entry K V) → List (C × Entry K V)
  store k new [] = (k, new) ∷ []
  store k new ((j, e) ∷ m) = if j == k then (j, new) ∷ m else (j, e) ∷ store k new m

  unfoldable pub erase : C → List (C × Entry K V) → List (C × Entry K V)
  erase k [] = []
  erase k ((j, e) ∷ m) = let rest = erase k m in if j == k then rest else (j, e) ∷ rest

-- `Map`, by way of its one implementation `impl`.
abbrev pub Cmap {ℓ κ ν} : Type ℓ → Type κ → Type ν → Type (ℓ ⊔ κ ⊔ ν)
Cmap K C V = List (C × Entry K V)

module _ {ℓ κ ν} {K : Type ℓ} {C : Type κ} {V : Type ν} ⦃c : Comparable C⦄ (mapper : K → C) where
  -- `Match` and `Get`, with none for false. `GetZero` has the zero value of V instead.
  unfoldable pub match_entry : K → Cmap K C V → Option (Entry K V)
  unfolding find
  match_entry key m = find (mapper key) m

  unfoldable pub get : K → Cmap K C V → Option V
  unfolding match_entry
  get key m = value_of (match_entry key m)

  unfoldable pub get_zero : V → K → Cmap K C V → V
  unfolding get
  get_zero zero_value key m = elim (get key m) [ none ↦ zero_value | some v ↦ v ]

  unfoldable pub put : K → V → Cmap K C V → Cmap K C V
  unfolding store
  put key value m = store (mapper key) (record { key = key; value = value }) m

  unfoldable pub delete : K → Cmap K C V → Cmap K C V
  unfolding erase
  delete key m = erase (mapper key) m

-- `Range` with a callback that changes a state and may return an error.
unfoldable pub range {ℓ κ ν μ} :
    {K : Type ℓ} {C : Type κ} {V : Type ν} {S : Type μ} {F : Type μ}
    → (K → V → S → S × Option F)
    → Cmap K C V
    → S
    → S × Option F
range fn [] s = (s, none)
range fn ((k, e) ∷ m) s =
    let here = fn e.key e.value s in
    let rest = range fn m here.0 in elim here.1 [ none ↦ rest | some error ↦ (here.0, some error) ]

unfoldable pub entries {ℓ κ ν} :
    {K : Type ℓ} {C : Type κ} {V : Type ν} → Cmap K C V → List (Entry K V)
entries [] = []
entries ((k, e) ∷ m) = e ∷ entries m

-- A variable of the type `Map`: nil, or the address of a map, with what it holds.
abbrev pub MapRef {ℓ κ ν} : Type ℓ → Type κ → Type ν → Type (ℓ ⊔ κ ⊔ ν)
MapRef K C V = Option (ℕ × Cmap K C V)

-- `a == b` of two such variables.
unfoldable pub same_ref {ℓ κ ν} :
    {K : Type ℓ} {C : Type κ} {V : Type ν} → MapRef K C V → MapRef K C V → Bool
same_ref none none = true
same_ref none (some (q, n)) = false
same_ref (some (p, m)) none = false
same_ref (some (p, m)) (some (q, n)) = eqb p q

module _ {ℓ κ ν} {K : Type ℓ} {C : Type κ} {V : Type ν} ⦃c : Comparable C⦄ (mapper : K → C) where
  -- `CopyInto` with a destination of the same kind.
  unfoldable pub copy_into : Cmap K C V → Cmap K C V → Cmap K C V
  unfolding put
  copy_into [] dest = dest
  copy_into ((k, e) ∷ m) dest = copy_into m (put mapper e.key e.value dest)

  -- The callback of `Equal`, for each entry of the first map; an error ends the loop.
  unfoldable pub all_equal : (V → V → Bool) → Cmap K C V → Cmap K C V → Bool
  unfolding get
  all_equal comparator [] b = true
  all_equal comparator ((k, e) ∷ a) b = elim (get mapper e.key b) [
    | none ↦ false
    | some v ↦ comparator e.value v && all_equal comparator a b
  ]

  -- The part of `Equal` that looks into the maps.
  unfoldable pub equal_entries : Cmap K C V → Cmap K C V → (V → V → Bool) → Bool
  unfolding all_equal
  equal_entries a b comparator =
      let same = all_equal comparator a b in if eqb (length a) (length b) then same else false

  unfoldable pub equal : MapRef K C V → MapRef K C V → (V → V → Bool) → Bool
  unfolding same_ref equal_entries
  equal a b comparator = if same_ref a b then true else elim a [
    | none ↦ false
    | some (p, m) ↦ elim b [ none ↦ false | some (q, n) ↦ equal_entries m n comparator ]
  ]
