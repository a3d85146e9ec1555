-- ===== src/Crep.antt =====
-- internal/util/crep/equal.go: the comparison of values by their canonical representations, which are
-- JSON-like. A map of Go is the list of its entries in the order in which a loop visits them.
pub mod Tests
use cdc_sink.Base.{
  ℕ, zero, suc, Bool, true, false, not, ◌&&◌, Option, none, some, List, [], ◌∷◌, eqb, ◌==◌, list_eq,
  nat_eq, if◌then◌else◌,
}
use cdc_sink.Ident.{Text}

-- `Value`, `[]Value` and `map[string]Value`.
mutual
  pub data Value : Type 0 where
    nil : Value
    bool : Bool → Value
    string : Text → Value
    array : Values → Value
    object : Fields → Value

  pub data Values : Type 0 where
    end : Values
    item : Value → Values → Values

  pub data Fields : Type 0 where
    empty : Fields
    field : Text → Value → Fields → Fields

unfoldable pub size : Fields → ℕ
size empty = 0
size (field k v m) = suc (size m)

unfoldable pub lookup : Text → Fields → Option Value
lookup key empty = none
lookup key (field k v m) = if k == key then some v else lookup key m

unfoldable pub count : Values → ℕ
count end = 0
count (item v vs) = suc (count vs)

-- The type assertions on the second value.
abbrev pub is_nil : Value → Bool
is_nil nil = true
is_nil (bool y) = false
is_nil (string y) = false
is_nil (array ys) = false
is_nil (object n) = false

abbrev pub as_bool : Value → Option Bool
as_bool nil = none
as_bool (bool y) = some y
as_bool (string y) = none
as_bool (array ys) = none
as_bool (object n) = none

abbrev pub as_string : Value → Option Text
as_string nil = none
as_string (bool y) = none
as_string (string y) = some y
as_string (array ys) = none
as_string (object n) = none

abbrev pub as_array : Value → Option Values
as_array nil = none
as_array (bool y) = none
as_array (string y) = none
as_array (array ys) = some ys
as_array (object n) = none

abbrev pub as_object : Value → Option Fields
as_object nil = none
as_object (bool y) = none
as_object (string y) = none
as_object (array ys) = none
as_object (object n) = some n

-- `equal`, with its loop over a slice, of which the lengths have been compared, and that over a map.
unfoldable mutual
  unfolding size count lookup

  pub equal : Value → Value → Bool
  equal nil b = is_nil b
  equal (bool x) b = elim (as_bool b) [ none ↦ false | some y ↦ if x then y else not y ]
  equal (string x) b = elim (as_string b) [ none ↦ false | some y ↦ x == y ]
  equal (array xs) b = elim (as_array b) [
    | none ↦ false
    | some ys ↦ let rest = equal_values xs ys in if eqb (count xs) (count ys) then rest else false
  ]
  equal (object m) b = elim (as_object b) [
    | none ↦ false
    | some n ↦ let rest = equal_fields m n in if eqb (size m) (size n) then rest else false
  ]

  pub equal_values : Values → Values → Bool
  equal_values end ys = true
  equal_values (item x xs) end = false
  equal_values (item x xs) (item y ys) = equal x y && equal_values xs ys

  pub equal_fields : Fields → Fields → Bool
  equal_fields empty n = true
  equal_fields (field key x m) n = elim (lookup key n) [
    | none ↦ false
    | some y ↦ equal x y && equal_fields m n
  ]

-- `Equal`, for `Canonical` as an argument; none is an error.
unfoldable pub crep_equal : {A : Type 0} → (A → Option Value) → A → A → Option Bool
unfolding equal
crep_equal canonical a b = elim (canonical a) [
  | none ↦ none
  | some x ↦ elim (canonical b) [ none ↦ none | some y ↦ some (equal x y) ]
]
