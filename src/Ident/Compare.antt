-- ===== src/Ident/Compare.antt =====
-- internal/util/ident: canonical forms and comparison. `strings.ToLower` goes by the tables of Unicode,
-- and is an argument.
use cdc_sink.Base.{
  ℕ, zero, suc, Bool, true, false, ◌&&◌, ◌||◌, Option, none, some, List, [], ◌∷◌, length, leb, eqb,
  nat_eq, list_eq, ◌==◌, if◌then◌else◌,
}
use cdc_sink.Base.Int.{ℤ, pos, negsuc, int_eq, ltb_ℤ}
use cdc_sink.Ident.{
  Text, Ident, ArrayKey, Schema, Table, Identifier, ident, schema, table, atom_raw, empty, split,
  compare_text, idents,
}

-- The test of the loop for one side, where none is a nil interface.
unfoldable pub is_blank : Option Identifier → Bool
unfolding empty
is_blank none = true
is_blank (some i) = empty i

-- The end of `Compare`.
unfoldable pub compare_ends : Option Identifier → Option Identifier → ℤ
unfolding is_blank
compare_ends a b = if is_blank a then (if is_blank b then pos 0 else negsuc 0) else pos 1

module _ (to_lower : Text → Text) where
  -- `Canonical`, and the field `lowered`.
  unfoldable pub canonical_ident : Ident → Ident
  canonical_ident none = none
  canonical_ident (some raw) = some (to_lower raw)

  -- The loop over the key stops at a nil.
  unfoldable pub lowered_key : ArrayKey → ArrayKey
  unfolding canonical_ident
  lowered_key key = elim key.first [
    | none ↦ record { first = none; second = none }
    | some a ↦ record { first = some (to_lower a); second = canonical_ident key.second }
  ]

  unfoldable pub canonical_schema : Schema → Schema
  unfolding lowered_key
  canonical_schema none = none
  canonical_schema (some key) = some (lowered_key key)

  unfoldable pub canonical_table : Table → Table
  unfolding canonical_schema canonical_ident
  canonical_table none = none
  canonical_table (some q) =
      some
        (record { namespace = canonical_schema q.namespace; terminal = canonical_ident q.terminal })

  unfoldable pub compare_parts : Ident → Ident → ℤ
  unfolding canonical_ident atom_raw compare_text
  compare_parts a b = compare_text (atom_raw (canonical_ident a)) (atom_raw (canonical_ident b))

  -- The loop of `Compare`; none is the panic of `Split`, or lack of fuel.
  unfoldable pub compare_loop : ℕ → Option Identifier → Option Identifier → Option ℤ
  unfolding is_blank compare_ends compare_parts split
  compare_loop zero a b = none
  compare_loop (suc fuel) none b = some (compare_ends none b)
  compare_loop (suc fuel) (some x) none = some (compare_ends (some x) none)
  compare_loop (suc fuel) (some x) (some y) =
      let further : Option ℤ = elim (split x) [
        | none ↦ none
        | some (part, rest) ↦ elim (split y) [
          | none ↦ none
          | some (part', rest') ↦
              let order = compare_parts part part' in
              if order == pos 0 then compare_loop fuel (some rest) (some rest') else some order
        ]
      ] in
      if is_blank (some x) || is_blank (some y)
      then some (compare_ends (some x) (some y))
      else further

  -- An identifier has at most three parts.
  unfoldable pub compare : Option Identifier → Option Identifier → Option ℤ
  unfolding compare_loop
  compare a b = compare_loop 4 a b

  unfoldable pub equal : Option Identifier → Option Identifier → Bool
  unfolding compare
  equal a b = elim (compare a b) [ none ↦ false | some order ↦ order == pos 0 ]

  -- `Idents.Equal`.
  unfoldable pub idents_equal : List Ident → List Ident → Bool
  unfolding equal
  idents_equal [] [] = true
  idents_equal [] (b ∷ o) = false
  idents_equal (a ∷ n) [] = false
  idents_equal (a ∷ n) (b ∷ o) = equal (some (ident a)) (some (ident b)) && idents_equal n o

  -- `Idents.Less`, by the two elements.
  unfoldable pub idents_less : Ident → Ident → Bool
  unfolding compare
  idents_less a b = elim (compare (some (ident a)) (some (ident b))) [
    | none ↦ false
    | some order ↦ ltb_ℤ order (pos 0)
  ]

  -- The loop of `Contains` over the parts of the schema.
  unfoldable pub is_prefix : List Ident → List Ident → Bool
  unfolding equal
  is_prefix [] parts = true
  is_prefix (s ∷ rest) [] = false
  is_prefix (s ∷ rest) (t ∷ parts) = equal (some (ident s)) (some (ident t)) && is_prefix rest parts

  unfoldable pub contains : Schema → Table → Bool
  unfolding is_prefix idents
  contains s t =
      let s_parts = idents (schema s) [] in
      let t_parts = idents (table t) [] in
      if eqb (length s_parts) 0
      then false
      else if leb (length t_parts) (length s_parts)
      then false
      else is_prefix s_parts t_parts
