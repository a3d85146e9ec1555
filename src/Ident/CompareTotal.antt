-- ===== src/Ident/CompareTotal.antt =====
-- internal/util/ident/compare.go: the loop of `Compare` ends, and `Split` does not panic in it.
use cdc_sink.Base.{
  ℕ, zero, suc, ◌-◌, ◌<◌, ◌≡◌, refl, ap, ◌∙◌, ◌⊎◌, inl, inr, true, ◌&&◌, ◌||◌, Option, none, some,
  [], ◌∷◌, Bool-cases, arith, ◌==◌,
}
use cdc_sink.Base.Int.{ℤ, pos, int_eq}
use cdc_sink.Ident.{
  Text, Ident, ArrayKey, Schema, QualifiedKey, Identifier, ident, schema, table, empty,
  empty_identifier, compare_text, atom_raw, split, split_qualified, shift_in, atom_empty,
  array_empty, qualified_empty,
}
use cdc_sink.Ident.Compare.{
  is_blank, compare_ends, compare_parts, compare_loop, compare, equal, canonical_ident,
}

-- A bound on the parts that `Split` takes off before the rest is blank.
abbrev size : Identifier → ℕ
size (ident a) = 1
size (schema none) = 1
size (schema (some key)) = elim key.second [ none ↦ 1 | some b ↦ 2 ]
size (table t) = 3

size_lt : (x : Identifier) → size x < 4
size_lt (ident a) = omega arith
size_lt (schema none) = omega arith
size_lt (schema (some key)) = ground arith
size_lt (table t) = omega arith

size_pos : (x : Identifier) → 0 < size x
size_pos (ident a) = omega arith
size_pos (schema none) = omega arith
size_pos (schema (some key)) = ground arith
size_pos (table t) = omega arith

-- The first part and a smaller remainder, or a blank one.
abbrev Splits : Identifier → Type 0
Splits x =
    (part : Ident) × (rest : Identifier) × (split x ≡ some (part, rest))
    × ((empty rest ≡ true) ⊎ (size rest < size x))

shift_in-size :
    (b terminal : Ident)
    → (next : ArrayKey) × (shift_in (record { first = b; second = none }) terminal ≡ some next)
      × (size (schema (some next)) < 3)
unfolding shift_in
shift_in-size none none = (record { first = none; second = none }, refl, omega arith)
shift_in-size none (some t) = (record { first = some t; second = none }, refl, omega arith)
shift_in-size (some b) none = (record { first = some b; second = none }, refl, omega arith)
shift_in-size (some b) (some t) = (record { first = some b; second = some t }, refl, omega arith)

split_namespace :
    (namespace : Schema) (terminal : Ident)
    → (part : Ident) × (rest : Identifier) × (split_qualified
          (record { namespace = namespace; terminal = terminal })
        ≡ some (part, rest))
      × ((empty rest ≡ true) ⊎ (size rest < 3))
unfolding split_qualified empty
split_namespace none terminal = (terminal, empty_identifier, refl, inl refl)
split_namespace (some key) terminal = elim (Bool-cases (array_empty (some key))) [
  | inl blank ↦ (terminal, empty_identifier, rw blank refl, inl refl)
  | inr filled ↦
      let (next, run, small) = shift_in-size key.second terminal in
      (key.first, schema (some next), rw (filled, run) refl, inr small)
]

split_table :
    (namespace : Schema) (terminal : Ident)
    → Splits (table (some (record { namespace = namespace; terminal = terminal })))
unfolding split
split_table namespace terminal =
    let q : QualifiedKey = record { namespace = namespace; terminal = terminal } in
    elim (Bool-cases (qualified_empty (some q))) [
      | inl blank ↦ (none, empty_identifier, rw blank refl, unfold empty in inl refl)
      | inr filled ↦
          let (part, rest, run, small) = split_namespace namespace terminal in
          (part, rest, rw filled run, small)
    ]

split_key :
    (first second : Ident) → Splits (schema (some (record { first = first; second = second })))
unfolding split empty
split_key first none = elim (Bool-cases (atom_empty first && atom_empty none)) [
  | inl blank ↦ (none, empty_identifier, rw blank refl, inl refl)
  | inr filled ↦
      (first, schema (some (record { first = none; second = none })), rw filled refl, inl refl)
]
split_key first (some b) = elim (Bool-cases (atom_empty first && atom_empty (some b))) [
  | inl blank ↦ (none, empty_identifier, rw blank refl, inl refl)
  | inr filled ↦ (
    first,
    schema (some (record { first = some b; second = none })),
    rw filled refl,
    inr (omega arith),
  )
]

split_lem : (x : Identifier) → Splits x
unfolding split empty
split_lem (ident a) = (a, empty_identifier, refl, inl refl)
split_lem (schema none) = (none, empty_identifier, refl, inl refl)
split_lem (schema (some key)) = split_key key.first key.second
split_lem (table none) = (none, empty_identifier, refl, inl refl)
split_lem (table (some q)) = split_table q.namespace q.terminal

module _ (to_lower : Text → Text) where
  compare_loop-blank :
      (fuel : ℕ) (x y : Identifier)
      → empty x ≡ true
      → compare_loop to_lower (suc fuel) (some x) (some y) ≡ some (compare_ends (some x) (some y))
  unfolding compare_loop is_blank
  compare_loop-blank fuel x y blank = rw (blank, compare_loop) refl

  compare_loop-total :
      (fuel : ℕ) (x y : Identifier)
      → size x < fuel
      → (order : ℤ) × (compare_loop to_lower fuel (some x) (some y) ≡ some order)
  unfolding compare_loop is_blank
  compare_loop-total zero x y enough = absurd (omega (arith, enough))
  compare_loop-total (suc fuel) x y enough = elim (Bool-cases (empty x || empty y)) [
    | inl blank ↦ (compare_ends (some x) (some y), rw blank refl)
    | inr filled ↦
        let (part, rest, run, small) = split_lem x in
        let (part', rest', run', _) = split_lem y in
        elim (Bool-cases (compare_parts to_lower part part' == pos 0)) [
          | inr differs ↦ (compare_parts to_lower part part', rw (filled, run, run', differs) refl)
          | inl same ↦ elim small [
            | inr less ↦
                let (order, further) =
                  compare_loop-total fuel rest rest' (omega (arith, less, enough)) in
                (order, rw (filled, run, run', same) further)
            | inl blank ↦
                let more : fuel ≡ suc (fuel - 1) = omega (arith, enough, size_pos x) in
                let further =
                  ap (λ f. compare_loop to_lower f (some rest) (some rest')) more
                  ∙ compare_loop-blank (fuel - 1) rest rest' blank in
                (compare_ends (some rest) (some rest'), rw (filled, run, run', same) further)
          ]
        ]
  ]

  -- `Compare` ends for all identifiers, nil ones included, and none of its calls of `Split` panics.
  pub compare_total : (a b : Option Identifier) → (order : ℤ) × (compare to_lower a b ≡ some order)
  unfolding compare
  compare_total none b = (compare_ends none b, unfold compare_loop in refl)
  compare_total (some x) none = (compare_ends (some x) none, unfold compare_loop in refl)
  compare_total (some x) (some y) = compare_loop-total 4 x y (size_lt x)

-- A text is the same as itself.
compare_text_refl : (s : Text) → compare_text s s ≡ pos 0
unfolding compare_text
compare_text_refl [] = refl
compare_text_refl (c ∷ s) = ground (arith, compare_text_refl s)

module _ (to_lower : Text → Text) where
  compare_ends_refl : (x : Identifier) → empty x ≡ true → compare_ends (some x) (some x) ≡ pos 0
  unfolding compare_ends is_blank
  compare_ends_refl x blank = rw blank refl

  compare_loop_refl :
      (fuel : ℕ) (x : Identifier) (order : ℤ)
      → compare_loop to_lower fuel (some x) (some x) ≡ some order
      → order ≡ pos 0
  unfolding compare_loop is_blank compare_parts
  compare_loop_refl zero x order run = cc
  compare_loop_refl (suc fuel) x order run =
      let (part, rest, taken, small) = split_lem x in
      let same = compare_text_refl (atom_raw (canonical_ident to_lower part)) in
      elim (Bool-cases (empty x)) [
        | inl blank ↦ ground (arith, run, blank, compare_ends_refl x blank)
        | inr filled ↦ compare_loop_refl fuel rest order (ground (arith, run, filled, taken, same))
      ]

  -- `Equal` holds of an identifier and itself.
  pub equal_refl : (a : Option Identifier) → equal to_lower a a ≡ true
  unfolding equal compare
  equal_refl none = unfold compare_loop in refl
  equal_refl (some x) =
      let (order, run) = compare_total to_lower (some x) (some x) in
      let zero_order = compare_loop_refl 4 x order run in rw (run, equal) (rw zero_order refl)
