-- ===== src/Ident/Tests.antt =====
-- internal/util/ident on concrete names.
use cdc_sink.Base.{◌≡◌, refl, true, none, some, [], ◌∷◌, arith, ◌==◌, nat_eq, if◌then◌else◌}
use cdc_sink.Base.Int.{ℤ, pos, negsuc}
use cdc_sink.Ident.{Text, new, Schema, ident, table, atom_string, string, raw}
use cdc_sink.Ident.Compare.{compare, contains}
use cdc_sink.Ident.Schema.{partial_schema, key_of_parts}
use cdc_sink.Ident.Utf8.{one, decode_rune}
use cdc_sink.Ident.Parse.{
  done, failed, parse_ident, parse_table, parse_schema, parse_table_relative, unmarshal_text,
}
use cdc_sink.Ident.RoundTrip.{IsText, end, rune, ascii, parse_ident-atom_string}
use cdc_sink.Ident.Dotted.{table_named, parse_table-string}
use cdc_sink.Ident.CompareTotal.{compare_total}

-- `a"b` and `t`.
abbrev name : Text
name = b'a' ∷ b'"' ∷ b'b' ∷ []

abbrev short : Text
short = b't' ∷ []

name-IsText : IsText name
name-IsText =
    rune (b'a' ∷ []) b'a' _ _ (one b'a' (omega arith)) (λ p. omega (arith, p))
      (rune (b'"' ∷ []) b'"' _ _ (one b'"' (omega arith)) (λ p. omega (arith, p))
        (rune (b'b' ∷ []) b'b' _ _ (one b'b' (omega arith)) (λ p. omega (arith, p)) end refl) refl)
      refl

short-IsText : IsText short
short-IsText = rune (b't' ∷ []) b't' _ _ (one b't' (omega arith)) (λ p. omega (arith, p)) end refl

quoted_name : atom_string (new name) ≡ b'"' ∷ b'a' ∷ b'"' ∷ b'"' ∷ b'b' ∷ b'"' ∷ []
unfolding atom_string
quoted_name = refl

parse_ident-atom_string_example :
    parse_ident (b'"' ∷ b'a' ∷ b'"' ∷ b'"' ∷ b'b' ∷ b'"' ∷ b'.' ∷ []) ≡ done (new name, b'.' ∷ [])
unfolding atom_string
parse_ident-atom_string_example =
    parse_ident-atom_string name (b'.' ∷ []) name-IsText
      (ascii b'.' [] (omega arith) (λ p. omega (arith, p)))

parse_table-string_example :
    parse_table (string (table (table_named (short ∷ name ∷ []) name)))
    ≡ done (table_named (short ∷ name ∷ []) name)
parse_table-string_example =
    parse_table-string (short ∷ name ∷ []) name (short-IsText, (name-IsText, tt)) name-IsText
      (omega arith) (λ p. cc)

compare_total_example : (order : ℤ) × (compare (λ s. s) (some (ident (new name))) none ≡ some order)
compare_total_example = compare_total (λ s. s) (some (ident (new name))) none

-- The comparison ignores the case of the letter T, and a blank part sorts first.
abbrev lower : Text → Text
lower [] = []
lower (c ∷ s) = (if c == b'T' then b't' else c) ∷ lower s

compared : compare lower (some (ident (new (b'T' ∷ [])))) (some (ident (new short))) ≡ some (pos 0)
unfolding compare
compared = refl

blank_first : compare lower none (some (ident (new short))) ≡ some (negsuc 0)
unfolding compare
blank_first = refl

within :
    contains lower
      (some (record { first = new (b'T' ∷ []); second = none }))
      (table_named (short ∷ []) name)
    ≡ true
unfolding contains key_of_parts
within = refl

abbrev base_schema : Schema
base_schema = some (record { first = new short; second = new short })

-- `t.x` in the schema `t.t`.
relative_name :
    parse_table_relative (b't' ∷ b'.' ∷ b'x' ∷ []) base_schema
    ≡ done (table_named (short ∷ short ∷ []) (b'x' ∷ []), partial_schema)
unfolding parse_table_relative decode_rune
relative_name = refl

too_many_parts : parse_schema (b'a' ∷ b'.' ∷ b'b' ∷ b'.' ∷ b'c' ∷ []) ≡ failed
unfolding parse_schema decode_rune
too_many_parts = refl

unclosed : parse_ident (b'"' ∷ b'a' ∷ []) ≡ failed
unfolding parse_ident decode_rune
unclosed = refl

-- `MarshalText` writes the raw name, and so a table that is called `a.b` is read as the table `b` of `a`.
dotted_name :
    unmarshal_text (raw (table (table_named [] (b'a' ∷ b'.' ∷ b'b' ∷ []))))
    ≡ done (table_named ((b'a' ∷ []) ∷ []) (b'b' ∷ []))
unfolding unmarshal_text raw decode_rune key_of_parts
dotted_name = refl
