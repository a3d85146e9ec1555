-- ===== src/Ident/Parse.antt =====
-- internal/util/ident/parse.go: parsing identifiers, schemas and tables.
use cdc_sink.Base.{
  ℕ, zero, suc, ◌-◌, ◌+◌, ◌&&◌, Option, none, some, List, [], ◌∷◌, ◌++◌, length, take, drop, eqb,
  if◌then◌else◌,
}
use cdc_sink.Ident.{Text, quote, separator, Ident, new, Schema, Table}
use cdc_sink.Ident.Schema.{new_schema, new_table, relative, Qualification, table_only}
use cdc_sink.Ident.Utf8.{rune_error, decode_rune}

-- A result, an error, or a loop that has run out of fuel.
pub data Outcome (A : Type 0) : Type 0 where
  done : A → Outcome A
  failed : Outcome A
  stuck : Outcome A

infixl 5 ◌>>=◌
abbrev pub ◌>>=◌ : {A B : Type 0} → Outcome A → (A → Outcome B) → Outcome B
done a >>= f = f a
failed >>= f = failed
stuck >>= f = stuck

abbrev pub or_failed : {A : Type 0} → Option A → Outcome A
or_failed none = failed
or_failed (some a) = done a

-- `strings.ReplaceAll(s, "\"\"", "\"")`.
unfoldable pub single_quotes : Text → Text
single_quotes [] = []
single_quotes (c ∷ []) = c ∷ []
single_quotes (c ∷ d ∷ s) =
    let pair = quote ∷ single_quotes s in
    let plain = c ∷ single_quotes (d ∷ s) in if eqb c quote && eqb d quote then pair else plain

-- The loop of `parseQuotedIdent` at the index `idx`, where `rest` is the input from there on: the last
-- quote that is not escaped, where none stands for -1.
unfoldable pub scan_quoted : ℕ → ℕ → ℕ → Option ℕ → Text → Outcome (Option ℕ)
scan_quoted fuel idx prev last [] = done last
scan_quoted zero idx prev last (c ∷ rest) = stuck
scan_quoted (suc fuel) idx prev last (c ∷ rest) =
    let (next, size) = decode_rune (c ∷ rest) in
    let after = drop size (c ∷ rest) in
    let escaped = scan_quoted fuel (idx + size) 0 none after in
    let closed = scan_quoted fuel (idx + size) next (some idx) after in
    let plain = scan_quoted fuel (idx + size) next last after in
    if eqb next rune_error
    then failed
    else if eqb next quote
    then (if eqb prev quote then escaped else closed)
    else if eqb prev quote
    then done last
    else plain

-- The end of `parseQuotedIdent`.
unfoldable pub cut_quoted : Text → Option ℕ → Outcome (Ident × Text)
unfolding single_quotes
cut_quoted s none = failed
cut_quoted s (some last) =
    done (new (single_quotes (take (last - 1) (drop 1 s))), drop (last + 1) s)

unfoldable pub parse_quoted : Text → Outcome (Ident × Text)
unfolding scan_quoted cut_quoted
parse_quoted s = scan_quoted (length s) 1 0 none (drop 1 s) >>= cut_quoted s

-- The loop of `parseUnquotedIdent`: the index of the next separator, or of the end.
unfoldable pub scan_unquoted : ℕ → ℕ → Text → Outcome ℕ
scan_unquoted fuel idx [] = done idx
scan_unquoted zero idx (c ∷ rest) = stuck
scan_unquoted (suc fuel) idx (c ∷ rest) =
    let (next, size) = decode_rune (c ∷ rest) in
    let further = scan_unquoted fuel (idx + size) (drop size (c ∷ rest)) in
    if eqb next separator then done idx else if eqb next rune_error then failed else further

unfoldable pub parse_unquoted : Text → Outcome (Ident × Text)
unfolding scan_unquoted
parse_unquoted s = scan_unquoted (length s) 0 s >>= λ idx. done (new (take idx s), drop idx s)

unfoldable pub parse_ident : Text → Outcome (Ident × Text)
unfolding parse_quoted parse_unquoted
parse_ident [] = failed
parse_ident (c ∷ s) =
    if eqb c separator
    then failed
    else if eqb c quote
    then parse_quoted (c ∷ s)
    else parse_unquoted (c ∷ s)

-- The step of `parseDottedIdent` after a part: the input that is left for the loop, if it goes on.
unfoldable pub after_part : Text → Outcome (Option Text)
after_part [] = done none
after_part (c ∷ rest) = if eqb c separator then done (some rest) else failed

unfoldable pub dotted_loop : ℕ → List Ident → Text → Outcome (List Ident)
unfolding parse_ident after_part
dotted_loop fuel parts [] = done parts
dotted_loop zero parts (c ∷ s) = stuck
dotted_loop (suc fuel) parts (c ∷ s) = parse_ident (c ∷ s) >>= λ parsed.
    after_part parsed.1 >>= λ next. elim next [
      | none ↦ done (parts ++ parsed.0 ∷ [])
      | some rest ↦ dotted_loop fuel (parts ++ parsed.0 ∷ []) rest
    ]

unfoldable pub parse_dotted : Text → Outcome (List Ident)
unfolding dotted_loop
parse_dotted s = dotted_loop (length s) [] s

unfoldable pub parse_schema : Text → Outcome Schema
unfolding parse_dotted new_schema
parse_schema s = parse_dotted s >>= λ parts. or_failed (new_schema parts)

-- All parts but the last, and the last.
unfoldable pub split_last : Ident → List Ident → List Ident × Ident
split_last a [] = ([], a)
split_last a (b ∷ parts) = let (front, last) = split_last b parts in (a ∷ front, last)

-- The table is made even of empty parts.
unfoldable pub table_of_parts : List Ident → Outcome Table
unfolding split_last new_schema
table_of_parts [] = done none
table_of_parts (a ∷ parts) =
    let (front, last) = split_last a parts in
    or_failed (new_schema front) >>= λ sch.
    done (some (record { namespace = sch; terminal = last }))

unfoldable pub parse_table : Text → Outcome Table
unfolding parse_dotted table_of_parts
parse_table s = parse_dotted s >>= table_of_parts

unfoldable pub relative_parts : Schema → List Ident → Outcome (Table × Qualification)
unfolding split_last new_table relative
relative_parts base [] = failed
relative_parts base (a ∷ []) = done (new_table base a, table_only)
relative_parts base (a ∷ b ∷ parts) =
    let (front, last) = split_last a (b ∷ parts) in
    or_failed (relative base front) >>= λ found. done (new_table found.0 last, found.1)

unfoldable pub parse_table_relative : Text → Schema → Outcome (Table × Qualification)
unfolding parse_dotted relative_parts
parse_table_relative s base = parse_dotted s >>= relative_parts base

-- `Table.UnmarshalText`: the new value of the receiver.
unfoldable pub unmarshal_text : Text → Outcome Table
unfolding parse_table
unmarshal_text [] = done none
unmarshal_text (c ∷ s) = parse_table (c ∷ s)
