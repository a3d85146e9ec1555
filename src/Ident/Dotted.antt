-- ===== src/Ident/Dotted.antt =====
-- internal/util/ident: a qualified name that was quoted is parsed as what it was.
use cdc_sink.Base.{
  ℕ, zero, suc, ◌≤◌, ◌<◌, ◌≡◌, ◌≢◌, refl, sym, ap, ◌∙◌, false, none, some, List, [], ◌∷◌, ◌++◌,
  append_nil, append_assoc, length, length-append, map, All, arith,
}
use cdc_sink.Ident.{
  Text, separator, Ident, new, Table, table, atom_string, atom_empty, join_parts, string, idents,
  array_idents,
}
use cdc_sink.Ident.Schema.{key_of_parts}
use cdc_sink.Ident.Parse.{
  done, parse_ident, after_part, dotted_loop, parse_dotted, parse_table, table_of_parts, split_last,
}
use cdc_sink.Ident.RoundTrip.{IsText, nothing, ascii, parse_ident-atom_string}

abbrev joined : List Text → Text
joined parts = join_parts atom_string separator (map new parts)

step-last :
    (fuel : ℕ) (acc : List Ident) (a : Text)
    → IsText a
    → dotted_loop (suc fuel) acc (atom_string (new a)) ≡ done (acc ++ new a ∷ [])
unfolding dotted_loop atom_string after_part
step-last fuel acc a text =
    let parsed = parse_ident-atom_string a [] text nothing in
    let same : atom_string (new a) ++ [] ≡ atom_string (new a) = append_nil (atom_string (new a)) in
    let here : parse_ident (atom_string (new a)) ≡ done (new a, []) =
      ap parse_ident (sym same) ∙ parsed in
    rw here refl

step-next :
    (fuel : ℕ) (acc : List Ident) (a rest : Text)
    → IsText a
    → dotted_loop (suc fuel) acc (atom_string (new a) ++ (separator ∷ rest))
      ≡ dotted_loop fuel (acc ++ new a ∷ []) rest
unfolding dotted_loop atom_string after_part
step-next fuel acc a rest text =
    let here =
      parse_ident-atom_string a (separator ∷ rest) text
        (ascii separator rest (omega arith) (λ p. omega (arith, p))) in
    rw here refl

length-atom_string : (a : Text) → 0 < length (atom_string (new a))
unfolding atom_string
length-atom_string a = omega arith

dotted_loop-joined :
    (fuel : ℕ) (acc : List Ident) (a : Text) (parts : List Text)
    → All IsText (a ∷ parts)
    → length (joined (a ∷ parts)) ≤ fuel
    → dotted_loop fuel acc (joined (a ∷ parts)) ≡ done (acc ++ map new (a ∷ parts))
unfolding join_parts
dotted_loop-joined zero acc a [] texts enough = absurd (omega (arith, enough, length-atom_string a))
dotted_loop-joined (suc fuel) acc a [] texts enough = step-last fuel acc a texts.0
dotted_loop-joined zero acc a (b ∷ parts) texts enough = absurd (
    omega (
      arith,
      enough,
      length-atom_string a,
      length-append (atom_string (new a)) (separator ∷ joined (b ∷ parts)),
    ))
dotted_loop-joined (suc fuel) acc a (b ∷ parts) texts enough =
    let less : length (joined (b ∷ parts)) ≤ fuel = omega (
      arith,
      enough,
      length-atom_string a,
      length-append (atom_string (new a)) (separator ∷ joined (b ∷ parts)),
    ) in
    step-next fuel acc a (joined (b ∷ parts)) texts.0
    ∙ dotted_loop-joined fuel (acc ++ new a ∷ []) b parts texts.1 less
    ∙ ap done (append_assoc acc (new a ∷ []) (map new (b ∷ parts)))

parse_dotted-joined :
    (a : Text) (parts : List Text)
    → All IsText (a ∷ parts)
    → parse_dotted (joined (a ∷ parts)) ≡ done (map new (a ∷ parts))
unfolding parse_dotted
parse_dotted-joined a parts texts =
    dotted_loop-joined (length (joined (a ∷ parts))) [] a parts texts (omega arith)

-- A table by the parts of its schema, and its name.
abbrev pub table_named : List Text → Text → Table
table_named [] name = some (record { namespace = none; terminal = new name })
table_named (a ∷ parts) name =
    some (record { namespace = some (key_of_parts (map new (a ∷ parts))); terminal = new name })

-- The first part of the name is not blank, so that no part is dropped.
abbrev pub IsNamed : List Text → Text → Type 0
IsNamed [] name = name ≢ []
IsNamed (a ∷ parts) name = a ≢ []

atom_empty-new : (a : Text) → a ≢ [] → atom_empty (new a) ≡ false
unfolding atom_empty
atom_empty-new [] h = absurd (h refl)
atom_empty-new (c ∷ s) h = refl

-- A table with at most two parts in its schema, all of its parts in UTF-8 without U+FFFD, the rune that
-- stands for an error, and the first not blank, is the one that `ParseTable` makes of what `String`
-- prints for it.
pub parse_table-string :
    (parts : List Text) (name : Text)
    → All IsText parts
    → IsText name
    → length parts ≤ 2
    → IsNamed parts name
    → parse_table (string (table (table_named parts name))) ≡ done (table_named parts name)
unfolding parse_table string idents array_idents table_of_parts split_last key_of_parts
parse_table-string [] name texts text few named =
    rw (atom_empty-new name named, parse_dotted-joined name [] (text, tt)) refl
parse_table-string (a ∷ []) name texts text few named =
    rw (atom_empty-new a named, parse_dotted-joined a (name ∷ []) (texts.0, (text, tt))) refl
parse_table-string (a ∷ b ∷ []) name texts text few named =
    rw
      (
        atom_empty-new a named,
        parse_dotted-joined a (b ∷ name ∷ []) (texts.0, (texts.1.0, (text, tt))),
      )
      refl
parse_table-string (a ∷ b ∷ d ∷ parts) name texts text few named = absurd (omega (arith, few))
