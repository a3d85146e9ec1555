-- ===== src/Ident.antt =====
-- internal/util/ident: SQL identifiers. A text is a list of bytes. Identifiers are interned: two
-- pointers to atoms are equal exactly when the raw texts are, and so on for arrays and qualified names,
-- so a pointer is modelled by what it points to, and nil by none.
pub mod Compare
pub mod Schema
pub mod Keys
pub mod Utf8
pub mod Parse
pub mod RoundTrip
pub mod Dotted
pub mod CompareTotal
pub mod Tests
use cdc_sink.Base.{
  ℕ, zero, suc, ◌≡◌, Bool, true, false, not, ◌&&◌, Option, none, some, List, [], ◌∷◌, ◌++◌, length,
  map, leb, ltb, eqb, drop, take, Comparable, nat_eq, list_eq, option_eq, ◌==◌, if◌then◌else◌,
}
use cdc_sink.Base.Int.{ℤ, pos, negsuc}

abbrev pub Text : Type 0
Text = List ℕ

abbrev pub quote : ℕ
quote = b'"'

abbrev pub separator : ℕ
separator = b'.'

-- `strings.ReplaceAll(key, "\"", "\"\"")`.
unfoldable pub double_quotes : Text → Text
double_quotes [] = []
double_quotes (c ∷ s) =
    let rest = double_quotes s in if c == quote then quote ∷ quote ∷ rest else c ∷ rest

-- An `Ident`, which wraps a pointer to an atom.
abbrev pub Ident : Type 0
Ident = Option Text

pub record ArrayKey : Type 0 where
  pub first : Ident
  pub second : Ident

-- A `Schema`, which wraps a pointer to an array of at most two atoms.
abbrev pub max_array_length : ℕ
max_array_length = 2

abbrev pub Schema : Type 0
Schema = Option ArrayKey

pub record QualifiedKey : Type 0 where
  pub namespace : Schema
  pub terminal : Ident

abbrev pub Table : Type 0
Table = Option QualifiedKey

pub data Identifier : Type 0 where
  ident : Ident → Identifier
  schema : Schema → Identifier
  table : Table → Identifier

-- `New`.
abbrev pub new : Text → Ident
new raw = some raw

unfoldable pub atom_empty : Ident → Bool
atom_empty none = true
atom_empty (some []) = true
atom_empty (some (c ∷ s)) = false

unfoldable pub array_empty : Schema → Bool
unfolding atom_empty
array_empty none = true
array_empty (some key) = atom_empty key.first && atom_empty key.second

unfoldable pub qualified_empty : Table → Bool
unfolding array_empty
qualified_empty none = true
qualified_empty (some q) = array_empty q.namespace && atom_empty q.terminal

unfoldable pub empty : Identifier → Bool
unfolding qualified_empty
empty (ident a) = atom_empty a
empty (schema s) = array_empty s
empty (table t) = qualified_empty t

-- The loop of `array.Idents`, which stops at a nil.
unfoldable pub key_idents : ArrayKey → List Ident
key_idents key = elim key.first [
  | none ↦ []
  | some a ↦ elim key.second [ none ↦ some a ∷ [] | some b ↦ some a ∷ some b ∷ [] ]
]

-- `Idents`, with the buffer in front.
unfoldable pub array_idents : Schema → List Ident → List Ident
unfolding key_idents array_empty
array_idents none buf = buf
array_idents (some key) buf = if array_empty (some key) then buf else buf ++ key_idents key

unfoldable pub idents : Identifier → List Ident → List Ident
unfolding array_idents qualified_empty
idents (ident none) buf = buf
idents (ident (some a)) buf = buf ++ some a ∷ []
idents (schema s) buf = array_idents s buf
idents (table none) buf = buf
idents (table (some q)) buf =
    if qualified_empty (some q) then buf else array_idents q.namespace buf ++ q.terminal ∷ []

unfoldable pub atom_raw : Ident → Text
atom_raw none = []
atom_raw (some raw) = raw

unfoldable pub atom_string : Ident → Text
unfolding double_quotes
atom_string none = quote ∷ quote ∷ []
atom_string (some raw) = quote ∷ (double_quotes raw ++ quote ∷ [])

-- The loop of `Join` over the parts.
unfoldable pub join_parts : (Ident → Text) → ℕ → List Ident → Text
join_parts represent sep [] = []
join_parts represent sep (part ∷ []) = represent part
join_parts represent sep (part ∷ next ∷ parts) =
    represent part ++ (sep ∷ join_parts represent sep (next ∷ parts))

unfoldable pub raw : Identifier → Text
unfolding join_parts atom_raw idents
raw (ident a) = atom_raw a
raw (schema s) = join_parts atom_raw separator (idents (schema s) [])
raw (table t) = join_parts atom_raw separator (idents (table t) [])

unfoldable pub string : Identifier → Text
unfolding join_parts atom_string idents
string (ident a) = atom_string a
string (schema s) = join_parts atom_string separator (idents (schema s) [])
string (table t) = join_parts atom_string separator (idents (table t) [])

-- The sentinel `empty`, a nil atom.
abbrev pub empty_identifier : Identifier
empty_identifier = ident none

-- The shifted array of `qualified.Split` with the terminal in its first nil place, or the panic.
unfoldable pub shift_in : ArrayKey → Ident → Option ArrayKey
shift_in key terminal = elim key.first [
  | none ↦ some (record key { first = terminal })
  | some a ↦ elim key.second [ none ↦ some (record key { second = terminal }) | some b ↦ none ]
]

unfoldable pub split_qualified : QualifiedKey → Option (Ident × Identifier)
unfolding array_empty shift_in
split_qualified q = elim q.namespace [
  | none ↦ some (q.terminal, empty_identifier)
  | some key ↦
      if array_empty (some key)
      then some (q.terminal, empty_identifier)
      else elim (shift_in (record { first = key.second; second = none }) q.terminal) [
        | none ↦ none
        | some next ↦ some (key.first, schema (some next))
      ]
]

-- `Split`; none is a panic.
unfoldable pub split : Identifier → Option (Ident × Identifier)
unfolding split_qualified qualified_empty
split (ident a) = some (a, empty_identifier)
split (schema none) = some (none, empty_identifier)
split (schema (some key)) =
    if array_empty (some key)
    then some (none, empty_identifier)
    else some (key.first, schema (some (record { first = key.second; second = none })))
split (table none) = some (none, empty_identifier)
split (table (some q)) =
    if qualified_empty (some q) then some (none, empty_identifier) else split_qualified q

-- `strings.Compare`.
unfoldable pub compare_text : Text → Text → ℤ
compare_text [] [] = pos 0
compare_text [] (d ∷ t) = negsuc 0
compare_text (c ∷ s) [] = pos 1
compare_text (c ∷ s) (d ∷ t) =
    let rest = compare_text s t in if ltb c d then negsuc 0 else if ltb d c then pos 1 else rest
