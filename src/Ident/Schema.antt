-- ===== src/Ident/Schema.antt =====
-- internal/util/ident/schema.go and table.go: building schemas and tables from their parts.
use cdc_sink.Base.{
  ◌-◌, ◌&&◌, Option, none, some, List, [], ◌∷◌, ◌++◌, length, take, ltb, eqb, if◌then◌else◌,
}
use cdc_sink.Ident.{
  Ident, ArrayKey, Schema, Table, schema, idents, array_empty, atom_empty, max_array_length,
}

-- The loop that fills the key, for at most two parts.
unfoldable pub key_of_parts : List Ident → ArrayKey
key_of_parts [] = record { first = none; second = none }
key_of_parts (a ∷ []) = record { first = a; second = none }
key_of_parts (a ∷ b ∷ parts) = record { first = a; second = b }

-- `NewSchema`; none is the error.
unfoldable pub new_schema : List Ident → Option Schema
unfolding key_of_parts
new_schema [] = some none
new_schema (a ∷ parts) =
    if ltb max_array_length (length (a ∷ parts))
    then none
    else some (some (key_of_parts (a ∷ parts)))

unfoldable pub new_table : Schema → Ident → Table
unfolding array_empty atom_empty
new_table enclosing name =
    if array_empty enclosing && atom_empty name
    then none
    else some (record { namespace = enclosing; terminal = name })

-- `Table.Schema` and `Table.Table`.
unfoldable pub schema_of : Table → Schema
schema_of none = none
schema_of (some q) = q.namespace

unfoldable pub table_of : Table → Ident
table_of none = none
table_of (some q) = q.terminal

pub data Qualification : Type 0 where
  table_only partial_schema fully_qualified : Qualification

-- `Relative`; none is an error.
unfoldable pub relative : Schema → List Ident → Option (Schema × Qualification)
unfolding idents new_schema
relative s parts =
    let existing = idents (schema s) [] in
    let n = length existing - length parts in
    if ltb (length existing) (length parts)
    then none
    else if eqb (length parts) (length existing)
    then elim (new_schema parts) [ none ↦ none | some ret ↦ some (ret, fully_qualified) ]
    else elim (new_schema (take n existing ++ parts)) [
      | none ↦ none
      | some ret ↦ some (ret, partial_schema)
    ]
