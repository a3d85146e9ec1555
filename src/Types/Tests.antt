-- ===== src/Types/Tests.antt =====
-- internal/types/types.go on concrete names of schemas.
use cdc_sink.Base.{◌≡◌, refl, true, false, none, some, [], ◌∷◌, length, list_beq}
use cdc_sink.Ident.{Schema, schema, new, idents}
use cdc_sink.Types.{ColData, col_data_equal, cockroach_db, my_sql, expand_schema}
use cdc_sink.Types.Expand.{schema_parts, expand_schema_complete}

-- `db`, without and with the schema of a database.
abbrev db : Schema
db = some (record { first = new (b'd' ∷ b'b' ∷ []); second = none })

abbrev db_public : Schema
db_public = some (record {
  first = new (b'd' ∷ b'b' ∷ []);
  second = new (b'p' ∷ b'u' ∷ b'b' ∷ b'l' ∷ b'i' ∷ b'c' ∷ []);
})

db_expands : expand_schema cockroach_db db ≡ some db_public
unfolding expand_schema
db_expands = refl

too_long : expand_schema my_sql db_public ≡ none
unfolding expand_schema
too_long = refl

expand_schema_complete_example :
    (length (idents (schema db_public) []) ≡ schema_parts cockroach_db)
    × (expand_schema cockroach_db db_public ≡ some db_public)
expand_schema_complete_example = expand_schema_complete cockroach_db db db_public db_expands

abbrev column : ColData
column = record {
  default_expr = [];
  ignored = false;
  name = new (b'k' ∷ []);
  primary = true;
  kind = b'I' ∷ b'N' ∷ b'T' ∷ [];
}

same_column : col_data_equal (λ s. s) column column ≡ true
unfolding col_data_equal list_beq
same_column = refl

other_column : col_data_equal (λ s. s) column (record column { primary = false }) ≡ false
unfolding col_data_equal list_beq
other_column = refl
