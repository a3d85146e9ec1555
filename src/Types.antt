-- ===== src/Types.antt =====
-- internal/types/types.go: mutations, columns and schemas.
pub mod Batch
pub mod Expand
pub mod Tests
use cdc_sink.Base.{
  ℕ, Bool, true, false, ◌||◌, ◌&&◌, Option, none, some, List, [], ◌∷◌, length, ◌==◌, list_eq,
  nat_eq, option_eq, eqb, if◌then◌else◌,
}
use cdc_sink.Hlc.{Time}
use cdc_sink.Ident.{Text, Ident, new, Schema, Table, Identifier, ident, schema, array_empty, idents}
use cdc_sink.Ident.Compare.{equal}
use cdc_sink.Ident.Schema.{new_schema}

-- The JSON texts are byte slices. `Meta` is the type of the dialect's map, which is passed on as it
-- is.
pub record Mutation (Meta : Type 0) : Type 0 where
  pub before : List ℕ
  pub body : List ℕ
  pub key : List ℕ
  pub meta : Meta
  pub time : Time

-- "null"
abbrev null_bytes : List ℕ
null_bytes = b'n' ∷ b'u' ∷ b'l' ∷ b'l' ∷ []

unfoldable pub is_delete : {Meta : Type 0} → Mutation Meta → Bool
is_delete m = eqb (length m.body) 0 || m.body == null_bytes

-- The field `Parse`, a function, is left out.
pub record ColData : Type 0 where
  pub default_expr : Text
  pub ignored : Bool
  pub name : Ident
  pub primary : Bool
  pub kind : Text

-- Go's `==` on Booleans.
abbrev same_bool : Bool → Bool → Bool
same_bool x y = if x then y else if y then false else true

-- `ColData.Equal`.
unfoldable pub col_data_equal : (Text → Text) → ColData → ColData → Bool
unfolding equal
col_data_equal to_lower d o =
    d.default_expr == o.default_expr
    && same_bool d.ignored o.ignored
    && equal to_lower (some (ident d.name)) (some (ident o.name))
    && same_bool d.primary o.primary
    && d.kind == o.kind

pub data Product : Type 0 where
  unknown cockroach_db maria_db my_sql oracle postgre_sql : Product

-- `ident.Public`.
abbrev public_ident : Ident
public_ident = new (b'p' ∷ b'u' ∷ b'b' ∷ b'l' ∷ b'i' ∷ b'c' ∷ [])

-- The switch of `ExpandSchema` for a product with schemas in a database, and for one without. None is
-- an error.
unfoldable pub expand_two : Schema → List Ident → Option Schema
unfolding new_schema
expand_two s [] = none
expand_two s (a ∷ []) = new_schema (a ∷ public_ident ∷ [])
expand_two s (a ∷ b ∷ []) = some s
expand_two s (a ∷ b ∷ c ∷ parts) = none

unfoldable pub expand_one : Schema → List Ident → Option Schema
expand_one s parts = if eqb (length parts) 1 then some s else none

unfoldable pub expand_by : Product → Schema → List Ident → Option Schema
unfolding expand_two expand_one
expand_by unknown s parts = none
expand_by cockroach_db s parts = expand_two s parts
expand_by maria_db s parts = expand_one s parts
expand_by my_sql s parts = expand_one s parts
expand_by oracle s parts = expand_one s parts
expand_by postgre_sql s parts = expand_two s parts

unfoldable pub expand_schema : Product → Schema → Option Schema
unfolding expand_by idents array_empty
expand_schema p s = if array_empty s then none else expand_by p s (idents (schema s) [])
