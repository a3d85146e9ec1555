-- ===== src/Types/Expand.antt =====
-- internal/types/types.go: `ExpandSchema`.
use cdc_sink.Base.{ℕ, ◌≡◌, sym, subst, false, none, some, List, [], length, arith}
use cdc_sink.Ident.{Text, Ident, Schema, schema, idents, array_empty, atom_empty}
use cdc_sink.Types.{
  Product, unknown, cockroach_db, maria_db, my_sql, oracle, postgre_sql, expand_schema,
  public_ident,
}

-- The parts that a product has in the name of a schema.
abbrev pub schema_parts : Product → ℕ
schema_parts unknown = 0
schema_parts cockroach_db = 2
schema_parts maria_db = 1
schema_parts my_sql = 1
schema_parts oracle = 1
schema_parts postgre_sql = 2

abbrev parts_of : Schema → List Ident
parts_of s = idents (schema s) []

-- What holds of each result.
abbrev IsExpanded : Product → Schema → Type 0
IsExpanded p s = (length (parts_of s) ≡ schema_parts p) × (expand_schema p s ≡ some s)

-- A schema that has as many parts as the product's is left as it is.
expand_full :
    (p : Product) (a : Text) (b : Ident)
    → array_empty (some (record { first = some a; second = b })) ≡ false
    → length (parts_of (some (record { first = some a; second = b }))) ≡ schema_parts p
    → expand_schema p (some (record { first = some a; second = b }))
      ≡ some (some (record { first = some a; second = b }))
unfolding expand_schema idents
expand_full unknown a none filled full = absurd (ground (arith, filled, full))
expand_full unknown a (some b) filled full = absurd (ground (arith, filled, full))
expand_full cockroach_db a none filled full = absurd (ground (arith, filled, full))
expand_full cockroach_db a (some b) filled full = ground (arith, filled)
expand_full postgre_sql a none filled full = absurd (ground (arith, filled, full))
expand_full postgre_sql a (some b) filled full = ground (arith, filled)
expand_full maria_db a none filled full = ground (arith, filled)
expand_full maria_db a (some b) filled full = absurd (ground (arith, filled, full))
expand_full my_sql a none filled full = ground (arith, filled)
expand_full my_sql a (some b) filled full = absurd (ground (arith, filled, full))
expand_full oracle a none filled full = ground (arith, filled)
expand_full oracle a (some b) filled full = absurd (ground (arith, filled, full))

public_filled :
    (a : Text) → array_empty (some (record { first = some a; second = public_ident })) ≡ false
unfolding array_empty atom_empty
public_filled a = ground arith

-- A result that is a schema of the right size.
module _ (p : Product) (s' : Schema) where
  expanded :
      (a : Text) (b : Ident)
      → s' ≡ some (record { first = some a; second = b })
      → array_empty (some (record { first = some a; second = b })) ≡ false
      → length (parts_of (some (record { first = some a; second = b }))) ≡ schema_parts p
      → IsExpanded p s'
  expanded a b same filled full =
      subst (IsExpanded p) (sym same) (full, expand_full p a b filled full)

expand-filled : (p : Product) (s s' : Schema) → expand_schema p s ≡ some s' → array_empty s ≡ false
unfolding expand_schema
expand-filled p s s' run = ground (arith, run)

expand_key :
    (p : Product) (a b : Ident) (s' : Schema)
    → expand_schema p (some (record { first = a; second = b })) ≡ some s'
    → IsExpanded p s'
unfolding expand_schema idents
expand_key unknown a b s' run = absurd (ground (arith, run))
expand_key cockroach_db none b s' run = absurd (ground (arith, run))
expand_key cockroach_db (some a) none s' run =
    let filled =
      expand-filled cockroach_db (some (record { first = some a; second = none })) s' run in
    expanded cockroach_db s' a public_ident (ground (arith, filled, run)) (public_filled a)
      (ground (arith, public_filled a))
expand_key cockroach_db (some a) (some b) s' run =
    let filled =
      expand-filled cockroach_db (some (record { first = some a; second = some b })) s' run in
    expanded cockroach_db s' a (some b) (ground (arith, filled, run)) filled
      (ground (arith, filled))
expand_key maria_db none b s' run = absurd (ground (arith, run))
expand_key maria_db (some a) none s' run =
    let filled = expand-filled maria_db (some (record { first = some a; second = none })) s' run in
    expanded maria_db s' a none (ground (arith, filled, run)) filled (ground (arith, filled))
expand_key maria_db (some a) (some b) s' run = absurd (ground (arith, run))
expand_key my_sql none b s' run = absurd (ground (arith, run))
expand_key my_sql (some a) none s' run =
    let filled = expand-filled my_sql (some (record { first = some a; second = none })) s' run in
    expanded my_sql s' a none (ground (arith, filled, run)) filled (ground (arith, filled))
expand_key my_sql (some a) (some b) s' run = absurd (ground (arith, run))
expand_key oracle none b s' run = absurd (ground (arith, run))
expand_key oracle (some a) none s' run =
    let filled = expand-filled oracle (some (record { first = some a; second = none })) s' run in
    expanded oracle s' a none (ground (arith, filled, run)) filled (ground (arith, filled))
expand_key oracle (some a) (some b) s' run = absurd (ground (arith, run))
expand_key postgre_sql none b s' run = absurd (ground (arith, run))
expand_key postgre_sql (some a) none s' run =
    let filled =
      expand-filled postgre_sql (some (record { first = some a; second = none })) s' run in
    expanded postgre_sql s' a public_ident (ground (arith, filled, run)) (public_filled a)
      (ground (arith, public_filled a))
expand_key postgre_sql (some a) (some b) s' run =
    let filled =
      expand-filled postgre_sql (some (record { first = some a; second = some b })) s' run in
    expanded postgre_sql s' a (some b) (ground (arith, filled, run)) filled (ground (arith, filled))

-- A schema that `ExpandSchema` returns has the number of parts of the product, two for CockroachDB and
-- PostgreSQL and one for MySQL, MariaDB and Oracle, and expanding it again changes nothing.
pub expand_schema_complete :
    (p : Product) (s s' : Schema)
    → expand_schema p s ≡ some s'
    → (length (idents (schema s') []) ≡ schema_parts p) × (expand_schema p s' ≡ some s')
unfolding expand_schema
expand_schema_complete p none s' run = absurd (ground (arith, run))
expand_schema_complete p (some key) s' run = expand_key p key.first key.second s' run
