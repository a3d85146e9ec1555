-- ===== src/Merge/Bag/AllProperties.antt =====
-- internal/util/merge/standard.go: the properties that a merge looks at.
use cdc_sink.Base.{
  ◌≡◌, refl, Bool, true, false, not, ◌&&◌, ◌||◌, none, some, List, [], ◌∷◌, nat_eq, list_eq,
  option_eq, ◌==◌, arith,
}
use cdc_sink.Types.{ColData}
use cdc_sink.Ident.{Text, Ident}
use cdc_sink.Cmap
use cdc_sink.Cmap.{Cmap, Entry, find, store}
use cdc_sink.Cmap.Laws.{find-store}
use cdc_sink.Merge.Bag.{IdentMap, Bag, form, add_columns, add_entries, all_properties}

unfoldable pub has_form : {A : Type 0} → Ident → IdentMap A → Bool
has_form k m = elim (find k m) [ none ↦ false | some e ↦ true ]

has_form-store :
    {A : Type 0} (j k : Ident) (e : Entry Ident A) (m : IdentMap A)
    → has_form k (store j e m) ≡ ((j == k) || has_form k m)
unfolding has_form
has_form-store j k e m = ground (arith, find-store j k e m)

module _ (to_lower : Text → Text) where
  -- A column with the form that is neither a primary key nor ignored.
  unfoldable pub has_column : Ident → List ColData → Bool
  has_column k [] = false
  has_column k (col ∷ columns) =
      let rest = has_column k columns in
      (not (col.primary || col.ignored) && (form to_lower col.name == k)) || rest

  unfoldable pub has_key : {A : Type 0} → Ident → List (Entry Ident A) → Bool
  has_key k [] = false
  has_key k (e ∷ rest) = let more = has_key k rest in (form to_lower e.key == k) || more

  has_form-add_columns :
      (k : Ident) (columns : List ColData) (m : IdentMap Unit)
      → has_form k (add_columns to_lower columns m) ≡ (has_column k columns || has_form k m)
  unfolding add_columns has_column Cmap.put
  has_form-add_columns k [] m = refl
  has_form-add_columns k (col ∷ columns) m =
      let new : Entry Ident Unit = record { key = col.name; value = tt } in
      ground (
        arith,
        has_form-add_columns k columns m,
        has_form-add_columns k columns (store (form to_lower col.name) new m),
        has_form-store (form to_lower col.name) k new m,
      )

  has_form-add_entries :
      {A : Type 0} (k : Ident) (es : List (Entry Ident A)) (m : IdentMap Unit)
      → has_form k (add_entries to_lower es m) ≡ (has_key k es || has_form k m)
  unfolding add_entries has_key Cmap.put
  has_form-add_entries k [] m = refl
  has_form-add_entries k (e ∷ rest) m =
      let new : Entry Ident Unit = record { key = e.key; value = tt } in
      ground (
        arith,
        has_form-add_entries k rest (store (form to_lower e.key) new m),
        has_form-store (form to_lower e.key) k new m,
      )

  -- The set of properties to merge has a canonical form exactly when a column of the proposed bag has it
  -- that is neither a primary key nor ignored, or a property of one of the three bags that is not mapped
  -- to a column.
  pub all_properties_exact :
      {A : Type 0} (proposed before target : Bag A) (k : Ident)
      → has_form k (all_properties to_lower proposed before target) ≡ (
          has_key k (Cmap.entries target.unmapped)
          || (has_key k (Cmap.entries before.unmapped)
              || (has_key k (Cmap.entries proposed.unmapped)
                  || has_column k proposed.bag_spec.columns)))
  unfolding all_properties has_form find
  all_properties_exact proposed before target k =
      let columns = add_columns to_lower proposed.bag_spec.columns [] in
      let first = add_entries to_lower (Cmap.entries proposed.unmapped) columns in
      let second = add_entries to_lower (Cmap.entries before.unmapped) first in
      ground (
        arith,
        has_form-add_entries k (Cmap.entries target.unmapped) second,
        has_form-add_entries k (Cmap.entries before.unmapped) first,
        has_form-add_entries k (Cmap.entries proposed.unmapped) columns,
        has_form-add_columns k proposed.bag_spec.columns [],
      )
