-- ===== src/Merge/Bag/Tests.antt =====
-- internal/util/merge/bag.go on a bag with one column, `k`, and with `n` renamed to it.
use cdc_sink.Base.{
  ℕ, ◌≡◌, refl, ◌||◌, true, false, Option, none, some, List, [], ◌∷◌, nat_eq, list_eq, option_eq,
  ◌==◌, list_beq, if◌then◌else◌,
}
use cdc_sink.Types.{ColData}
use cdc_sink.Ident.{Text, Ident, new}
use cdc_sink.Ident.Compare.{canonical_ident}
use cdc_sink.Cmap
use cdc_sink.Cmap.{Cmap, Entry, find}
use cdc_sink.Merge.Bag.{
  BagSpec, Bag, new_bag, get, put, delete, len, entries, copy_into, validate_pk, all_properties,
}
use cdc_sink.Merge.Bag.Invariant.{IsBag, putting, deleting, run_changes, run_changes-IsBag}
use cdc_sink.Merge.Bag.AllProperties.{has_form, has_key, has_column, all_properties_exact}

-- The letter K alone has a lower case here.
abbrev lower : Text → Text
lower [] = []
lower (c ∷ s) = (if c == b'K' then b'k' else c) ∷ lower s

abbrev named : ℕ → Ident
named c = new (c ∷ [])

abbrev key_column : ColData
key_column = record {
  default_expr = [];
  ignored = false;
  name = named b'k';
  primary = true;
  kind = [];
}

abbrev row_spec : BagSpec
row_spec = record {
  columns = key_column ∷ [];
  rename = some ((named b'n', record { key = named b'n'; value = named b'k' }) ∷ []);
}

abbrev empty_row : Bag ℕ
empty_row = new_bag lower 0 row_spec

-- A value of the column, under the renamed key, and a loose one.
abbrev row : Bag ℕ
row = put lower (named b'x') 20 (put lower (named b'n') 10 empty_row)

renamed_value : get lower (named b'K') row ≡ some 10
unfolding get put new_bag canonical_ident Cmap.get Cmap.put list_beq
renamed_value = refl

sizes : (len row ≡ 2) × (len empty_row ≡ 0) × (len (delete lower 0 (named b'K') row) ≡ 1)
unfolding len put delete new_bag canonical_ident Cmap.get Cmap.put list_beq
sizes = (refl, refl, refl)

keys_valid : (validate_pk lower row ≡ some true) × (validate_pk lower empty_row ≡ some false)
unfolding validate_pk put new_bag canonical_ident Cmap.get Cmap.put list_beq
keys_valid = (refl, refl)

copied : entries (copy_into lower row empty_row) ≡ entries row
unfolding entries copy_into put new_bag canonical_ident Cmap.get Cmap.put Cmap.entries list_beq
copied = refl

run_changes-IsBag_example :
    IsBag (run_changes lower 0 (putting (named b'n') 10 ∷ deleting (named b'k') ∷ []) empty_row)
run_changes-IsBag_example =
    run_changes-IsBag lower 0 row_spec (putting (named b'n') 10 ∷ deleting (named b'k') ∷ [])

abbrev sum_up : Ident → ℕ → List ℕ → List ℕ × Option ℕ
sum_up k v s = (v ∷ s, none)

all_properties_exact_example :
    has_form (named b'x') (all_properties lower row empty_row empty_row) ≡ (
      has_key lower (named b'x') (Cmap.entries empty_row.unmapped)
      || (has_key lower (named b'x') (Cmap.entries empty_row.unmapped)
          || (has_key lower (named b'x') (Cmap.entries row.unmapped)
              || has_column lower (named b'x') row.bag_spec.columns)))
all_properties_exact_example = all_properties_exact lower row empty_row empty_row (named b'x')
