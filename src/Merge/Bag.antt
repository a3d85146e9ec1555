-- ===== src/Merge/Bag.antt =====
-- internal/util/merge/bag.go: bags of the properties of a row. `nil` is the nil of the values, and
-- `Meta`, which no operation reads, is left out.
pub mod Laws
pub mod Invariant
pub mod Visit
pub mod AllProperties
pub mod Tests
use cdc_sink.Base.{
  ℕ, ◌+◌, ◌≡◌, Bool, true, false, not, ◌||◌, Option, none, some, List, [], ◌∷◌, ◌++◌, length, eqb,
  Comparable, nat_eq, list_eq, option_eq, ◌==◌, if◌then◌else◌,
}
use cdc_sink.Types.{ColData}
use cdc_sink.Ident.{Text, Ident}
use cdc_sink.Ident.Compare.{canonical_ident}
use cdc_sink.Cmap
use cdc_sink.Cmap.{Cmap, Entry, find, store}

-- `Entry`.
pub record BagEntry (V : Type 0) : Type 0 where
  pub column : ColData
  pub valid : Bool
  pub value : V

-- `ident.Map`, without its methods.
abbrev pub IdentMap : Type 0 → Type 0
IdentMap V = Cmap Ident Ident V

pub record BagSpec : Type 0 where
  pub columns : List ColData
  pub rename : Option (IdentMap Ident)

pub record Bag (V : Type 0) : Type 0 where
  pub bag_spec : BagSpec
  pub mapped : IdentMap (BagEntry V)
  pub unmapped : IdentMap V

-- The value that the methods show of an entry.
unfoldable pub shown : {V : Type 0} → BagEntry V → Option V
shown e = if e.valid then some e.value else none

-- The loop of `Len` over the mapped entries, and the entries they contribute.
unfoldable pub count_valid : {V : Type 0} → IdentMap (BagEntry V) → ℕ
count_valid [] = 0
count_valid ((k, e) ∷ m) = let rest = count_valid m in if e.value.valid then rest + 1 else rest

unfoldable pub len : {V : Type 0} → Bag V → ℕ
unfolding count_valid
len b = count_valid b.mapped + length b.unmapped

unfoldable pub valid_entries : {V : Type 0} → IdentMap (BagEntry V) → List (Entry Ident V)
valid_entries [] = []
valid_entries ((k, e) ∷ m) =
    let rest = valid_entries m in
    if e.value.valid then record { key = e.key; value = e.value.value } ∷ rest else rest

unfoldable pub entries : {V : Type 0} → Bag V → List (Entry Ident V)
unfolding valid_entries
entries b = valid_entries b.mapped ++ Cmap.entries b.unmapped

-- `Range`: the callback of the mapped entries, and the two loops.
module _ {V S F : Type 0} (fn : Ident → V → S → S × Option F) where
  unfoldable pub range_valid : Ident → BagEntry V → S → S × Option F
  range_valid k e s = let here = fn k e.value s in if e.valid then here else (s, none)

  unfoldable pub range : Bag V → S → S × Option F
  unfolding range_valid
  range b s =
      let first = Cmap.range range_valid b.mapped s in
      let second = Cmap.range fn b.unmapped first.0 in
      elim first.1 [ none ↦ second | some error ↦ (first.0, some error) ]

module _ (to_lower : Text → Text) where
  abbrev pub form : Ident → Ident
  form k = canonical_ident to_lower k

  -- `renamed`.
  unfoldable pub renamed : BagSpec → Ident → Ident
  renamed spec key = elim spec.rename [
    | none ↦ key
    | some names ↦ elim (Cmap.get form key names) [ none ↦ key | some found ↦ found ]
  ]

  -- The loop of `NewBag` over the columns.
  unfoldable pub seed :
      {V : Type 0} → V → List ColData → IdentMap (BagEntry V) → IdentMap (BagEntry V)
  seed nil [] m = m
  seed nil (col ∷ columns) m =
      seed nil columns
        (Cmap.put form col.name (record { column = col; valid = false; value = nil }) m)

  unfoldable pub new_bag : {V : Type 0} → V → BagSpec → Bag V
  unfolding seed
  new_bag nil spec = record { bag_spec = spec; mapped = seed nil spec.columns []; unmapped = [] }

  unfoldable pub new_bag_from : {V : Type 0} → V → Bag V → Bag V
  unfolding new_bag
  new_bag_from nil b = new_bag nil b.bag_spec

  unfoldable pub get : {V : Type 0} → Ident → Bag V → Option V
  unfolding renamed shown
  get key b =
      let key' = renamed b.bag_spec key in
      elim (Cmap.get form key' b.mapped) [ some e ↦ shown e | none ↦ Cmap.get form key' b.unmapped ]

  unfoldable pub get_zero : {V : Type 0} → V → Ident → Bag V → V
  unfolding get
  get_zero nil key b = elim (get key b) [ none ↦ nil | some v ↦ v ]

  -- `Match`, with none for false.
  unfoldable pub match_entry : {V : Type 0} → Ident → Bag V → Option (Ident × V)
  unfolding renamed
  match_entry key b =
      let key' = renamed b.bag_spec key in
      elim (Cmap.match_entry form key' b.mapped) [
        | some e ↦ (if e.value.valid then some (e.key, e.value.value) else none)
        | none ↦ elim (Cmap.match_entry form key' b.unmapped) [
          | none ↦ none
          | some e ↦ some (e.key, e.value)
        ]
      ]

  -- A change through the pointer to an entry of `Mapped`, which keeps its key.
  unfoldable pub update : {V : Type 0} → Ident → Bool → V → Bag V → Option (Bag V)
  update key valid value b = elim (find (form key) b.mapped) [
    | none ↦ none
    | some e ↦
        let changed = record e { value = record e.value { valid = valid; value = value } } in
        some (record b { mapped = store (form key) changed b.mapped })
  ]

  unfoldable pub put : {V : Type 0} → Ident → V → Bag V → Bag V
  unfolding renamed update
  put key value b =
      let key' = renamed b.bag_spec key in
      elim (update key' true value b) [
        | some changed ↦ changed
        | none ↦ record b { unmapped = Cmap.put form key' value b.unmapped }
      ]

  unfoldable pub delete : {V : Type 0} → V → Ident → Bag V → Bag V
  unfolding renamed update
  delete nil key b =
      let key' = renamed b.bag_spec key in
      elim (update key' false nil b) [
        | some changed ↦ changed
        | none ↦ record b { unmapped = Cmap.delete form key' b.unmapped }
      ]

  -- `CopyInto` with another bag as the destination: the two loops.
  unfoldable pub put_all : {V : Type 0} → List (Entry Ident V) → Bag V → Bag V
  unfolding put
  put_all [] dest = dest
  put_all (e ∷ rest) dest = put_all rest (put e.key e.value dest)

  unfoldable pub copy_into : {V : Type 0} → Bag V → Bag V → Bag V
  unfolding put_all valid_entries
  copy_into b dest = put_all (Cmap.entries b.unmapped) (put_all (valid_entries b.mapped) dest)

  -- `NewBagOf` of what its arguments stand for.
  unfoldable pub new_bag_of : {V : Type 0} → V → BagSpec → IdentMap V → Bag V
  unfolding put_all new_bag
  new_bag_of nil spec given = put_all (Cmap.entries given) (new_bag nil spec)

  -- `ValidatePK`: the primary keys that are missing, which are the first columns. A column without an
  -- entry is a nil pointer, and none is the panic.
  unfoldable pub missing_keys :
      {V : Type 0} → List ColData → IdentMap (BagEntry V) → Option (List Ident)
  missing_keys [] m = some []
  missing_keys (col ∷ columns) m =
      let rest = missing_keys columns m in
      if col.primary
      then elim (Cmap.get form col.name m) [
        | none ↦ none
        | some e ↦ elim rest [
          | none ↦ none
          | some names ↦ some (if e.valid then names else col.name ∷ names)
        ]
      ]
      else some []

  unfoldable pub validate_pk : {V : Type 0} → Bag V → Option Bool
  unfolding missing_keys
  validate_pk b = elim (missing_keys b.bag_spec.columns b.mapped) [
    | none ↦ none
    | some names ↦ some (eqb (length names) 0)
  ]

  unfoldable pub validate_no_unmapped_columns : {V : Type 0} → Bag V → Bool
  validate_no_unmapped_columns b = eqb (length b.unmapped) 0

  -- `allProperties`: the columns, and then the unmapped properties of the three bags.
  unfoldable pub add_columns : List ColData → IdentMap Unit → IdentMap Unit
  add_columns [] ret = ret
  add_columns (col ∷ columns) ret =
      let added = add_columns columns (Cmap.put form col.name tt ret) in
      let skipped = add_columns columns ret in if col.primary || col.ignored then skipped else added

  unfoldable pub add_entries : {V : Type 0} → List (Entry Ident V) → IdentMap Unit → IdentMap Unit
  add_entries [] ret = ret
  add_entries (e ∷ rest) ret = add_entries rest (Cmap.put form e.key tt ret)

  unfoldable pub all_properties : {V : Type 0} → Bag V → Bag V → Bag V → IdentMap Unit
  unfolding add_columns add_entries
  all_properties proposed before target = add_entries (Cmap.entries target.unmapped) (
      add_entries (Cmap.entries before.unmapped)
        (add_entries (Cmap.entries proposed.unmapped) (add_columns proposed.bag_spec.columns [])))
