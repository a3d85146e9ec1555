-- ===== src/Types/Batch/Into.antt =====
-- internal/types/batches.go: `CopyInto` and what is built on it. `sort.Slice` is an argument, and so is
-- the failure that stands for the panic on a nil pointer.
use cdc_sink.Base.{
  ℕ, Bool, Option, none, some, List, [], ◌∷◌, ◌++◌, get_elem?, nat_eq, list_eq, option_eq,
}
use cdc_sink.Base.Int.{pos, ltb_ℤ}
use cdc_sink.Ident.{Text, Table, table, compare_text, raw}
use cdc_sink.Ident.Keys.{array_key_eq, qualified_key_eq}
use cdc_sink.Cmap
use cdc_sink.Cmap.{Cmap, Entry}
use cdc_sink.Types.{Mutation}
use cdc_sink.Types.Batch.{Accumulate, TableBatch, TemporalBatch, MultiBatch, TableMap, table_form}

-- The test of a `sort.Slice` by a text of the elements.
unfoldable pub before_by : {A : Type 0} → (A → Text) → A → A → Bool
unfolding compare_text
before_by text x y = ltb_ℤ (compare_text (text x) (text y)) (pos 0)

unfoldable pub tables_of : {V : Type 0} → TableMap V → List Table
tables_of [] = []
tables_of ((k, e) ∷ m) = e.key ∷ tables_of m

module _ (to_lower : Text → Text) (sort : (A : Type 0) → (A → A → Bool) → List A → List A)
    {Meta S F : Type 0} (nil_pointer : F) (acc : Accumulate Meta S F) where
  -- The loop of `TableBatch.CopyInto`, which the first error ends.
  unfoldable pub feed : Table → List (Mutation Meta) → S → S × Option F
  feed tbl [] s = (s, none)
  feed tbl (mut ∷ rest) s =
      let (s', error) = acc tbl mut s in
      let further = feed tbl rest s' in
      elim error [ none ↦ further | some failure ↦ (s', some failure) ]

  unfoldable pub table_copy_into : TableBatch Meta → S → S × Option F
  unfolding feed before_by
  table_copy_into b s =
      feed b.table (sort (Mutation Meta) (before_by (λ mut. mut.key)) b.contents) s

  -- The loop of `TemporalBatch.CopyInto` over the sorted tables.
  unfoldable pub copy_tables_into : TableMap (TableBatch Meta) → List Table → S → S × Option F
  unfolding table_copy_into
  copy_tables_into m [] s = (s, none)
  copy_tables_into m (tbl ∷ tables) s = elim (Cmap.get (table_form to_lower) tbl m) [
    | none ↦ (s, some nil_pointer)
    | some b ↦
        let (s', error) = table_copy_into b s in
        let further = copy_tables_into m tables s' in
        elim error [ none ↦ further | some failure ↦ (s', some failure) ]
  ]

  unfoldable pub temporal_copy_into : TemporalBatch Meta → S → S × Option F
  unfolding copy_tables_into tables_of before_by
  temporal_copy_into b s =
      copy_tables_into b.contents
        (sort Table (before_by (λ tbl. raw (table tbl))) (tables_of b.contents)) s

  -- The loop of `MultiBatch.CopyInto`.
  unfoldable pub copy_batches_into : List (TemporalBatch Meta) → List ℕ → S → S × Option F
  unfolding temporal_copy_into
  copy_batches_into heap [] s = (s, none)
  copy_batches_into heap (p ∷ ps) s = elim (get_elem? heap p) [
    | none ↦ (s, some nil_pointer)
    | some b ↦
        let (s', error) = temporal_copy_into b s in
        let further = copy_batches_into heap ps s' in
        elim error [ none ↦ further | some failure ↦ (s', some failure) ]
  ]

  unfoldable pub multi_copy_into : MultiBatch Meta → S → S × Option F
  unfolding copy_batches_into
  multi_copy_into b s = copy_batches_into b.heap b.contents s

-- The callbacks of `Flatten` and `FlattenByTable`.
unfoldable pub append_mutation : {Meta F : Type 0} → Accumulate Meta (List (Mutation Meta)) F
append_mutation tbl mut ret = (ret ++ mut ∷ [], none)

unfoldable pub append_by_table :
    {Meta F : Type 0} → (Text → Text) → Accumulate Meta (TableMap (List (Mutation Meta))) F
append_by_table to_lower tbl mut ret =
    let old = Cmap.get_zero (table_form to_lower) [] tbl ret in
    (Cmap.put (table_form to_lower) tbl (old ++ mut ∷ []) ret, none)

-- `Flatten` and `FlattenByTable` of a batch, by its `CopyInto`; the error is ignored.
abbrev pub flatten :
    {Meta F : Type 0}
    → (List (Mutation Meta) → List (Mutation Meta) × Option F)
    → List (Mutation Meta)
flatten copy_into = (copy_into []).0

abbrev pub flatten_by_table :
    {Meta F : Type 0}
    → (TableMap (List (Mutation Meta)) → TableMap (List (Mutation Meta)) × Option F)
    → TableMap (List (Mutation Meta))
flatten_by_table copy_into = (copy_into []).0
