-- ===== src/Types/Batch/Dated.antt =====
-- internal/types/batches.go: the batches of the tables have the time of their transaction.
use cdc_sink.Base.{
  ◌≡◌, sym, ap, ◌∙◌, inl, inr, some, List, [], ◌∷◌, nat_eq, list_eq, option_eq, ◌==◌, arith,
  Bool-cases, Option-cases, All,
}
use cdc_sink.Base.Int.{pos, int_eq}
use cdc_sink.Hlc.{Time, zero_time, time_eq}
use cdc_sink.Hlc
use cdc_sink.Ident.{Text, Table}
use cdc_sink.Ident.Keys.{array_key_eq, qualified_key_eq}
use cdc_sink.Cmap.{Entry, find, store}
use cdc_sink.Types.{Mutation}
use cdc_sink.Types.Batch.{
  TableBatch, TemporalBatch, table_form, table_entry, table_accumulate, temporal_accumulate,
}

module _ {Meta : Type 0} (t : Time) (k : Table) where
  abbrev DatedRow : Table × Entry Table (TableBatch Meta) → Type 0
  DatedRow row = row.1.value.time ≡ t

  All-find :
      (m : List (Table × Entry Table (TableBatch Meta))) (e : Entry Table (TableBatch Meta))
      → All DatedRow m
      → find k m ≡ some e
      → e.value.time ≡ t
  unfolding find
  All-find [] e h there = cc
  All-find ((j, x) ∷ m) e h there = elim (Bool-cases (j == k)) [
    | inl same ↦
        let one : x ≡ e = ground (arith, same, there) in
        ap (λ (y : Entry Table (TableBatch Meta)). y.value.time) (sym one) ∙ h.0
    | inr other ↦ All-find m e h.1 (ground (arith, other, there))
  ]

  All-store :
      (e : Entry Table (TableBatch Meta)) (m : List (Table × Entry Table (TableBatch Meta)))
      → All DatedRow m
      → e.value.time ≡ t
      → All DatedRow (store k e m)
  unfolding store
  All-store e [] h dated = (dated, tt)
  All-store e ((j, x) ∷ m) h dated = elim (Bool-cases (j == k)) [
    | inl same ↦ rw same (dated, h.1)
    | inr other ↦ rw other (h.0, All-store e m h.1 dated)
  ]

module _ {Meta : Type 0} where
  -- The batches of the tables have the time of the whole.
  abbrev pub IsDated : TemporalBatch Meta → Type 0
  IsDated b =
      All (λ (row : Table × Entry Table (TableBatch Meta)). row.1.value.time ≡ b.time) b.contents

module _ {Meta : Type 0} (to_lower : Text → Text) where
  pub temporal_accumulate-time :
      (tbl : Table) (mut : Mutation Meta) (b : TemporalBatch Meta)
      → (temporal_accumulate to_lower tbl mut b).0.time ≡ b.time
  unfolding temporal_accumulate
  temporal_accumulate-time tbl mut b = ground arith

  table_accumulate-time :
      (tbl : Table) (mut : Mutation Meta) (b : TableBatch Meta)
      → (table_accumulate to_lower tbl mut b).0.time ≡ b.time
  unfolding table_accumulate
  table_accumulate-time tbl mut b = ground arith

  pub table_entry-time :
      (tbl : Table) (b : TemporalBatch Meta)
      → IsDated b
      → (table_entry to_lower tbl b).value.time ≡ b.time
  unfolding table_entry
  table_entry-time tbl b h = elim (Option-cases (find (table_form to_lower tbl) b.contents)) [
    | inl absent ↦ ground (arith, absent)
    | inr (e, there) ↦
        let dated = All-find b.time (table_form to_lower tbl) b.contents e h there in
        ground (arith, there, dated)
  ]

  pub temporal_accumulate-IsDated :
      (tbl : Table) (mut : Mutation Meta) (b : TemporalBatch Meta)
      → IsDated b
      → IsDated (temporal_accumulate to_lower tbl mut b).0
  unfolding temporal_accumulate
  temporal_accumulate-IsDated tbl mut b h =
      let entry = table_entry to_lower tbl b in
      let batch = (table_accumulate to_lower tbl mut entry.value).0 in
      let dated : batch.time ≡ b.time =
        table_accumulate-time tbl mut entry.value ∙ table_entry-time tbl b h in
      elim (Bool-cases (Hlc.compare b.time mut.time == pos 0)) [
        | inl same ↦ rw same (
            All-store b.time (table_form to_lower tbl) (record entry { value = batch }) b.contents h
              dated)
        | inr other ↦ rw other h
      ]
