-- ===== src/Types/Batch/Adds.antt =====
-- internal/types/batches.go: `Accumulate` adds one mutation.
use cdc_sink.Base.{
  ℕ, ◌+◌, ◌≡◌, refl, sym, ap, ◌∙◌, subst, inl, inr, Bool, true, false, none, some, List, [], ◌∷◌,
  ◌++◌, length, length-append, get_elem?, set, nat_eq, list_eq, option_eq, map_get, ◌==◌, arith,
  Option-cases, All-get, get_elem?-append_last,
}
use cdc_sink.Base.Int.{pos, int_eq}
use cdc_sink.Hlc.{Time, zero_time, time_eq}
use cdc_sink.Hlc
use cdc_sink.Hlc.Order.{compare_refl}
use cdc_sink.Ident.{Text, Table, table, qualified_empty}
use cdc_sink.Ident.Compare.{equal}
use cdc_sink.Ident.CompareTotal.{equal_refl}
use cdc_sink.Ident.Keys.{array_key_eq, qualified_key_eq}
use cdc_sink.Cmap.{Entry, find}
use cdc_sink.Types.{Mutation}
use cdc_sink.Types.Batch.{
  TableBatch, TemporalBatch, MultiBatch, table_form, table_entry, table_accumulate,
  temporal_accumulate, insert_batch, multi_accumulate, table_count, count_tables, temporal_count,
  count_at, multi_count,
}
use cdc_sink.Types.Batch.Index.{KeepsElements, map_get-IsIndex}
use cdc_sink.Types.Batch.Dated.{IsDated, table_entry-time}
use cdc_sink.Types.Batch.Accumulated.{IsMulti, total-insert}
use cdc_sink.Types.Batch.Counted.{
  count_tables-store, count_all-total, count_at-some, total-append_heap, total-set,
}

module _ {Meta : Type 0} (to_lower : Text → Text) where
  -- The table names the same table as the batch that is kept under its form, if there is one.
  abbrev pub IsSpelled : Table → TemporalBatch Meta → Type 0
  IsSpelled tbl b =
      (e : Entry Table (TableBatch Meta))
      → find (table_form to_lower tbl) b.contents ≡ some e
      → equal to_lower (some (table e.value.table)) (some (table tbl)) ≡ true

  table_entry-equal :
      (tbl : Table) (b : TemporalBatch Meta)
      → IsSpelled tbl b
      → equal to_lower (some (table (table_entry to_lower tbl b).value.table)) (some (table tbl))
        ≡ true
  unfolding table_entry
  table_entry-equal tbl b spelled =
      elim (Option-cases (find (table_form to_lower tbl) b.contents)) [
        | inl absent ↦ rw (absent, table_entry) (equal_refl to_lower (some (table tbl)))
        | inr (e, there) ↦ rw (there, table_entry) (spelled e there)
      ]

  table_entry-count :
      (tbl : Table) (b : TemporalBatch Meta)
      → table_count (table_entry to_lower tbl b).value
        ≡ (elim (find (table_form to_lower tbl) b.contents) [
          | none ↦ 0
          | some old ↦ table_count old.value
        ])
  unfolding table_entry table_count
  table_entry-count tbl b = ground arith

  table_accumulate-adds :
      (tbl : Table) (mut : Mutation Meta) (b : TableBatch Meta)
      → (Hlc.compare b.time mut.time == pos 0) ≡ true
      → equal to_lower (some (table b.table)) (some (table tbl)) ≡ true
      → ((table_accumulate to_lower tbl mut b).1 ≡ none)
        × (table_count (table_accumulate to_lower tbl mut b).0 ≡ table_count b + 1)
  unfolding table_accumulate table_count
  table_accumulate-adds tbl mut b timely same =
      rw (timely, same) (refl, length-append b.contents (mut ∷ []))

  -- A mutation at the time of a transaction is added to it.
  pub temporal_accumulate-adds :
      (tbl : Table) (mut : Mutation Meta) (b : TemporalBatch Meta)
      → IsDated b
      → b.time ≡ mut.time
      → IsSpelled tbl b
      → ((temporal_accumulate to_lower tbl mut b).1 ≡ none)
        × (temporal_count (temporal_accumulate to_lower tbl mut b).0 ≡ temporal_count b + 1)
  unfolding temporal_accumulate temporal_count
  temporal_accumulate-adds tbl mut b dated at spelled =
      let entry = table_entry to_lower tbl b in
      let timely : (Hlc.compare b.time mut.time == pos 0) ≡ true =
        subst (λ t. (Hlc.compare b.time t == pos 0) ≡ true) at (compare_refl b.time) in
      let entry_timely : (Hlc.compare entry.value.time mut.time == pos 0) ≡ true =
        subst (λ t. (Hlc.compare t mut.time == pos 0) ≡ true)
          (sym (table_entry-time to_lower tbl b dated)) timely in
      let (fine, more) =
        table_accumulate-adds tbl mut entry.value entry_timely (table_entry-equal tbl b spelled) in
      let batch = (table_accumulate to_lower tbl mut entry.value).0 in
      let stored =
        count_tables-store (table_form to_lower tbl) (record entry { value = batch }) b.contents in
      rw timely (fine, omega (arith, more, stored, table_entry-count tbl b))

module _ {Meta : Type 0} (to_lower : Text → Text) (sort : (ℕ → ℕ → Bool) → List ℕ → List ℕ) where
  multi_count-set :
      (b : MultiBatch Meta) (p : ℕ) (old x : TemporalBatch Meta)
      → IsMulti b
      → get_elem? b.heap p ≡ some old
      → map_get old.time b.by_time ≡ some p
      → temporal_count x ≡ temporal_count old + 1
      → multi_count (record b { heap = set b.heap p x }) ≡ multi_count b + 1
  unfolding multi_count
  multi_count-set b p old x h there at_time grown = omega (
    arith,
    count_all-total (set b.heap p x) b.contents,
    count_all-total b.heap b.contents,
    h.listed (count_at (set b.heap p x)),
    h.listed (count_at b.heap),
    total-set b.heap p old x there b.by_time h.index at_time grown,
  )

  multi_count-insert :
      (b : MultiBatch Meta) (x : TemporalBatch Meta)
      → KeepsElements sort
      → IsMulti b
      → multi_count (insert_batch sort x b) ≡ multi_count b + temporal_count x
  unfolding multi_count insert_batch
  multi_count-insert b x keeps h =
      let heap = b.heap ++ x ∷ [] in
      let f = count_at heap in
      omega (
        arith,
        count_all-total heap (insert_batch sort x b).contents,
        count_all-total b.heap b.contents,
        total-insert sort x b f keeps,
        h.listed f,
        h.listed (count_at b.heap),
        total-append_heap b.heap x b.by_time h.index,
        count_at-some heap (length b.heap) x (get_elem?-append_last b.heap (length b.heap) x refl),
      )

  -- The table names the same table as the batch of that time that is kept under its form.
  abbrev pub IsSpelledAt : Table → Mutation Meta → MultiBatch Meta → Type 0
  IsSpelledAt tbl mut b =
      (p : ℕ) (old : TemporalBatch Meta)
      → map_get mut.time b.by_time ≡ some p
      → get_elem? b.heap p ≡ some old
      → IsSpelled to_lower tbl old

  -- A mutation with a time, for a table with a name, is accepted by a multi-batch, and counts for
  -- one more, wherever it belongs in the batch: it needs only that the table is `Equal` to the one with
  -- the same canonical form that the batch has at that time, if there is one. The index of the batch is
  -- to be right, and sorting is to keep the elements.
  pub multi_accumulate-adds :
      (tbl : Table) (mut : Mutation Meta) (b : MultiBatch Meta)
      → KeepsElements sort
      → IsMulti b
      → qualified_empty tbl ≡ false
      → (mut.time == zero_time) ≡ false
      → IsSpelledAt tbl mut b
      → ((multi_accumulate to_lower sort tbl mut b).1 ≡ none)
        × (multi_count (multi_accumulate to_lower sort tbl mut b).0 ≡ multi_count b + 1)
  unfolding multi_accumulate temporal_count count_tables
  multi_accumulate-adds tbl mut b keeps h named timed spelled =
      elim (Option-cases (map_get mut.time b.by_time)) [
        | inr (p, at_time) ↦
            let (old, there, time) = map_get-IsIndex b.heap b.by_time mut.time p h.index at_time in
            let dated = All-get IsDated b.heap p old h.dated there in
            let (fine, more) =
              temporal_accumulate-adds to_lower tbl mut old dated time
                (spelled p old at_time there) in
            let at_old : map_get old.time b.by_time ≡ some p =
              ap (λ t. map_get t b.by_time) time ∙ at_time in
            let x = (temporal_accumulate to_lower tbl mut old).0 in
            let run : multi_accumulate to_lower sort tbl mut b
                ≡ (record b { heap = set b.heap p x }, none) =
              ground (arith, named, timed, at_time, there, fine) in
            (
              ap (λ r. r.1) run,
              ap (λ r. multi_count r.0) run ∙ multi_count-set b p old x h there at_old more,
            )
        | inl fresh ↦
            let new : TemporalBatch Meta = record { time = mut.time; contents = [] } in
            let (fine, more) =
              temporal_accumulate-adds to_lower tbl mut new tt refl (λ e there. cc) in
            let x = (temporal_accumulate to_lower tbl mut new).0 in
            let run : multi_accumulate to_lower sort tbl mut b ≡ (insert_batch sort x b, none) =
              ground (arith, named, timed, fresh, fine) in
            (
              ap (λ r. r.1) run,
              ap (λ r. multi_count r.0) run
                  ∙ multi_count-insert b x keeps h
                  ∙ ap (λ n. multi_count b + n) more,
            )
      ]
