-- ===== src/Poison/Pairs.antt =====
-- internal/types/batches.go: `CopyInto` with a callback that never fails is a loop over the mutations.
use cdc_sink.Base.{
  ℕ, ◌≡◌, refl, sym, ap, ◌∙◌, inl, inr, Bool, Option, List, [], ◌∷◌, ◌++◌, get_elem?, arith,
  Option-cases, nat_eq, list_eq, option_eq,
}
use cdc_sink.Ident.{Text, Table, table, raw}
use cdc_sink.Cmap
use cdc_sink.Types.{Mutation}
use cdc_sink.Types.Batch.{TableBatch, TemporalBatch, MultiBatch, TableMap, table_form}
use cdc_sink.Ident.Keys.{array_key_eq, qualified_key_eq}
use cdc_sink.Types.Batch.Into.{
  before_by, tables_of, feed, table_copy_into, copy_tables_into, temporal_copy_into,
  copy_batches_into, multi_copy_into,
}
use cdc_sink.Poison.{unfailing, copied}

-- A mutation with its table.
abbrev pub Row : Type 0 → Type 0
Row Meta = Table × Mutation Meta

abbrev pub add_row : {Meta : Type 0} → Table → Mutation Meta → List (Row Meta) → List (Row Meta)
add_row tbl mut rows = rows ++ (tbl, mut) ∷ []

-- The loop over rows.
unfoldable pub run_rows :
    {Meta S : Type 0} → (Table → Mutation Meta → S → S) → List (Row Meta) → S → S
run_rows step [] s = s
run_rows step ((tbl, mut) ∷ rows) s = run_rows step rows (step tbl mut s)

run_rows-append :
    {Meta S : Type 0} (step : Table → Mutation Meta → S → S) (rows : List (Row Meta)) (tbl : Table)
    (mut : Mutation Meta) (s : S)
    → run_rows step (rows ++ (tbl, mut) ∷ []) s ≡ step tbl mut (run_rows step rows s)
unfolding run_rows
run_rows-append step [] tbl mut s = refl
run_rows-append step ((t, m) ∷ rows) tbl mut s = run_rows-append step rows tbl mut (step t m s)

module _ (to_lower : Text → Text) (sort : (A : Type 0) → (A → A → Bool) → List A → List A)
    {Meta S : Type 0} (step : Table → Mutation Meta → S → S) (s : S) where
  -- A run of the callback is the loop over the rows of the run that collects them.
  abbrev Fused : S × Option (Unit {0}) → List (Row Meta) × Option (Unit {0}) → Type 0
  Fused r rows = r ≡ (run_rows step rows.0 s, rows.1)

  feed-Fused :
      (tbl : Table) (ms : List (Mutation Meta)) (rows : List (Row Meta))
      → Fused
          (feed to_lower sort tt (unfailing step) tbl ms (run_rows step rows s))
          (feed to_lower sort tt (unfailing add_row) tbl ms rows)
  unfolding feed
  feed-Fused tbl [] rows = refl
  feed-Fused tbl (mut ∷ ms) rows =
      ap (λ u. feed to_lower sort tt (unfailing step) tbl ms u)
        (sym (run_rows-append step rows tbl mut s))
      ∙ feed-Fused tbl ms (rows ++ (tbl, mut) ∷ [])

  table_copy_into-Fused :
      (b : TableBatch Meta) (rows : List (Row Meta))
      → Fused
          (table_copy_into to_lower sort tt (unfailing step) b (run_rows step rows s))
          (table_copy_into to_lower sort tt (unfailing add_row) b rows)
  unfolding table_copy_into
  table_copy_into-Fused b rows =
      feed-Fused b.table (sort (Mutation Meta) (before_by (λ mut. mut.key)) b.contents) rows

  copy_tables_into-Fused :
      (m : TableMap (TableBatch Meta)) (tables : List Table) (rows : List (Row Meta))
      → Fused
          (copy_tables_into to_lower sort tt (unfailing step) m tables (run_rows step rows s))
          (copy_tables_into to_lower sort tt (unfailing add_row) m tables rows)
  unfolding copy_tables_into
  copy_tables_into-Fused m [] rows = refl
  copy_tables_into-Fused m (tbl ∷ tables) rows =
      elim (Option-cases (Cmap.get (table_form to_lower) tbl m)) [
        | inl absent ↦ ground (arith, absent)
        | inr (b, there) ↦
            let run = table_copy_into to_lower sort tt (unfailing add_row) b rows in
            ground
              (arith, there, table_copy_into-Fused b rows, copy_tables_into-Fused m tables run.0)
      ]

  temporal_copy_into-Fused :
      (b : TemporalBatch Meta) (rows : List (Row Meta))
      → Fused
          (temporal_copy_into to_lower sort tt (unfailing step) b (run_rows step rows s))
          (temporal_copy_into to_lower sort tt (unfailing add_row) b rows)
  unfolding temporal_copy_into
  temporal_copy_into-Fused b rows =
      copy_tables_into-Fused b.contents
        (sort Table (before_by (λ tbl. raw (table tbl))) (tables_of b.contents)) rows

  copy_batches_into-Fused :
      (heap : List (TemporalBatch Meta)) (ps : List ℕ) (rows : List (Row Meta))
      → Fused
          (copy_batches_into to_lower sort tt (unfailing step) heap ps (run_rows step rows s))
          (copy_batches_into to_lower sort tt (unfailing add_row) heap ps rows)
  unfolding copy_batches_into
  copy_batches_into-Fused heap [] rows = refl
  copy_batches_into-Fused heap (p ∷ ps) rows = elim (Option-cases (get_elem? heap p)) [
    | inl absent ↦ ground (arith, absent)
    | inr (b, there) ↦
        let run = temporal_copy_into to_lower sort tt (unfailing add_row) b rows in
        ground
          (arith, there, temporal_copy_into-Fused b rows, copy_batches_into-Fused heap ps run.0)
  ]

-- The mutations that `CopyInto` hands over, with their tables.
unfoldable pub rows_of :
    {Meta : Type 0}
    → (Text → Text)
    → ((A : Type 0) → (A → A → Bool) → List A → List A)
    → MultiBatch Meta
    → List (Row Meta)
rows_of to_lower sort batch = copied to_lower sort add_row batch []

pub copied-rows_of :
    {Meta S : Type 0} (to_lower : Text → Text)
    (sort : (A : Type 0) → (A → A → Bool) → List A → List A) (step : Table → Mutation Meta → S → S)
    (batch : MultiBatch Meta) (s : S)
    → copied to_lower sort step batch s ≡ run_rows step (rows_of to_lower sort batch) s
unfolding rows_of run_rows multi_copy_into
copied-rows_of to_lower sort step batch s =
    ap (λ r. r.0) (copy_batches_into-Fused to_lower sort step s batch.heap batch.contents [])
