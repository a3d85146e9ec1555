-- ===== src/Types/Batch/Flattened.antt =====
-- internal/types/batches.go: `Flatten` has each mutation of a multi-batch.
use cdc_sink.Base.{
  ℕ, ◌+◌, ◌<◌, ◌≡◌, refl, sym, ap, ◌∙◌, inl, inr, Bool, Option, none, some, List, [], ◌∷◌, ◌++◌,
  length, get_elem?, get_elem?-some, arith, nat_eq, list_eq, option_eq, Option-cases, All, All-get,
}
use cdc_sink.Ident.{Text, Table, table, raw}
use cdc_sink.Ident.Keys.{array_key_eq, qualified_key_eq}
use cdc_sink.Cmap
use cdc_sink.Cmap.{Cmap, Entry, find}
use cdc_sink.Cmap.Laws.{NodupKeys, AreCanonical}
use cdc_sink.Cmap.Equality.{find-skip, find-head}
use cdc_sink.Types.Batch.Ordered.{All-map}
use cdc_sink.Types.{Mutation}
use cdc_sink.Types.Batch.{TableBatch, TemporalBatch, MultiBatch, TableMap, table_form}
use cdc_sink.Types.Batch.Index.{total}
use cdc_sink.Types.Batch.Into.{
  before_by, tables_of, feed, table_copy_into, copy_tables_into, temporal_copy_into,
  copy_batches_into, multi_copy_into, append_mutation, flatten,
}

-- `sort.Slice` keeps the elements: each function has the same sum over them.
abbrev pub KeepsSlices : ((A : Type 0) → (A → A → Bool) → List A → List A) → Type 1
KeepsSlices sort =
    (A : Type 0) (less : A → A → Bool) (xs : List A) (f : A → ℕ)
    → total f (sort A less xs) ≡ total f xs

-- The map of the tables has each form once, at the form of its key.
pub record HasTables {Meta : Type 0} (to_lower : Text → Text) (b : TemporalBatch Meta)
    : Type 0 where
  pub once : NodupKeys {C = Table} b.contents
  pub canonical : AreCanonical {C = Table} (table_form to_lower) b.contents

-- The sum of a function over the mutations of tables, and of the batches at some pointers.
unfoldable pub sum_tables : {Meta : Type 0} → (Mutation Meta → ℕ) → TableMap (TableBatch Meta) → ℕ
sum_tables f [] = 0
sum_tables f ((k, e) ∷ m) = total f e.value.contents + sum_tables f m

unfoldable pub sum_batches :
    {Meta : Type 0} → (Mutation Meta → ℕ) → List (TemporalBatch Meta) → List ℕ → ℕ
unfolding sum_tables
sum_batches f heap [] = 0
sum_batches f heap (p ∷ ps) =
    let rest = sum_batches f heap ps in
    elim (get_elem? heap p) [ none ↦ rest | some b ↦ sum_tables f b.contents + rest ]

total-append_all :
    {A : Type 0} (f : A → ℕ) (xs : List A) (x : A) → total f (xs ++ x ∷ []) ≡ total f xs + f x
unfolding total
total-append_all f [] x = omega arith
total-append_all f (y ∷ xs) x = omega (arith, total-append_all f xs x)

module _ {Meta F : Type 0} (to_lower : Text → Text)
    (sort : (A : Type 0) → (A → A → Bool) → List A → List A) (keeps : KeepsSlices sort)
    (nil_pointer : F) (f : Mutation Meta → ℕ) where
  -- A run without an error that has added to the sum.
  abbrev Adds : ℕ → List (Mutation Meta) → List (Mutation Meta) × Option F → Type 0
  Adds n s r = (r.1 ≡ none) × (total f r.0 ≡ total f s + n)

  feed-Adds :
      (tbl : Table) (ms s : List (Mutation Meta))
      → Adds (total f ms) s (feed to_lower sort nil_pointer append_mutation tbl ms s)
  unfolding feed append_mutation total
  feed-Adds tbl [] s = (refl, omega arith)
  feed-Adds tbl (mut ∷ ms) s =
      let (fine, len) = feed-Adds tbl ms (s ++ mut ∷ []) in
      (fine, omega (arith, len, total-append_all f s mut))

  table_copy_into-Adds :
      (b : TableBatch Meta) (s : List (Mutation Meta))
      → Adds (total f b.contents) s (table_copy_into to_lower sort nil_pointer append_mutation b s)
  unfolding table_copy_into
  table_copy_into-Adds b s =
      let by_key = before_by (λ (mut : Mutation Meta). mut.key) in
      let sorted = sort (Mutation Meta) by_key b.contents in
      let (fine, len) = feed-Adds b.table sorted s in
      (fine, omega (arith, len, keeps (Mutation Meta) by_key b.contents f))

  -- The mutations of a table, and whether it has none.
  unfoldable count_of : TableMap (TableBatch Meta) → Table → ℕ
  count_of m tbl = elim (Cmap.get (table_form to_lower) tbl m) [
    | none ↦ 0
    | some b ↦ total f b.contents
  ]

  unfoldable lost : TableMap (TableBatch Meta) → Table → ℕ
  lost m tbl = elim (Cmap.get (table_form to_lower) tbl m) [ none ↦ 1 | some b ↦ 0 ]

  copy_tables_into-Adds :
      (m : TableMap (TableBatch Meta)) (tables : List Table) (s : List (Mutation Meta))
      → total (lost m) tables ≡ 0
      → Adds
          (total (count_of m) tables)
          s
          (copy_tables_into to_lower sort nil_pointer append_mutation m tables s)
  unfolding copy_tables_into total count_of lost
  copy_tables_into-Adds m [] s found = (refl, omega arith)
  copy_tables_into-Adds m (tbl ∷ tables) s found =
      elim (Option-cases (Cmap.get (table_form to_lower) tbl m)) [
        | inl absent ↦ absurd (ground (arith, absent, found))
        | inr (b, there) ↦
            let run = table_copy_into to_lower sort nil_pointer append_mutation b s in
            let (fine, len) = table_copy_into-Adds b s in
            let (fine', len') =
              copy_tables_into-Adds m tables run.0 (ground (arith, there, found)) in
            let step : copy_tables_into to_lower sort nil_pointer append_mutation m (tbl ∷ tables) s
                ≡ copy_tables_into to_lower sort nil_pointer append_mutation m tables run.0 =
              ground (arith, there, fine) in
            let counted : total (count_of m) (tbl ∷ tables)
                ≡ total f b.contents + total (count_of m) tables =
              ground (arith, there) in
            (
              ap (λ r. r.1) step ∙ fine',
              ap (λ r. total f r.0) step ∙ omega (arith, len, len', counted),
            )
      ]

  -- Each of some entries of a map is what the map has under its table.
  abbrev AreFound : TableMap (TableBatch Meta) → TableMap (TableBatch Meta) → Type 0
  AreFound m rows =
      All (λ (row : Table × Entry Table (TableBatch Meta)). find row.0 m ≡ some row.1) rows

  NodupKeys-AreFound : (m : TableMap (TableBatch Meta)) → NodupKeys {C = Table} m → AreFound m m
  NodupKeys-AreFound [] h = tt
  NodupKeys-AreFound ((k, e) ∷ m) h = (
    find-head k e m,
    All-map m (λ row there. find-skip k row.0 e row.1 m h.0 there) (NodupKeys-AreFound m h.1),
  )

  tables_of-total :
      (m rows : TableMap (TableBatch Meta))
      → AreFound m rows
      → AreCanonical {C = Table} (table_form to_lower) rows
      → (total (count_of m) (tables_of rows) ≡ sum_tables f rows)
        × (total (lost m) (tables_of rows) ≡ 0)
  unfolding total tables_of count_of lost sum_tables Cmap.get
  tables_of-total m [] found canonical = (refl, refl)
  tables_of-total m ((k, e) ∷ rows) found canonical =
      let (counted, none_lost) = tables_of-total m rows found.1 canonical.1 in
      let there : find (table_form to_lower e.key) m ≡ some e =
        ap (λ j. find j m) (sym canonical.0) ∙ found.0 in
      (ground (arith, there, counted), ground (arith, there, none_lost))

  temporal_copy_into-Adds :
      (b : TemporalBatch Meta) (s : List (Mutation Meta))
      → HasTables to_lower b
      → Adds
          (sum_tables f b.contents)
          s
          (temporal_copy_into to_lower sort nil_pointer append_mutation b s)
  unfolding temporal_copy_into
  temporal_copy_into-Adds b s h =
      let m = b.contents in
      let by_name = before_by (λ (tbl : Table). raw (table tbl)) in
      let sorted = sort Table by_name (tables_of m) in
      let (counted, none_lost) = tables_of-total m m (NodupKeys-AreFound m h.once) h.canonical in
      let none_lost' = keeps Table by_name (tables_of m) (lost m) ∙ none_lost in
      let (fine, len) = copy_tables_into-Adds m sorted s none_lost' in
      (fine, omega (arith, len, counted, keeps Table by_name (tables_of m) (count_of m)))

  copy_batches_into-Adds :
      (heap : List (TemporalBatch Meta)) (ps : List ℕ) (s : List (Mutation Meta))
      → All (HasTables to_lower) heap
      → All (λ p. p < length heap) ps
      → Adds
          (sum_batches f heap ps)
          s
          (copy_batches_into to_lower sort nil_pointer append_mutation heap ps s)
  unfolding copy_batches_into sum_batches total
  copy_batches_into-Adds heap [] s h known = (refl, omega arith)
  copy_batches_into-Adds heap (p ∷ ps) s h known =
      let (b, there) = get_elem?-some heap p known.0 in
      let run = temporal_copy_into to_lower sort nil_pointer append_mutation b s in
      let (fine, len) =
        temporal_copy_into-Adds b s (All-get (HasTables to_lower) heap p b h there) in
      let (fine', len') = copy_batches_into-Adds heap ps run.0 h known.1 in
      let step : copy_batches_into to_lower sort nil_pointer append_mutation heap (p ∷ ps) s
          ≡ copy_batches_into to_lower sort nil_pointer append_mutation heap ps run.0 =
        ground (arith, there, fine) in
      let counted : sum_batches f heap (p ∷ ps) ≡ sum_tables f b.contents + sum_batches f heap ps =
        ground (arith, there) in
      (ap (λ r. r.1) step ∙ fine', ap (λ r. total f r.0) step ∙ omega (arith, len, len', counted))

module _ {Meta F : Type 0} (to_lower : Text → Text)
    (sort : (A : Type 0) → (A → A → Bool) → List A → List A) (keeps : KeepsSlices sort)
    (nil_pointer : F) where
  -- `CopyInto` of a multi-batch with the callback of `Flatten` meets no nil pointer, and `Flatten` has the
  -- mutations of the batches, each as often as it is there: every function has the same sum over both. The
  -- pointers of `Data` are to be good, and each table map is to have its batches under the canonical
  -- forms of their keys, each form once; sorting is to keep the elements.
  pub multi_copy_into-flatten :
      (b : MultiBatch Meta)
      → All (λ p. p < length b.heap) b.contents
      → All (HasTables to_lower) b.heap
      → ((multi_copy_into to_lower sort nil_pointer append_mutation b []).1 ≡ none)
        × ((f : Mutation Meta → ℕ)
            → total f (flatten (multi_copy_into to_lower sort nil_pointer append_mutation b))
              ≡ sum_batches f b.heap b.contents)
  unfolding multi_copy_into total
  multi_copy_into-flatten b known h = (
    (copy_batches_into-Adds to_lower sort keeps nil_pointer (λ mut. 0) b.heap b.contents [] h
        known).0,
    λ f.
        let (fine, len) =
          copy_batches_into-Adds to_lower sort keeps nil_pointer f b.heap b.contents [] h known in
        omega (arith, len),
  )
