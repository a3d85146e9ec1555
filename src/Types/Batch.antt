-- ===== src/Types/Batch.antt =====
-- internal/types/batches.go: batches of mutations. `Meta` is the type of the metadata of a mutation.
-- A pointer to a `TemporalBatch` is its place in the heap of the multi-batch that has allocated it; a
-- pointer to a `TableBatch` stands in one table map only, and is what it points to. The
-- fields `Data` are `contents`.
pub mod Into
pub mod Index
pub mod Dated
pub mod Accumulated
pub mod Counted
pub mod Adds
pub mod Ordered
pub mod Sample
pub mod Flattened
pub mod Tests
use cdc_sink.Base.{
  ℕ, zero, suc, ◌+◌, ◌≡◌, Bool, true, false, ◌&&◌, Option, none, some, List, [], ◌∷◌, ◌++◌, length,
  get_elem?, set, map, ltb, Comparable, nat_eq, list_eq, option_eq, map_get, map_put, ◌==◌,
  if◌then◌else◌,
}
use cdc_sink.Base.Int.{ℤ, pos, int_eq, ltb_ℤ}
use cdc_sink.Hlc.{Time, zero_time, time_eq}
use cdc_sink.Hlc
use cdc_sink.Ident.{Text, Table, Identifier, table, qualified_empty, compare_text, raw}
use cdc_sink.Ident.Compare.{canonical_table, equal}
use cdc_sink.Ident.Keys.{array_key_eq, qualified_key_eq}
use cdc_sink.Cmap
use cdc_sink.Cmap.{Cmap, Entry, find, store}
use cdc_sink.Types.{Mutation}

pub data Failure : Type 0 where
  empty_table zero_mutation_time other_time other_table : Failure

-- `ident.TableMap`, without its methods.
abbrev pub TableMap : Type 0 → Type 0
TableMap V = Cmap Table Table V

pub record TableBatch (Meta : Type 0) : Type 0 where
  pub contents : List (Mutation Meta)
  pub table : Table
  pub time : Time

pub record TemporalBatch (Meta : Type 0) : Type 0 where
  pub time : Time
  pub contents : TableMap (TableBatch Meta)

pub record MultiBatch (Meta : Type 0) : Type 0 where
  pub heap : List (TemporalBatch Meta)
  pub by_time : List (Time × ℕ)
  pub contents : List ℕ

-- The type of `Accumulate`, on the state of the accumulator: the new state and the error.
abbrev pub Accumulate : Type 0 → Type 0 → Type 0 → Type 0
Accumulate Meta S F = Table → Mutation Meta → S → S × Option F

module _ {Meta : Type 0} where
  -- `Empty` of the three kinds of batch.
  abbrev pub table_empty : TableBatch Meta → TableBatch Meta
  table_empty b = record { contents = []; table = b.table; time = b.time }

  abbrev pub temporal_empty : TemporalBatch Meta → TemporalBatch Meta
  temporal_empty b = record { time = b.time; contents = [] }

  abbrev pub multi_empty : MultiBatch Meta
  multi_empty = record { heap = []; by_time = []; contents = [] }

  -- `Count` of the three.
  unfoldable pub table_count : TableBatch Meta → ℕ
  table_count b = length b.contents

  unfoldable pub count_tables : TableMap (TableBatch Meta) → ℕ
  unfolding table_count
  count_tables [] = 0
  count_tables ((k, e) ∷ m) = table_count e.value + count_tables m

  unfoldable pub temporal_count : TemporalBatch Meta → ℕ
  unfolding count_tables
  temporal_count b = count_tables b.contents

  -- A pointer that is off the heap does not occur.
  unfoldable pub count_at : List (TemporalBatch Meta) → ℕ → ℕ
  unfolding temporal_count
  count_at heap p = elim (get_elem? heap p) [ none ↦ 0 | some b ↦ temporal_count b ]

  unfoldable pub count_all : List (TemporalBatch Meta) → List ℕ → ℕ
  unfolding count_at
  count_all heap [] = 0
  count_all heap (p ∷ ps) = count_at heap p + count_all heap ps

  unfoldable pub multi_count : MultiBatch Meta → ℕ
  unfolding count_all
  multi_count b = count_all b.heap b.contents

  -- `Less` of two elements, by their pointers.
  unfoldable pub less : List (TemporalBatch Meta) → ℕ → ℕ → Bool
  less heap i j = elim (get_elem? heap i) [
    | none ↦ false
    | some a ↦ elim (get_elem? heap j) [
      | none ↦ false
      | some b ↦ ltb_ℤ (Hlc.compare a.time b.time) (pos 0)
    ]
  ]

  -- The end of `MultiBatch.Accumulate`, for a batch that is new.
  unfoldable pub insert_batch :
      ((ℕ → ℕ → Bool) → List ℕ → List ℕ) → TemporalBatch Meta → MultiBatch Meta → MultiBatch Meta
  insert_batch sort batch b =
      let p = length b.heap in
      let heap = b.heap ++ batch ∷ [] in
      let contents = b.contents ++ p ∷ [] in
      record {
        heap = heap;
        by_time = map_put batch.time p b.by_time;
        contents = if ltb 1 (length contents) then sort (less heap) contents else contents;
      }

-- The key of a table in a `TableMap`.
abbrev pub table_form : (Text → Text) → Table → Table
table_form to_lower t = canonical_table to_lower t

module _ (to_lower : Text → Text) {Meta : Type 0} where
  unfoldable pub table_accumulate : Accumulate Meta (TableBatch Meta) Failure
  table_accumulate tbl mut b =
      if Hlc.compare b.time mut.time == pos 0
      then if equal to_lower (some (table b.table)) (some (table tbl))
        then (record b { contents = b.contents ++ mut ∷ [] }, none)
        else (b, some other_table)
      else (b, some other_time)

  -- The batch of a table, new if there was none, and where it is kept.
  unfoldable pub table_entry : Table → TemporalBatch Meta → Entry Table (TableBatch Meta)
  unfolding find
  table_entry tbl b = elim (find (table_form to_lower tbl) b.contents) [
    | none ↦ record { key = tbl; value = record { contents = []; table = tbl; time = b.time } }
    | some e ↦ e
  ]

  unfoldable pub temporal_accumulate : Accumulate Meta (TemporalBatch Meta) Failure
  unfolding table_accumulate table_entry store
  temporal_accumulate tbl mut b =
      let entry = table_entry tbl b in
      let (batch, error) = table_accumulate tbl mut entry.value in
      if Hlc.compare b.time mut.time == pos 0
      then (
        record b {
          contents = store (table_form to_lower tbl) (record entry { value = batch }) b.contents;
        },
        error,
      )
      else (b, some other_time)

  -- `sort.Sort`, by what `Less` answers for two elements, is an argument. A pointer of `ByTime` that is
  -- off the heap does not occur, and nothing is done for it.
  unfoldable pub multi_accumulate :
      ((ℕ → ℕ → Bool) → List ℕ → List ℕ) → Accumulate Meta (MultiBatch Meta) Failure
  unfolding temporal_accumulate insert_batch
  multi_accumulate sort tbl mut b =
      if qualified_empty tbl
      then (b, some empty_table)
      else if mut.time == zero_time
      then (b, some zero_mutation_time)
      else elim (map_get mut.time b.by_time) [
        | some p ↦ elim (get_elem? b.heap p) [
          | none ↦ (b, none)
          | some existing ↦
              let (batch, error) = temporal_accumulate tbl mut existing in
              (record b { heap = set b.heap p batch }, error)
        ]
        | none ↦
            let (batch, error) =
              temporal_accumulate tbl mut (record { time = mut.time; contents = [] }) in
            elim error [
              | some failure ↦ (b, some failure)
              | none ↦ (insert_batch sort batch b, none)
            ]
      ]

  -- `TemporalBatch.Copy`; the copy of a `TableBatch` is the same to the model.
  unfoldable pub copy_tables :
      TableMap (TableBatch Meta) → TableMap (TableBatch Meta) → TableMap (TableBatch Meta)
  copy_tables [] ret = ret
  copy_tables ((k, e) ∷ m) ret = copy_tables m (Cmap.put (table_form to_lower) e.key e.value ret)

  unfoldable pub temporal_copy : TemporalBatch Meta → TemporalBatch Meta
  unfolding copy_tables
  temporal_copy b = record { time = b.time; contents = copy_tables b.contents [] }

  -- The loop of `MultiBatch.Copy`, for the pointers that are left.
  unfoldable pub copy_loop : List (TemporalBatch Meta) → List ℕ → MultiBatch Meta → MultiBatch Meta
  unfolding temporal_copy
  copy_loop heap [] ret = ret
  copy_loop heap (p ∷ ps) ret = elim (get_elem? heap p) [
    | none ↦ copy_loop heap ps ret
    | some batch ↦
        let q = length ret.heap in
        copy_loop heap ps (record {
          heap = ret.heap ++ temporal_copy batch ∷ [];
          by_time = map_put batch.time q ret.by_time;
          contents = ret.contents ++ q ∷ [];
        })
  ]

  unfoldable pub multi_copy : MultiBatch Meta → MultiBatch Meta
  unfolding copy_loop
  multi_copy b = copy_loop b.heap b.contents multi_empty
