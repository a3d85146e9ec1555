-- ===== src/Types/Batch/Tests.antt =====
-- internal/types/batches.go on three mutations at two times.
use cdc_sink.Base.{
  ℕ, ◌+◌, ◌<◌, ◌≡◌, refl, sym, ap, ◌∙◌, true, Option, none, some, [], ◌∷◌, get_elem?, list_beq,
  subst, arith, nat_eq, list_eq, option_eq, map_get,
}
use cdc_sink.Base.Int.{pos}
use cdc_sink.Hlc.{Time, zero_time, time_eq}
use cdc_sink.Ident.{new, Table, table, qualified_empty}
use cdc_sink.Hlc
use cdc_sink.Ident.Compare.{canonical_table, equal}
use cdc_sink.Ident.CompareTotal.{equal_refl}
use cdc_sink.Ident.Keys.{array_key_eq, qualified_key_eq}
use cdc_sink.Cmap
use cdc_sink.Cmap.{Entry, find}
use cdc_sink.Types.{Mutation}
use cdc_sink.Types.Batch.{
  empty_table, TableBatch, TemporalBatch, MultiBatch, multi_empty, multi_accumulate, multi_count,
  multi_copy, less,
}
use cdc_sink.Types.Batch.Into.{multi_copy_into, append_mutation, flatten}
use cdc_sink.Types.Batch.Index.{total, pointers}
use cdc_sink.Types.Batch.Accumulated.{IsMulti, multi_accumulate-IsMulti}
use cdc_sink.Hlc.Order.{IsTime}
use cdc_sink.Types.Batch.Sample.{
  sorted-KeepsSlices, sorted, sorted-KeepsElements, sorted-SortsByPlace,
}
use cdc_sink.Types.Batch.Ordered.{IsOrdered, multi_accumulate-IsOrdered}
use cdc_sink.Types.Batch.Flattened.{HasTables, sum_batches, multi_copy_into-flatten}
use cdc_sink.Types.Batch.Index.{total}
use cdc_sink.Types.Batch.Adds.{IsSpelledAt, multi_accumulate-adds}

abbrev at_time : ℕ → Time
at_time n = record { nanos = pos n; logical = pos 0 }

abbrev mutation : ℕ → ℕ → Mutation ℕ
mutation n key = record {
  before = [];
  body = b'1' ∷ [];
  key = key ∷ [];
  meta = 0;
  time = at_time n;
}

abbrev orders : Table
orders = some (record { namespace = none; terminal = new (b'o' ∷ []) })

abbrev accumulated : Mutation ℕ → MultiBatch ℕ → MultiBatch ℕ
accumulated mut b = (multi_accumulate (λ s. s) sorted orders mut b).0

-- The second mutation is earlier than the first.
abbrev two_batches : MultiBatch ℕ
two_batches = accumulated (mutation 3 7) (accumulated (mutation 5 9) multi_empty)

two_batches_state : (two_batches.contents ≡ 1 ∷ 0 ∷ []) × (multi_count two_batches ≡ 2)
unfolding multi_accumulate multi_count sorted qualified_empty map_get Hlc.compare equal less
two_batches_state = (refl, refl)

in_order :
    flatten {F = ℕ} (
      multi_copy_into
        (λ s. s)
        (λ A. sorted)
        0
        append_mutation
        (accumulated (mutation 5 8) two_batches))
    ≡ mutation 3 7 ∷ mutation 5 8 ∷ mutation 5 9 ∷ []
unfolding multi_copy_into append_mutation multi_accumulate sorted qualified_empty map_get
    Hlc.compare equal less Cmap.get canonical_table list_beq
in_order = refl

copied :
    multi_copy (λ s. s) (accumulated (mutation 5 9) multi_empty)
    ≡ accumulated (mutation 5 9) multi_empty
unfolding multi_copy multi_accumulate qualified_empty map_get Hlc.compare equal Cmap.put
copied = refl

unnamed : (multi_accumulate (λ s. s) sorted none (mutation 5 9) two_batches).1 ≡ some empty_table
unfolding multi_accumulate qualified_empty
unnamed = refl

multi_empty-IsMulti : IsMulti (multi_empty {Meta = ℕ})
unfolding pointers total
multi_empty-IsMulti = record { index = tt; dated = tt; listed = λ f. refl }

abbrev kept : Entry Table (TableBatch ℕ)
kept = record {
  key = orders;
  value = record { contents = mutation 5 9 ∷ []; table = orders; time = at_time 5 };
}

abbrev batch : TemporalBatch ℕ
batch = record { time = at_time 5; contents = (orders, kept) ∷ [] }

abbrev one_batch : MultiBatch ℕ
one_batch = record { heap = batch ∷ []; by_time = (at_time 5, 0) ∷ []; contents = 0 ∷ [] }

one_batch-IsMulti : IsMulti one_batch
unfolding pointers map_get
one_batch-IsMulti = record {
  index = ((batch, refl, refl), refl, tt);
  dated = ((refl, tt), tt);
  listed = λ f. refl;
}

multi_accumulate-IsMulti_example : IsMulti (accumulated (mutation 3 7) one_batch)
multi_accumulate-IsMulti_example =
    multi_accumulate-IsMulti (λ s. s) sorted orders (mutation 3 7) one_batch sorted-KeepsElements
      one_batch-IsMulti

find-kept : find orders batch.contents ≡ some kept
unfolding find list_beq
find-kept = refl

abbrev the_entry : Option (Entry Table (TableBatch ℕ)) → Entry Table (TableBatch ℕ)
the_entry none = kept
the_entry (some e) = e

one_batch-IsSpelledAt : IsSpelledAt (λ s. s) sorted orders (mutation 5 8) one_batch
unfolding map_get find canonical_table
one_batch-IsSpelledAt p old at there e found =
    let first : 0 ≡ p = cc in
    let same : batch ≡ old = cc (ap (λ i. get_elem? one_batch.heap i) first ∙ there) in
    let entry : kept ≡ e =
      ap the_entry
        (sym find-kept ∙ ap (λ (b : TemporalBatch ℕ). find orders b.contents) same ∙ found) in
    subst
      (λ (x : Entry Table (TableBatch ℕ)).
        equal (λ s. s) (some (table x.value.table)) (some (table orders)) ≡ true)
      entry (equal_refl (λ s. s) (some (table orders)))

multi_accumulate-adds_example :
    ((multi_accumulate (λ s. s) sorted orders (mutation 5 8) one_batch).1 ≡ none)
    × (multi_count (accumulated (mutation 5 8) one_batch) ≡ multi_count one_batch + 1)
multi_accumulate-adds_example =
    multi_accumulate-adds (λ s. s) sorted orders (mutation 5 8) one_batch sorted-KeepsElements
      one_batch-IsMulti (unfold qualified_empty in refl) refl one_batch-IsSpelledAt

at_time-IsTime : (n : ℕ) → n < 9 → IsTime (at_time n)
at_time-IsTime n small = record {
  nanos_nonneg = refl;
  nanos_fits = omega (arith, small);
  logical_nonneg = refl;
  logical_fits = omega arith;
}

one_batch-IsOrdered : IsOrdered one_batch
one_batch-IsOrdered = record {
  timed = (at_time-IsTime 5 (omega arith), tt);
  known = (omega arith, tt);
  sorted = (tt, tt);
}

multi_accumulate-IsOrdered_example : IsOrdered (accumulated (mutation 3 7) one_batch)
multi_accumulate-IsOrdered_example =
    multi_accumulate-IsOrdered (λ s. s) sorted orders (mutation 3 7) one_batch sorted-KeepsElements
      sorted-SortsByPlace (at_time-IsTime 3 (omega arith)) one_batch-IsOrdered

batch-HasTables : HasTables (λ s. s) batch
unfolding find canonical_table
batch-HasTables = record { once = (refl, tt); canonical = (refl, tt) }

abbrev nil_pointer : ℕ
nil_pointer = 0

multi_copy_into-flatten_example :
    ((multi_copy_into (λ s. s) (λ A. sorted) nil_pointer append_mutation one_batch []).1 ≡ none)
    × ((f : Mutation ℕ → ℕ)
        → total f
            (flatten (multi_copy_into (λ s. s) (λ A. sorted) nil_pointer append_mutation one_batch))
          ≡ sum_batches f one_batch.heap one_batch.contents)
multi_copy_into-flatten_example =
    multi_copy_into-flatten (λ s. s) (λ A. sorted) sorted-KeepsSlices nil_pointer one_batch
      (omega arith, tt) (batch-HasTables, tt)
