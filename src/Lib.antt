-- ===== src/Lib.antt =====
-- cdc-sink (Replicator): services that carry changes of source databases into target databases.
--
-- Mutations arrive with a hybrid logical clock time, are staged, ordered, made unique and merged, and
-- are then written to the target. This library models the parts of that path which hold the program's
-- own logic, and leaves the SQL and the network around them out.
--
-- - internal/util/hlc is `Hlc` (`Time`, `compare`, `before`, `next`), `Hlc.Range` and `Hlc.Text`
--   (`to_text` for `String`, `parse`, `scan`). Both fields of a time are integers in the range of
--   int64, and every sum and difference goes through `int64`, the wrap-around of two's complement;
--   Go's `int` is taken to have 64 bits. `Hlc.Decimal` has what the code uses of strconv, fmt and
--   strings: ParseInt with base 0 and its prefixes and underscores, Atoi, `%d`, `%010d` and Split. A
--   decimal number is printed with at most 20 digits, and an int64 needs 19. `Hlc.Order` says what the
--   order of the clock is.
-- - internal/types is `Types` (types.go: `Mutation`, `is_delete`, `ColData`, `expand_schema`) and
--   `Types.Batch` (batches.go). JSON texts are lists of bytes, and the type of the dialect's metadata
--   is a parameter. A `MultiBatch` has a `heap` of temporal batches, so that the pointers of `ByTime`
--   and `Data` are the same places in it; an operation returns the batch that it leaves, also beside
--   an error. The sorts of the standard library are arguments, and `KeepsElements` and `SortsByPlace`
--   say what is expected of one. `Types.Batch.Into` has `CopyInto`, with an accumulator as a function
--   on a state.
-- - internal/util/msort is `Msort`: `visit` is the body of the loop of `uniqueBy` over the slice, the
--   map of indices and the start of the result, with an index out of range as a panic; `Msort.Loop`
--   relates the loop to the fold of `Msort.Compact`, and `Msort.View` that fold to what one key sees.
-- - internal/util/stamp is `Stamp` (`compare`) and `Stamp.Queue`: `enqueue`, `mark` and `dequeue` with
--   their calls of `validate`, `set_consistent` and `advance_consistent_point`. A call returns the
--   queue that it leaves, also beside an error; the panic of `Dequeue` is `none`. The interfaces
--   Stamp, Stamped and Coalescing are arguments; `IsOrder` and `KeepsStamps` say what is expected of
--   them.
-- - internal/util/lockset/queue.go is `Lockset.Queue`: pointers to waiters are addresses in a list,
--   the `heap`, that only grows, as Go would free what nothing points to. `enqueue` and `dequeue`
--   return the queue that they leave; the panics of `Dequeue` are `none`, as is a nil pointer. The
--   loop over the list of all waiters runs on fuel, which is the number of waiters on the heap.
--   `Lockset.Queue.Grants` has the states that calls lead to, with the values that may run; `Fronts`,
--   `Views`, `Stage` and `Line` are what the queues of the keys, the heap, the loop of `Dequeue` and
--   the list of all waiters keep.
-- - internal/util/lockset/lockset.go is `Lockset.Set`: a goroutine of `dispose` is a value of `Job`,
--   `work` takes it from one point at which others may come between to the next, and
--   `Lockset.Set.Runs` has every order of such turns and of the calls of `Schedule` and of the cancel
--   functions, with every result of the callbacks. The runner accepts each task, as `GoRunner` does. A
--   fallback of a RetryAtHeadErr returns or panics; a panic of a turn is `none`.
--   `Lockset.Set.Stale` is a run in which `dispose` overwrites the status of a completed task.
-- - internal/util/merge is `Merge`: `standard_merge` and `merge` of standard.go, with the callback of
--   its loop as `merge_property`. `Bags` is the interface of what they use of Bag, of identifiers and
--   of `crep.Equal`, and `IsBags` its laws, which leave open what `crep.Equal` answers; errors are
--   `none`. The state that a failed merge leaves in the bags is not in the model, since the callers
--   drop it.
-- - internal/util/merge/bag.go is `Merge.Bag`, with `allProperties` of standard.go and
--   bag_validate.go. The entries of `Mapped` are changed in place, under the key that they have.
--   `Merge.Refinement` makes the interface `Bags` of the bags of one spec, and of `crep.Equal` on
--   their values.
-- - internal/util/crep/equal.go is `Crep`: canonical values, and `equal` on them. `Canonical`, which
--   stands on encoding/json, strconv and time, is an argument.
-- - internal/util/cmap is `Cmap`: a Go map is the list of its entries in the order in which a loop
--   visits them, and a variable of the type `Map` is nil or an address with such a list. `ident.Map`
--   and `ident.TableMap` are maps of it, by canonical identifiers.
-- - internal/util/ident is `Ident` (identifiers, `string` and `raw`, `split`), `Ident.Compare`
--   (canonical forms, `compare`, `contains`), `Ident.Schema` and `Ident.Parse`. A text is a list of
--   bytes, and `Ident.Utf8` decodes runes the way utf8.DecodeRuneInString does; strings.ToLower is an
--   argument. The loops of the parser run on fuel, which is the length of the input, and tell its lack
--   from an error; the loop of `compare` has fuel for four parts, and an identifier has three.
-- - internal/sequencer/core/poison.go is `Poison`: the set of poisoned keys, and the operations that a
--   batch goes through, by `CopyInto`. `Poison.Pairs` turns a `CopyInto` into a loop over mutations.
-- - internal/util/batches is `Batches`: the loop of `Window` on fuel.
--
-- Not modelled: marshalling through encoding/json, prints for logs, locks, `Wait` of lockset.go, the
-- goroutines other than those of a Set, and every other package, among them those that consist of SQL,
-- templates, network protocols or wiring.
mod Base
pub mod Hlc
pub mod Types
pub mod Msort
pub mod Stamp
pub mod Lockset
pub mod Merge
pub mod Cmap
pub mod Crep
pub mod Ident
pub mod Batches
pub mod Poison
