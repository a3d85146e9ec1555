-- ===== src/Poison/Tests.antt =====
-- internal/sequencer/core/poison.go on batches of one table.
use cdc_sink.Base.{
  ℕ, ◌≡◌, ◌||◌, refl, true, false, none, some, List, [], ◌∷◌, is_seen, list_beq, nat_eq, list_eq,
}
use cdc_sink.Base.Int.{pos}
use cdc_sink.Hlc.{Time}
use cdc_sink.Ident.{Text, new, Table, raw}
use cdc_sink.Ident.Compare.{canonical_table}
use cdc_sink.Cmap
use cdc_sink.Types.{Mutation}
use cdc_sink.Types.Batch.{MultiBatch}
use cdc_sink.Types.Batch.Into.{multi_copy_into}
use cdc_sink.Types.Batch.Sample.{sorted}
use cdc_sink.Poison.{PoisonSet, new_poison_set, force_full, is_poisoned, mark_poisoned}
use cdc_sink.Poison.Pairs.{rows_of}
use cdc_sink.Poison.Contagion.{
  any_seen, has_key, rows_in, is_poisoned_exact, is_poisoned-contagious,
}

abbrev same : Text → Text
same s = s

abbrev at_five : Time
at_five = record { nanos = pos 5; logical = pos 0 }

abbrev mutation : ℕ → Mutation ℕ
mutation key = record { before = []; body = b'1' ∷ []; key = key ∷ []; meta = 0; time = at_five }

abbrev orders : Table
orders = some (record { namespace = none; terminal = new (b'o' ∷ []) })

abbrev batch_of : List (Mutation ℕ) → MultiBatch ℕ
batch_of muts = record {
  heap =
      record {
        time = at_five;
        contents =
            (
              orders,
              record {
                key = orders;
                value = record { contents = muts; table = orders; time = at_five };
              },
            )
            ∷ [];
      }
      ∷ [];
  by_time = (at_five, 0) ∷ [];
  contents = 0 ∷ [];
}

-- The keys 8 and 9, of which 9 is poisoned, and 8 alone.
abbrev both : MultiBatch ℕ
both = batch_of (mutation 9 ∷ mutation 8 ∷ [])

abbrev one : MultiBatch ℕ
one = batch_of (mutation 8 ∷ [])

abbrev poisoned_set : PoisonSet
poisoned_set = record { max_count = 10; keys = (b'o' ∷ b':' ∷ 9 ∷ []) ∷ []; full = false }

marked :
    mark_poisoned same (λ A. sorted) (batch_of (mutation 9 ∷ [])) (new_poison_set 10) ≡ poisoned_set
unfolding mark_poisoned multi_copy_into sorted canonical_table Cmap.get list_beq raw new_poison_set
    is_seen
marked = refl

-- The threshold is reached, and the keys are dropped.
overflow :
    mark_poisoned same (λ A. sorted) both (new_poison_set 2)
    ≡ record { max_count = 2; keys = []; full = true }
unfolding mark_poisoned multi_copy_into sorted canonical_table Cmap.get list_beq raw new_poison_set
    is_seen
overflow = refl

both_poisoned : (is_poisoned same (λ A. sorted) both poisoned_set).1 ≡ true
unfolding is_poisoned multi_copy_into sorted canonical_table Cmap.get list_beq raw is_seen
both_poisoned = refl

-- Alone, the key 8 is not poisoned before the other batch is looked at.
one_clean : (is_poisoned same (λ A. sorted) one poisoned_set).1 ≡ false
unfolding is_poisoned multi_copy_into sorted canonical_table Cmap.get list_beq raw is_seen
one_clean = refl

forced : (is_poisoned same (λ A. sorted) one (force_full (new_poison_set 3))).1 ≡ true
unfolding is_poisoned force_full new_poison_set
forced = refl

key_in :
    (has_key (b'o' ∷ b':' ∷ 8 ∷ []) (rows_in same (λ A. sorted) both) ≡ true)
    × (has_key (b'o' ∷ b':' ∷ 8 ∷ []) (rows_in same (λ A. sorted) one) ≡ true)
unfolding has_key rows_of multi_copy_into sorted canonical_table Cmap.get list_beq raw
key_in = (refl, refl)

is_poisoned_exact_example :
    (is_poisoned same (λ A. sorted) both poisoned_set).1
    ≡ (false || any_seen poisoned_set.keys (rows_in same (λ A. sorted) both))
is_poisoned_exact_example = is_poisoned_exact same (λ A. sorted) both poisoned_set

is_poisoned-contagious_example :
    (is_poisoned same (λ A. sorted) one (is_poisoned same (λ A. sorted) both poisoned_set).0).1
    ≡ true
is_poisoned-contagious_example =
    is_poisoned-contagious same (λ A. sorted) both one poisoned_set (b'o' ∷ b':' ∷ 8 ∷ [])
      both_poisoned key_in.0 key_in.1
