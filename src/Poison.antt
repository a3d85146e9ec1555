-- ===== src/Poison.antt =====
-- internal/sequencer/core/poison.go: the keys that may not be processed any more. An operation is what it
-- does between `Lock` and `Unlock`; the two parts of `IsPoisoned` run without another in between.
pub mod Pairs
pub mod Contagion
pub mod Tests
use cdc_sink.Base.{
  ℕ, ◌≡◌, Bool, true, false, not, ◌&&◌, Option, none, some, List, [], ◌∷◌, ◌++◌, length, leb, eqb,
  is_seen, Comparable, nat_eq, list_eq, ◌==◌, if◌then◌else◌,
}
use cdc_sink.Ident.{Text, Table, Identifier, table, raw}
use cdc_sink.Types.{Mutation}
use cdc_sink.Types.Batch.{Accumulate, MultiBatch}
use cdc_sink.Types.Batch.Into.{multi_copy_into}

-- The map of the keys is a list without duplicates. A threshold is not negative.
pub record PoisonSet : Type 0 where
  pub max_count : ℕ
  pub keys : List Text
  pub full : Bool

-- `fmt.Sprintf("%s:%s", table.Raw(), mut.Key)`.
unfoldable pub poison_key : {Meta : Type 0} → Table → Mutation Meta → Text
unfolding raw
poison_key tbl mut = raw (table tbl) ++ (b':' ∷ mut.key)

unfoldable pub insert_key : Text → List Text → List Text
insert_key key keys = if is_seen key keys then keys else key ∷ keys

unfoldable pub new_poison_set : ℕ → PoisonSet
new_poison_set max_count = record { max_count = max_count; keys = []; full = false }

unfoldable pub force_full : PoisonSet → PoisonSet
force_full p = record p { full = true }

unfoldable pub is_clean : PoisonSet → Bool
is_clean p = not p.full && eqb (length p.keys) 0

unfoldable pub is_full : PoisonSet → Bool
is_full p = p.full

-- The callback of `toPoison`, on the keys to contaminate and whether a key is poisoned.
unfoldable pub check_key :
    {Meta : Type 0} → List Text → Table → Mutation Meta → List Text × Bool → List Text × Bool
unfolding poison_key insert_key
check_key keys tbl mut (to_contaminate, is_poisoned) =
    let key = poison_key tbl mut in
    if is_seen key keys
    then (to_contaminate, true)
    else (insert_key key to_contaminate, is_poisoned)

-- The callback of `MarkPoisoned`.
unfoldable pub mark_key : {Meta : Type 0} → Table → Mutation Meta → List Text → List Text
unfolding poison_key insert_key
mark_key tbl mut keys = insert_key (poison_key tbl mut) keys

-- The loop of `IsPoisoned` over the keys to contaminate.
unfoldable pub insert_all : List Text → List Text → List Text
unfolding insert_key
insert_all [] keys = keys
insert_all (key ∷ rest) keys = insert_all rest (insert_key key keys)

-- The second part of `IsPoisoned`.
unfoldable pub contaminate : List Text → PoisonSet → PoisonSet
unfolding insert_all
contaminate to_contaminate p =
    let keys = insert_all to_contaminate p.keys in
    if eqb (length to_contaminate) 0
    then p
    else if p.full
    then p
    else record p { keys = keys; full = leb p.max_count (length keys) }

-- An accumulator that never fails.
abbrev pub unfailing :
    {Meta S : Type 0} → (Table → Mutation Meta → S → S) → Accumulate Meta S (Unit {0})
unfailing step tbl mut s = (step tbl mut s, none)

module _ (to_lower : Text → Text) (sort : (A : Type 0) → (A → A → Bool) → List A → List A)
    {Meta : Type 0} where
  -- `CopyInto` with a callback that never fails; the error is ignored.
  abbrev pub copied : {S : Type 0} → (Table → Mutation Meta → S → S) → MultiBatch Meta → S → S
  copied step batch s = (multi_copy_into to_lower sort tt (unfailing step) batch s).0

  unfoldable pub to_poison : MultiBatch Meta → PoisonSet → List Text × Bool
  unfolding check_key
  to_poison batch p =
      let found = copied (check_key p.keys) batch ([], false) in
      if p.full
      then ([], true)
      else if eqb (length p.keys) 0
      then ([], false)
      else if found.1
      then (found.0, true)
      else ([], false)

  unfoldable pub is_poisoned : MultiBatch Meta → PoisonSet → PoisonSet × Bool
  unfolding to_poison contaminate
  is_poisoned batch p =
      let found = to_poison batch p in if found.1 then (contaminate found.0 p, true) else (p, false)

  unfoldable pub mark_poisoned : MultiBatch Meta → PoisonSet → PoisonSet
  unfolding mark_key
  mark_poisoned batch p =
      let keys = copied mark_key batch p.keys in
      if p.full
      then p
      else if leb p.max_count (length keys)
      then record p { keys = []; full = true }
      else record p { keys = keys; full = false }
