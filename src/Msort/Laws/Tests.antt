-- ===== src/Msort/Laws/Tests.antt =====
-- Runs and instances of the laws of `UniqueByKey`.
use cdc_sink.Base.{ℕ, ◌≡◌, refl, none, some, List, [], ◌∷◌, arith, nat_eq, list_eq, list_beq}
use cdc_sink.Hlc.{compare}
use cdc_sink.Hlc.Sample.{at}
use cdc_sink.Types.{Mutation}
use cdc_sink.Msort.{unique_by, unique_by_key}
use cdc_sink.Msort.Compact.{find, HasDistinctKeys}
use cdc_sink.Msort.Laws.{IsNewest, unique_by_key-IsNewest, unique_by_key_panics}

abbrev mutation : ℕ → ℕ → ℕ → Mutation (Unit {0})
mutation key value nanos = record {
  before = [];
  body = value ∷ [];
  key = key ∷ [];
  meta = tt;
  time = at nanos 0;
}

abbrev batch : List (Mutation (Unit {0}))
batch = mutation 1 10 5 ∷ mutation 2 20 6 ∷ mutation 1 11 4 ∷ mutation 2 21 7 ∷ []

unique_by_key_run : unique_by_key batch ≡ some (mutation 1 10 5 ∷ mutation 2 21 7 ∷ [])
unfolding unique_by_key unique_by list_beq compare
unique_by_key_run = refl

abbrev keyless : Mutation (Unit {0})
keyless = record (mutation 1 1 1) { key = [] }

full : (k : ℕ) → ◌≡◌ {A = List ℕ} (k ∷ []) [] → ⊥
full k e = cc

unique_by_key-IsNewest_example :
    (r : List (Mutation (Unit {0}))) × (unique_by_key batch ≡ some r)
    × HasDistinctKeys (λ m. m.key) r
    × ((k : List ℕ) → IsNewest k batch (find (λ m. m.key) k r))
unique_by_key-IsNewest_example =
    unique_by_key-IsNewest batch (full 1, (full 2, (full 1, (full 2, tt)))) (omega arith)

unique_by_key_panics_example : unique_by_key (mutation 1 1 1 ∷ keyless ∷ []) ≡ none
unique_by_key_panics_example =
    unique_by_key_panics (mutation 1 1 1 ∷ keyless ∷ []) 1 keyless refl refl
