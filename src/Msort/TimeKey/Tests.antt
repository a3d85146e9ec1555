-- ===== src/Msort/TimeKey/Tests.antt =====
-- Runs and instances of the law of `UniqueByTimeKey`.
use cdc_sink.Base.{ℕ, ◌≡◌, refl, some, List, [], ◌∷◌, nat_eq, list_eq, list_beq}
use cdc_sink.Hlc.Sample.{at}
use cdc_sink.Hlc.Text.{to_text}
use cdc_sink.Hlc.Decimal.{format_int, decimal, digits, format_padded, zeros}
use cdc_sink.Types.{Mutation}
use cdc_sink.Msort.{unique_by, unique_by_time_key}
use cdc_sink.Msort.Compact.{find, HasDistinctKeys}
use cdc_sink.Msort.TimeKey.{time_key, last_of, unique_by_time_key-last_of}

abbrev mutation : ℕ → ℕ → ℕ → Mutation (Unit {0})
mutation key value nanos = record {
  before = [];
  body = value ∷ [];
  key = key ∷ [];
  meta = tt;
  time = at nanos 0;
}

-- The first and the last have one time and key; the second has the time, and the third the key.
abbrev batch : List (Mutation (Unit {0}))
batch = mutation 1 10 5 ∷ mutation 2 20 5 ∷ mutation 1 11 4 ∷ mutation 1 12 5 ∷ []

unique_by_time_key_run :
    unique_by_time_key batch ≡ some (mutation 2 20 5 ∷ mutation 1 11 4 ∷ mutation 1 12 5 ∷ [])
unfolding unique_by_time_key unique_by list_beq to_text format_int decimal digits format_padded
    zeros
unique_by_time_key_run = refl

full : (k : ℕ) → ◌≡◌ {A = List ℕ} (k ∷ []) [] → ⊥
full k e = cc

unique_by_time_key-last_of_example :
    (r : List (Mutation (Unit {0}))) × (unique_by_time_key batch ≡ some r)
    × HasDistinctKeys time_key r
    × ((k : List ℕ) → find time_key k r ≡ last_of k batch)
unique_by_time_key-last_of_example =
    unique_by_time_key-last_of batch (full 1, (full 2, (full 1, (full 1, tt))))
