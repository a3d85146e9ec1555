-- ===== src/Hlc/Range/Laws/Tests.antt =====
-- Runs and instances of the laws of ranges.
use cdc_sink.Base.{◌≡◌, refl, true, false, arith}
use cdc_sink.Hlc.{compare, next}
use cdc_sink.Hlc.Sample.{at}
use cdc_sink.Hlc.Range.{Range, range_excluding, contains, empty, extend, with_min, max_inclusive}
use cdc_sink.Hlc.Range.Laws.{IsRange, with_min_drops_last}

abbrev span : Range
span = record { min = at 3 0; max = at 5 3 }

span-IsRange : IsRange span
span-IsRange = omega arith

extend_runs :
    (extend span (at 7 1) ≡ record span { max = at 7 2 })
    × (extend span (at 2 9) ≡ record span { min = at 2 9 })
    × (extend span (at 4 0) ≡ span)
unfolding extend compare next
extend_runs = (refl, refl, refl)

contains_runs :
    (contains span (at 3 0) ≡ true)
    × (contains span (at 5 3) ≡ false)
    × (contains (range_excluding (at 1 0) (at 2 0)) (at 1 7) ≡ true)
unfolding contains range_excluding compare
contains_runs = (refl, refl, refl)

with_min_drops_last_example :
    (contains span (max_inclusive span) ≡ true)
    × (empty (with_min span (max_inclusive span)) ≡ true)
with_min_drops_last_example = with_min_drops_last span span-IsRange (omega arith) (omega arith)
