-- ===== src/Hlc/Range.antt =====
-- internal/util/hlc/range.go: half-open ranges of times.
pub mod Laws
use cdc_sink.Base.{◌≡◌, Bool, true, ◌&&◌, if◌then◌else◌}
use cdc_sink.Base.Int.{pos, ltb_ℤ, leb_ℤ}
use cdc_sink.Hlc.{Time, compare, zero_time, before, next}

-- The source's array of two times.
pub record Range : Type 0 where
  pub min : Time
  pub max : Time

unfoldable pub range_empty : Range
range_empty = record { min = zero_time; max = zero_time }

unfoldable pub range_empty_at : Time → Range
range_empty_at ts = record { min = ts; max = ts }

unfoldable pub range_excluding : Time → Time → Range
range_excluding start_inclusive end_exclusive = record {
  min = start_inclusive;
  max = end_exclusive;
}

unfoldable pub range_including : Time → Time → Range
range_including start end = record { min = start; max = next end }

unfoldable pub contains : Range → Time → Bool
contains r t = leb_ℤ (compare r.min t) (pos 0) && ltb_ℤ (compare t r.max) (pos 0)

unfoldable pub empty : Range → Bool
empty r = leb_ℤ (pos 0) (compare r.min r.max)

unfoldable pub extend : Range → Time → Range
extend r include =
    if ltb_ℤ (compare include r.min) (pos 0)
    then record { min = include; max = r.max }
    else if leb_ℤ (pos 0) (compare include r.max)
    then record { min = r.min; max = next include }
    else r

unfoldable pub max_inclusive : Range → Time
max_inclusive r = before r.max

unfoldable pub with_min : Range → Time → Range
unfolding range_empty_at
with_min r min =
    if leb_ℤ (pos 0) (compare min (before r.max))
    then range_empty_at min
    else record { min = min; max = r.max }
