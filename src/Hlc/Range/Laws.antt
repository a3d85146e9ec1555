-- ===== src/Hlc/Range/Laws.antt =====
-- internal/util/hlc/range.go: what the operations of a range contain.
mod Tests
use Prim.Native.Nat.{min, max}
use cdc_sink.Base.{ℕ, ◌≡◌, Bool, true, false, ◌+◌, ◌^◌, ◌<◌, ◌≤◌, ◌↔◌, ◌⊎◌, arith, ltb, leb, ◌&&◌}
use cdc_sink.Base.Int.{ℤ, pos, pos_part, neg_part, ◌<ℤ◌}
use cdc_sink.Hlc.{Time, compare, before, next}
use cdc_sink.Hlc.Order.{
  IsTime, rank, compare-lt, compare-ge, compare-le, before_adjacent, before-rank, next_adjacent,
}
use cdc_sink.Hlc.Range.{
  Range, range_including, contains, empty, extend, with_min, max_inclusive, range_empty_at,
}

-- Both ends are times, and the first is not later than the second.
pub record IsRange (r : Range) : Type 0 where
  pub min_time : IsTime r.min
  pub max_time : IsTime r.max
  pub ordered : rank r.min ≤ rank r.max

-- The logical counter can be incremented.
abbrev pub HasRoom : Time → Type 0
HasRoom t = pos_part t.logical + 1 < 2 ^ 63

-- A time is in a range exactly from the first end up to, and not at, the second.
contains_lem :
    (r : Range) (t : Time)
    → IsTime r.min
    → IsTime r.max
    → IsTime t
    → contains r t ≡ (leb (rank r.min) (rank t) && ltb (rank t) (rank r.max))
unfolding contains
contains_lem r t h k ht = ground (arith, compare-le r.min t h ht, compare-lt t r.max ht k)

empty_lem : (r : Range) → IsTime r.min → IsTime r.max → empty r ≡ leb (rank r.max) (rank r.min)
unfolding empty
empty_lem r h k = compare-ge r.min r.max h k

-- A range whose ends have no negative part is empty exactly when it contains no such time.
pub empty_iff :
    (r : Range)
    → IsTime r.min
    → IsTime r.max
    → (empty r ≡ true) ↔ ((t : Time) → IsTime t → contains r t ≡ false)
empty_iff r h k = (
  λ e t ht. ground (arith, empty_lem r h k, contains_lem r t h k ht),
  λ all. ground (arith, empty_lem r h k, contains_lem r r.min h k h, all r.min h),
)

-- The range that `RangeIncluding` makes of two times contains just the times from the one to the
-- other, if none has a negative part and the counter of the second can be incremented.
pub range_including_exact :
    (start end t : Time)
    → IsTime start
    → IsTime end
    → HasRoom end
    → IsTime t
    → (contains (range_including start end) t ≡ true)
      ↔ ((rank start ≤ rank t) × (rank t ≤ rank end))
unfolding range_including
range_including_exact start end t hs he room ht =
    let succ = next_adjacent end he room in
    let there = contains_lem (range_including start end) t hs succ.0 ht in
    ground (arith, there, succ.1)

extend_ends :
    (r : Range) (include : Time)
    → IsRange r
    → IsTime include
    → HasRoom include
    → IsRange (extend r include)
      × (rank (extend r include).min ≡ min (rank r.min) (rank include))
      × (rank (extend r include).max ≡ max (rank r.max) (rank include + 1))
unfolding extend
extend_ends r include h hi room =
    let succ = next_adjacent include hi room in
    let low = compare-lt include r.min hi h.min_time in
    let high = compare-ge include r.max hi h.max_time in
    let a = succ.0 in
    let b = succ.1 in
    (ground (arith, low, high, a, b), ground (arith, low, high, b), ground (arith, low, high, b))

-- On a range with its ends in order, and a new time whose counter can be incremented, none of them
-- with a negative part, `Extend` keeps the ends in order, and gives the least range that has both
-- the range and the new time in it: it contains exactly the times from the earlier of the two starts on, and before the
-- old end or up to the new time, whichever is later.
pub extend_exact :
    (r : Range) (include t : Time)
    → IsRange r
    → IsTime include
    → HasRoom include
    → IsTime t
    → IsRange (extend r include)
      × ((contains (extend r include) t ≡ true) ↔ (
          (min (rank r.min) (rank include) ≤ rank t)
          × (rank t < max (rank r.max) (rank include + 1))))
extend_exact r include t h hi room ht =
    let ends = extend_ends r include h hi room in
    let v = ends.0 in
    let there = contains_lem (extend r include) t v.min_time v.max_time ht in
    (v, ground (arith, there, ends.1, ends.2))

-- Where the end of a range has a positive logical counter, and no time has a negative part, what
-- `WithMin` gives contains exactly the times from the new minimum on and before the old end, if the
-- new minimum is before the last tick under that end, and nothing if it is not.
pub with_min_cuts :
    (r : Range) (min t : Time)
    → IsTime r.max
    → pos 0 <ℤ r.max.logical
    → IsTime min
    → IsTime t
    → (contains (with_min r min) t ≡ true)
      ↔ ((rank min ≤ rank t) × (rank t < rank r.max) × (rank min + 1 < rank r.max))
unfolding with_min range_empty_at
with_min_cuts r min t hx pos_logical hm ht =
    let adj = before_adjacent r.max min hx hm pos_logical in
    let back = before-rank r.max hx pos_logical in
    let test = compare-ge min (before r.max) hm adj.0 in
    let gone = contains_lem (range_empty_at min) t hm hm ht in
    let kept = contains_lem (record { min = min; max = r.max }) t hm hx ht in
    ground (arith, back, test, gone, kept)

-- At the last tick of a nonempty range whose end has a positive logical counter, a time that the
-- range contains, `WithMin` gives an empty range.
pub with_min_drops_last :
    (r : Range)
    → IsRange r
    → pos 0 <ℤ r.max.logical
    → rank r.min < rank r.max
    → (contains r (max_inclusive r) ≡ true) × (empty (with_min r (max_inclusive r)) ≡ true)
unfolding max_inclusive with_min range_empty_at
with_min_drops_last r h pos_logical room =
    let back = before-rank r.max h.max_time pos_logical in
    let adj = before_adjacent r.max r.max h.max_time h.max_time pos_logical in
    let last = before r.max in
    let test = compare-ge last last adj.0 adj.0 in
    let there = contains_lem r last h.min_time h.max_time adj.0 in
    let gone = empty_lem (range_empty_at last) adj.0 adj.0 in
    (ground (arith, there, back), ground (arith, test, gone))
