-- ===== src/Hlc/Order.antt =====
-- internal/util/hlc/hlc.go: `Compare`, `Before` and `Next` against the order of the clock.
mod Tests
use cdc_sink.Base.{
  ℕ, ◌≡◌, ◌≢◌, refl, Bool, true, ◌+◌, ◌*◌, ◌^◌, ◌<◌, ◌≤◌, ◌↔◌, ◌⊎◌, inl, inr, arith, ltb, leb, eqb,
  ◌==◌, if◌then◌else◌,
}
use cdc_sink.Base.Int.{
  ℤ, pos, negsuc, int_eq, pos_part, neg_part, int64, InInt64, ◌-ℤ◌, ltb_ℤ, leb_ℤ, eqb_ℤ, ◌<ℤ◌, ◌≤ℤ◌,
  -ℤ_parts,
}
use cdc_sink.Hlc.{Time, compare, before, next}

-- A time that the source databases produce: neither part is negative.
pub record IsTime (t : Time) : Type 0 where
  pub nanos_nonneg : neg_part t.nanos ≡ 0
  pub nanos_fits : pos_part t.nanos < 2 ^ 63
  pub logical_nonneg : neg_part t.logical ≡ 0
  pub logical_fits : pos_part t.logical < 2 ^ 63

-- The place of a time in the order of the clock: nanoseconds first, then the logical counter.
abbrev pub rank : Time → ℕ
rank t = pos_part t.nanos * 2 ^ 63 + pos_part t.logical

-- The order of the clock, said without arithmetic.
abbrev pub IsEarlier : Time → Time → Type 0
IsEarlier a b = (a.nanos <ℤ b.nanos) ⊎ ((a.nanos ≡ b.nanos) × (a.logical <ℤ b.logical))

module _ (a b : Time) (ha : IsTime a) (hb : IsTime b) where
  pub compare-lt : ltb_ℤ (compare a b) (pos 0) ≡ ltb (rank a) (rank b)
  unfolding compare
  compare-lt = ground arith

  pub compare-ge : leb_ℤ (pos 0) (compare a b) ≡ leb (rank b) (rank a)
  unfolding compare
  compare-ge = ground arith

  pub compare-le : leb_ℤ (compare a b) (pos 0) ≡ leb (rank a) (rank b)
  unfolding compare
  compare-le = ground arith

  pub compare-eq : eqb_ℤ (compare a b) (pos 0) ≡ eqb (rank a) (rank b)
  unfolding compare
  compare-eq = ground arith

  pub rank_injective : rank a ≡ rank b → a ≡ b
  rank_injective h = ground arith

  IsEarlier-of-compare : compare a b <ℤ pos 0 → IsEarlier a b
  unfolding compare
  IsEarlier-of-compare h = ground arith

  compare-of-IsEarlier : IsEarlier a b → compare a b <ℤ pos 0
  unfolding compare
  compare-of-IsEarlier h = ground arith

  later-of-compare : pos 0 <ℤ compare a b → IsEarlier b a
  unfolding compare
  later-of-compare h = ground arith

  compare-of-later : IsEarlier b a → pos 0 <ℤ compare a b
  unfolding compare
  compare-of-later h = ground arith

  equal-of-compare : compare a b ≡ pos 0 → a ≡ b
  unfolding compare
  equal-of-compare h = ground arith

  compare-of-equal : a ≡ b → compare a b ≡ pos 0
  unfolding compare
  compare-of-equal h = ground arith

  -- On two times with no negative part, `Compare` is negative exactly when the first is earlier in
  -- the order by nanoseconds and then by the logical counter, positive exactly when the second is,
  -- and zero exactly when the two are the same time.
  pub compare_decides_order :
      ((compare a b <ℤ pos 0) ↔ IsEarlier a b)
      × ((pos 0 <ℤ compare a b) ↔ IsEarlier b a)
      × ((compare a b ≡ pos 0) ↔ (a ≡ b))
  compare_decides_order = (
    (IsEarlier-of-compare, compare-of-IsEarlier),
    (later-of-compare, compare-of-later),
    (equal-of-compare, compare-of-equal),
  )

-- Where the nanoseconds of the first of two times are larger than those of the second by 2^63 or more,
-- both being int64 values, the subtraction in `Compare` wraps around and the first, which is the later
-- one, compares as the earlier.
pub compare_overflow :
    (a b : Time)
    → InInt64 a.nanos
    → InInt64 b.nanos
    → pos (2 ^ 63) ≤ℤ a.nanos -ℤ b.nanos
    → IsEarlier b a × (compare a b <ℤ pos 0)
unfolding compare
compare_overflow a b ha hb h = (ground arith, ground arith)

pub before-rank : (t : Time) → IsTime t → pos 0 <ℤ t.logical → rank (before t) + 1 ≡ rank t
unfolding before
before-rank t ht h = ground arith

-- `Before` of a time with no negative part and a positive logical counter is the tick just under
-- it: `Next` takes it back, and no time with no negative part lies strictly between the two.
pub before_adjacent :
    (t u : Time)
    → IsTime t
    → IsTime u
    → pos 0 <ℤ t.logical
    → IsTime (before t) × (next (before t) ≡ t) × ((rank u < rank t) ↔ (rank u ≤ rank (before t)))
unfolding before next
before_adjacent t u ht hu h = (ground arith, ground arith, ground arith)

-- With any counter `Before` is an earlier time, if a nanosecond has passed.
pub before-lt :
    (t : Time) → IsTime t → pos 0 <ℤ t.nanos → IsTime (before t) × (rank (before t) < rank t)
unfolding before
before-lt t ht h = (ground arith, ground arith)

-- `Next` of a time with no negative part, the counter of which can be incremented within int64, is
-- its successor in the order of the clock, and `Before` takes it back.
pub next_adjacent :
    (t : Time)
    → IsTime t
    → pos_part t.logical + 1 < 2 ^ 63
    → IsTime (next t) × (rank (next t) ≡ rank t + 1) × (before (next t) ≡ t)
unfolding before next
next_adjacent t ht h = (ground arith, ground arith, ground arith)

sub_self : (a : ℤ) → a -ℤ a ≡ pos 0
unfolding ◌-ℤ◌
sub_self (pos n) = ground arith
sub_self (negsuc n) = ground arith

-- A time is equal to itself, whatever its fields.
pub compare_refl : (t : Time) → (compare t t == pos 0) ≡ true
unfolding compare int64
compare_refl t = rw (sub_self t.nanos, sub_self t.logical) refl
