-- ===== src/Hlc.antt =====
-- internal/util/hlc: hybrid logical clock times.
pub mod Order
pub mod Range
pub mod Decimal
pub mod Text
pub mod Sample
use cdc_sink.Base.{ℕ, ◌≡◌, Bool, true, ◌&&◌, ◌↔◌, ◌^◌, ◌-◌, arith, if◌then◌else◌, Comparable, ◌==◌}
use cdc_sink.Base.Int.{ℤ, pos, int_eq, eqb_ℤ_iff, ltb_ℤ, int64, ◌+ℤ◌, ◌-ℤ◌}

-- Both fields hold int64 values; `int` has 64 bits.
pub record Time : Type 0 where
  pub nanos : ℤ
  pub logical : ℤ

-- The subtractions wrap. The conversion `int(c)` keeps all 64 bits.
unfoldable pub compare : Time → Time → ℤ
unfolding int64 ◌-ℤ◌
compare a b =
    let c = int64 (a.nanos -ℤ b.nanos) in if c == pos 0 then int64 (a.logical -ℤ b.logical) else c

-- The zero value, which `Zero` returns.
abbrev pub zero_time : Time
zero_time = record { nanos = pos 0; logical = pos 0 }

abbrev pub max_int32 : ℕ
max_int32 = 2 ^ 31 - 1

-- The previous tick.
unfoldable pub before : Time → Time
unfolding int64 ◌-ℤ◌
before t =
    if ltb_ℤ (pos 0) t.logical
    then record t { logical = int64 (t.logical -ℤ pos 1) }
    else record { nanos = int64 (t.nanos -ℤ pos 1); logical = pos max_int32 }

unfoldable pub next : Time → Time
unfolding int64 ◌+ℤ◌
next t = record t { logical = int64 (t.logical +ℤ pos 1) }

-- Go's `==` on the struct, which map keys use.
abbrev pub time_beq : Time → Time → Bool
time_beq a b = a.nanos == b.nanos && a.logical == b.logical

pub time_beq_iff : (a b : Time) → (time_beq a b ≡ true) ↔ (a ≡ b)
time_beq_iff a b = ground (arith, eqb_ℤ_iff a.nanos b.nanos, eqb_ℤ_iff a.logical b.logical)

instance abbrev pub time_eq : Comparable Time
time_eq = record { equals = time_beq; equals_iff = time_beq_iff }
