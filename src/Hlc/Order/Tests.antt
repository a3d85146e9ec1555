-- ===== src/Hlc/Order/Tests.antt =====
-- Runs and instances of the clock's order.
use cdc_sink.Base.{◌≡◌, ◌^◌, ◌-◌, ◌↔◌, refl, arith}
use cdc_sink.Base.Int.{pos, negsuc, ◌<ℤ◌, ◌-ℤ◌}
use cdc_sink.Hlc.{Time, compare, before, max_int32}
use cdc_sink.Hlc.Sample.{at, at-IsTime}
use cdc_sink.Hlc.Order.{IsEarlier, compare_decides_order, compare_overflow}

compare_runs : (compare (at 5 3) (at 7 0) ≡ negsuc 1) × (compare (at 5 3) (at 5 1) ≡ pos 2)
unfolding compare
compare_runs = (refl, refl)

before_runs : (before (at 5 3) ≡ at 5 2) × (before (at 5 0) ≡ at 4 max_int32)
unfolding before
before_runs = (refl, refl)

compare_decides_order_example :
    ((compare (at 5 3) (at 7 0) <ℤ pos 0) ↔ IsEarlier (at 5 3) (at 7 0))
    × ((pos 0 <ℤ compare (at 5 3) (at 7 0)) ↔ IsEarlier (at 7 0) (at 5 3))
    × ((compare (at 5 3) (at 7 0) ≡ pos 0) ↔ (at 5 3 ≡ at 7 0))
compare_decides_order_example =
    compare_decides_order (at 5 3) (at 7 0) (at-IsTime 5 3 (omega arith) (omega arith))
      (at-IsTime 7 0 (omega arith) (omega arith))

abbrev last : Time
last = at (2 ^ 63 - 1) 0

abbrev before_zero : Time
before_zero = record { nanos = negsuc 0; logical = pos max_int32 }

before_zero_lem : before (at 0 0) ≡ before_zero
unfolding before
before_zero_lem = refl

compare_overflow_example : IsEarlier before_zero last × (compare last before_zero <ℤ pos 0)
unfolding ◌-ℤ◌
compare_overflow_example =
    compare_overflow last before_zero (omega arith) (omega arith) (omega arith)
