-- ===== src/Hlc/Sample.antt =====
-- Concrete times for runs and instances.
use cdc_sink.Base.{ℕ, ◌^◌, ◌<◌, arith}
use cdc_sink.Base.Int.{pos}
use cdc_sink.Hlc.{Time}
use cdc_sink.Hlc.Order.{IsTime}

abbrev pub at : ℕ → ℕ → Time
at n l = record { nanos = pos n; logical = pos l }

pub at-IsTime : (n l : ℕ) → n < 2 ^ 63 → l < 2 ^ 63 → IsTime (at n l)
at-IsTime n l hn hl = omega arith
