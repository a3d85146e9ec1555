-- ===== src/Stamp.antt =====
-- internal/util/stamp: queues of stamped values with a consistent point.
pub mod Order
pub mod Queue
use cdc_sink.Base.{ℕ, Bool, true, false, Option, none, some, Comparable, ◌==◌, if◌then◌else◌}
use cdc_sink.Base.Int.{ℤ, pos, negsuc}

-- The `Stamp` interface: Go's `==` comes with the type.
pub record Stamps (S : Type 0) : Type 0 where
  pub less : S → S → Bool

-- `Compare`; `none` is nil.
unfoldable pub compare : {S : Type 0} ⦃e : Comparable S⦄ → Stamps S → Option S → Option S → ℤ
compare stamps none none = pos 0
compare stamps none (some b) = negsuc 0
compare stamps (some a) none = pos 1
compare stamps (some a) (some b) =
    if a == b
    then pos 0
    else if stamps.less a b
    then negsuc 0
    else if stamps.less b a
    then pos 1
    else pos 0
