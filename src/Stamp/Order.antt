-- ===== src/Stamp/Order.antt =====
-- internal/util/stamp/stamp.go: `Compare` on stamps that are ordered.
use cdc_sink.Base.{◌≡◌, refl, Bool, true, false, not, Option, none, some, Comparable, arith}
use cdc_sink.Base.Int.{pos, ltb_ℤ, leb_ℤ}
use cdc_sink.Stamp.{Stamps, compare}

-- `Less` orders the stamps, where two may stand at one place.
pub record IsOrder {S : Type 0} (stamps : Stamps S) : Type 0 where
  pub irreflexive : (a : S) → stamps.less a a ≡ false
  pub transitive :
      (a b c : S) → stamps.less a b ≡ true → stamps.less b c ≡ true → stamps.less a c ≡ true
  pub before_later :
      (a b c : S) → stamps.less a b ≡ true → stamps.less c b ≡ false → stamps.less a c ≡ true

module _ {S : Type 0} ⦃e : Comparable S⦄ (stamps : Stamps S) where
  -- A consistent point is before a stamp; nil is before any.
  unfoldable pub is_before : Option S → S → Bool
  is_before none s = true
  is_before (some c) s = stamps.less c s

  module _ (o : IsOrder stamps) where
    pub compare-before :
        (c : Option S) (s : S) → leb_ℤ (pos 0) (compare stamps c (some s)) ≡ not (is_before c s)
    unfolding compare is_before
    compare-before none s = refl
    compare-before (some c) s = ground (arith, e.equals_iff c s, o.irreflexive c)

    pub compare-after :
        (s : S) (c : Option S) → leb_ℤ (compare stamps (some s) c) (pos 0) ≡ not (is_before c s)
    unfolding compare is_before
    compare-after s none = refl
    compare-after s (some c) =
        ground (arith, e.equals_iff s c, o.irreflexive c, o.irreflexive s, o.transitive s c s)

    pub compare-less :
        (a b : S) → ltb_ℤ (compare stamps (some a) (some b)) (pos 0) ≡ stamps.less a b
    unfolding compare
    compare-less a b = ground (arith, e.equals_iff a b, o.irreflexive a)
