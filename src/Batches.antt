-- ===== src/Batches.antt =====
-- internal/util/batches/batches.go: windows over a number of values.
pub mod Cover
pub mod Tests
use cdc_sink.Base.{
  ℕ, zero, suc, ◌+◌, ◌-◌, ◌≡◌, Bool, true, false, Option, none, some, ltb, eqb, if◌then◌else◌,
}

-- The callback gets a half-open range and changes a state.
abbrev pub Callback : Type 0 → Type 0 → Type 0
Callback S F = ℕ → ℕ → S → S × Option F

module _ {S F : Type 0} (fn : Callback S F) where
  -- The loop of `Window` at the index `idx`; none is lack of fuel. The sizes are not negative.
  unfoldable pub window_loop : ℕ → ℕ → ℕ → ℕ → S → Option (S × Option F)
  window_loop zero idx batch_size count s = none
  window_loop (suc fuel) idx batch_size count s =
      let size = if ltb count batch_size then count else batch_size in
      let (s', error) = fn idx (idx + size) s in
      let further = window_loop fuel (idx + size) size (count - size) s' in
      elim error [
        | some failure ↦ some (s', some failure)
        | none ↦ (if eqb size count then some (s', none) else further)
      ]

  unfoldable pub window : ℕ → ℕ → ℕ → S → Option (S × Option F)
  unfolding window_loop
  window fuel batch_size count s = window_loop fuel 0 batch_size count s
