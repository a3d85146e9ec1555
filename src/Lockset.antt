-- ===== src/Lockset.antt =====
-- internal/util/lockset: in-order admission of values that share keys.
pub mod Queue
pub mod Set
