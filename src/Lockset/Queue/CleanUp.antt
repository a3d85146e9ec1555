-- ===== src/Lockset/Queue/CleanUp.antt =====
-- internal/util/lockset/queue.go: the loop of `Dequeue` over the list of all waiters ends.
use cdc_sink.Base.{ℕ, zero, suc, ◌≡◌, refl, true, false, none, some, List, get_elem?}
use cdc_sink.Lockset.Queue.{QueueEntry, skip_invalid}

module _ {K V : Type 0} where
  pub skip-end : (fuel : ℕ) (heap : List (QueueEntry K V)) → skip_invalid fuel heap none ≡ some none
  unfolding skip_invalid
  skip-end zero heap = refl
  skip-end (suc fuel) heap = refl

  pub skip-stop :
      (fuel : ℕ) (heap : List (QueueEntry K V)) (i : ℕ) (e : QueueEntry K V)
      → get_elem? heap i ≡ some e
      → e.valid ≡ true
      → skip_invalid (suc fuel) heap (some i) ≡ some (some i)
  unfolding skip_invalid
  skip-stop fuel heap i e at_i valid = rw (at_i, skip_invalid) (rw valid refl)

  pub skip-go :
      (fuel : ℕ) (heap : List (QueueEntry K V)) (i : ℕ) (e : QueueEntry K V)
      → get_elem? heap i ≡ some e
      → e.valid ≡ false
      → skip_invalid (suc fuel) heap (some i) ≡ skip_invalid fuel heap e.next
  unfolding skip_invalid
  skip-go fuel heap i e at_i invalid = rw (at_i, skip_invalid) (rw invalid refl)
