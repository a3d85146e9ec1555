-- ===== src/Lockset/Queue/Traces.antt =====
-- internal/util/lockset/queue.go: the theorems on sequences of calls, at a concrete one.
use cdc_sink.Base.{
  ℕ, ◌≡◌, ◌≢◌, refl, inl, inr, ◌↔◌, true, false, Option, some, List, [], ◌∷◌, length, nat_eq,
  map_get, map_delete, is_seen, All, arith,
}
use cdc_sink.Lockset.Queue.{enqueue, Queue, entries_of, dequeue, is_empty, peek_tail}
use cdc_sink.Lockset.Queue.Admitted.{reach-IsGranted}
use cdc_sink.Lockset.Queue.Dedup.{IsIn}
use cdc_sink.Lockset.Queue.Dequeue.{dequeue_releases, dequeue_at_tail}
use cdc_sink.Lockset.Queue.Drain.{Serving, reach-drains}
use cdc_sink.Lockset.Queue.Fronts.{without}
use cdc_sink.Lockset.Queue.Grants.{Reach, start, enqueued, dequeued, IsGranted}
use cdc_sink.Lockset.Queue.Invariant.{IsReady, IsQueue}
use cdc_sink.Lockset.Queue.Progress.{keys_of, granted_exclusive}
use cdc_sink.Lockset.Queue.Tests.{three, queue_of}
use cdc_sink.Lockset.Queue.Views.{keys_at, live_at}

-- The first of the three values may run.
three-Reach : Reach 0 three (70 ∷ [])
unfolding enqueue map_get
three-Reach =
    enqueued (3 ∷ []) 90 false
      (enqueued (2 ∷ 3 ∷ []) 80 false (enqueued (1 ∷ 2 ∷ 1 ∷ []) 70 true start refl) refl) refl

abbrev four : Queue ℕ ℕ
four = queue_of (enqueue three (4 ∷ []) 60)

-- A fourth that shares no key with the others may run at once.
four-Reach : Reach 0 four (60 ∷ 70 ∷ [])
unfolding enqueue map_get
four-Reach = enqueued (4 ∷ []) 60 true three-Reach refl

-- The second may run when the first has left.
second-Reach : (q : Queue ℕ ℕ) × Reach 0 q (80 ∷ [])
unfolding dequeue enqueue map_get map_delete
second-Reach = (_, dequeued 70 (80 ∷ []) three-Reach refl)

reach-IsGranted_example : IsQueue three × IsGranted three (70 ∷ [])
reach-IsGranted_example = reach-IsGranted 0 three (70 ∷ []) three-Reach

dequeue_releases_example :
    (ret : List ℕ) × (q' : Queue ℕ ℕ) × (dequeue 0 three 80 ≡ some (ret, true, q'))
    × IsQueue q'
    × ((k : ℕ) → entries_of k q'.queues ≡ without 1 (entries_of k three.queues))
    × (length q'.heap ≡ length three.heap)
    × (live_at q'.heap 1 ≡ Option.none)
    × ((i : ℕ)
        → i ≢ 1
        → (live_at q'.heap i ≡ live_at three.heap i) × (keys_at q'.heap i ≡ keys_at three.heap i))
    × ((v : ℕ)
        → IsIn v ret
          ↔ ((i : ℕ) × (live_at q'.heap i ≡ some v) × IsReady q' i × (IsReady three i → ⊥)))
unfolding enqueue map_get
dequeue_releases_example =
    dequeue_releases 0 three 80 1 (reach-IsGranted 0 three (70 ∷ []) three-Reach).0 refl

-- The last value is cancelled.
dequeue_at_tail_example :
    (ret : List ℕ) × (q' : Queue ℕ ℕ) × (dequeue 0 three 90 ≡ some (ret, true, q'))
    × (is_empty q' ≡ false)
    × (peek_tail q' ≡ some 0)
unfolding enqueue map_get
dequeue_at_tail_example =
    dequeue_at_tail 0 three 90 2 0 70 (reach-IsGranted 0 three (70 ∷ []) three-Reach).0 refl refl
      (λ p. omega (arith, p)) refl

granted_exclusive_example : All (λ k. is_seen k (keys_of four 70) ≡ false) (keys_of four 60)
granted_exclusive_example =
    granted_exclusive 0 four (60 ∷ 70 ∷ []) 60 70 four-Reach (inl refl) (inr (inl refl))
      (λ p. omega (arith, p))

reach-drains_example :
    (last : Queue ℕ ℕ) × (after : List ℕ) × Serving 0 three (70 ∷ []) last after
    × (is_empty last ≡ true)
reach-drains_example = reach-drains 0 three (70 ∷ []) three-Reach
