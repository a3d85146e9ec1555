-- ===== src/Lockset/Set/Stale.antt =====
-- internal/util/lockset/lockset.go: a run in which the status of a completed task is overwritten.
use cdc_sink.Base.{
  ℕ, ◌≡◌, refl, true, false, Option, none, some, List, [], ◌∷◌, nat_eq, option_eq, map_get,
  map_delete, get_elem?,
}
use cdc_sink.Lockset.Queue.{enqueue, dequeue, has_elt, elt_of}
use cdc_sink.Lockset.Set.{
  Status, callback, Result, ok, retry_at_head, Job, pending, running, dequeuing, peeking, checking,
  marking, Tasks, dispose_all, fn_at, schedule, work, new_tasks,
}
use cdc_sink.Lockset.Set.Runs.{Runs, at_start, one_more, scheduled, worked}
use cdc_sink.Lockset.Set.Tests.{state, with_jobs}

-- The turn of a goroutine, with the others.
abbrev turn : Job → Result ℕ → List Job → Tasks ℕ ℕ → Tasks ℕ ℕ
turn j result rest s = state (work 9 j result (with_jobs rest s))

-- Two tasks without a key in common run; the first returns, and leaves the queue.
abbrev both : Tasks ℕ ℕ
both = state (schedule 8 (2 ∷ []) (state (schedule 8 (1 ∷ []) new_tasks)))

abbrev first_runs : Tasks ℕ ℕ
first_runs = turn (pending 0 false) ok (pending 1 false ∷ []) both

abbrev second_runs : Tasks ℕ ℕ
second_runs = turn (pending 1 false) ok (running 0 callback true ∷ []) first_runs

abbrev first_returned : Tasks ℕ ℕ
first_returned = turn (running 0 callback true) ok (running 1 callback false ∷ []) second_runs

abbrev first_left : Tasks ℕ ℕ
first_left = turn (dequeuing 0) ok (running 1 callback false ∷ []) first_returned

-- The second asks to be retried and is at the head by then, so that its goroutine starts it again; the
-- goroutine of the first finds it at the head, asking for a retry.
abbrev second_asks : Tasks ℕ ℕ
second_asks = turn (running 1 callback false) (retry_at_head none) (peeking [] ∷ []) first_left

abbrev head_found : Tasks ℕ ℕ
head_found = turn (peeking []) ok (pending 1 false ∷ []) second_asks

abbrev head_asks : Tasks ℕ ℕ
head_asks = turn (checking [] (some 1)) ok (pending 1 false ∷ []) head_found

-- It runs to its end before that goroutine sets its status.
abbrev again : Tasks ℕ ℕ
again = turn (pending 1 false) ok (marking [] 1 ∷ []) head_asks

abbrev succeeded : Tasks ℕ ℕ
succeeded = turn (running 1 callback true) ok (marking [] 1 ∷ []) again

abbrev overwritten : Tasks ℕ ℕ
overwritten = turn (marking [] 1) ok (dequeuing 1 ∷ []) succeeded

abbrev status_at : Tasks ℕ ℕ → ℕ → Option (Status ℕ)
status_at s w = elim (get_elem? s.waiters w) [ none ↦ none | some x ↦ some x.status ]

both-Runs : Runs 9 8 both
unfolding schedule enqueue dequeue work map_get map_delete has_elt elt_of dispose_all
both-Runs = one_more (one_more at_start (scheduled (1 ∷ []) refl)) (scheduled (2 ∷ []) refl)

first_runs-Runs : Runs 9 8 first_runs
unfolding schedule enqueue dequeue work map_get map_delete has_elt elt_of dispose_all
first_runs-Runs =
    one_more both-Runs (worked [] (pending 1 false ∷ []) (pending 0 false) ok refl refl)

second_runs-Runs : Runs 9 8 second_runs
unfolding schedule enqueue dequeue work map_get map_delete has_elt elt_of dispose_all
second_runs-Runs =
    one_more first_runs-Runs
      (worked [] (running 0 callback true ∷ []) (pending 1 false) ok refl refl)

first_returned-Runs : Runs 9 8 first_returned
unfolding schedule enqueue dequeue work map_get map_delete has_elt elt_of dispose_all
first_returned-Runs =
    one_more second_runs-Runs
      (worked [] (running 1 callback false ∷ []) (running 0 callback true) ok refl refl)

first_left-Runs : Runs 9 8 first_left
unfolding schedule enqueue dequeue work map_get map_delete has_elt elt_of dispose_all
first_left-Runs =
    one_more first_returned-Runs
      (worked (running 1 callback false ∷ []) [] (dequeuing 0) ok refl refl)

second_asks-Runs : Runs 9 8 second_asks
unfolding schedule enqueue dequeue work map_get map_delete has_elt elt_of dispose_all
second_asks-Runs =
    one_more first_left-Runs
      (worked [] (peeking [] ∷ []) (running 1 callback false) (retry_at_head none) refl refl)

head_found-Runs : Runs 9 8 head_found
unfolding schedule enqueue dequeue work map_get map_delete has_elt elt_of dispose_all
head_found-Runs =
    one_more second_asks-Runs (worked [] (pending 1 false ∷ []) (peeking []) ok refl refl)

head_asks-Runs : Runs 9 8 head_asks
unfolding schedule enqueue dequeue work map_get map_delete has_elt elt_of dispose_all
head_asks-Runs =
    one_more head_found-Runs (worked (pending 1 false ∷ []) [] (checking [] (some 1)) ok refl refl)

again-Runs : Runs 9 8 again
unfolding schedule enqueue dequeue work map_get map_delete has_elt elt_of dispose_all
again-Runs = one_more head_asks-Runs (worked [] (marking [] 1 ∷ []) (pending 1 false) ok refl refl)

succeeded-Runs : Runs 9 8 succeeded
unfolding schedule enqueue dequeue work map_get map_delete has_elt elt_of dispose_all
succeeded-Runs =
    one_more again-Runs (worked (marking [] 1 ∷ []) [] (running 1 callback true) ok refl refl)

overwritten-Runs : Runs 9 8 overwritten
unfolding schedule enqueue dequeue work map_get map_delete has_elt elt_of dispose_all
overwritten-Runs =
    one_more succeeded-Runs (worked [] (dequeuing 1 ∷ []) (marking [] 1) ok refl refl)

-- The task that succeeded, and has no function left, is said to wait for a retry.
stale_status :
    Runs 9 8 overwritten
    × (status_at succeeded 1 ≡ some Status.success)
    × (status_at overwritten 1 ≡ some Status.retry_queued)
    × (fn_at overwritten.waiters 1 ≡ none)
unfolding schedule enqueue dequeue work map_get map_delete has_elt elt_of dispose_all
stale_status = (overwritten-Runs, refl, refl, refl)
