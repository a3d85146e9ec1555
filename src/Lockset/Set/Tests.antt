-- ===== src/Lockset/Set/Tests.antt =====
-- internal/util/lockset/lockset.go on a concrete Set.
use cdc_sink.Base.{
  map_delete, is_seen, ℕ, ◌≡◌, ◌≢◌, ◌↔◌, refl, true, false, Option, none, some, List, [], ◌∷◌, All,
  nat_eq, option_eq, map_get,
}
use cdc_sink.Lockset.Queue.{dedup, enqueue, dequeue, has_elt, elt_of, is_empty}
use cdc_sink.Lockset.Set.{
  dequeuing, peeking, dispose_all, fn_at, callback, ok, Result, retry_at_head, panics, Job, pending,
  running, Tasks, new_tasks, schedule, work,
}
use cdc_sink.Lockset.Set.Exclusive.{running_exclusive}
use cdc_sink.Lockset.Set.Quiet.{Runs-quiet}
use cdc_sink.Lockset.Set.Runs.{
  Runs, at_start, one_more, scheduled, worked, Runs-IsSafe, IsFatal, work_total,
}
use cdc_sink.Lockset.Set.Safety.{IsSafe}
use cdc_sink.Lockset.Set.TaskKeys.{task_keys}

abbrev pub state : Option (Tasks ℕ ℕ) → Tasks ℕ ℕ
state none = new_tasks
state (some s) = s

abbrev pub with_jobs : List Job → Tasks ℕ ℕ → Tasks ℕ ℕ
with_jobs jobs s = record s { jobs = jobs }

-- Two tasks that share no key are scheduled, and both start.
abbrev one_task : Tasks ℕ ℕ
one_task = state (schedule 8 (1 ∷ []) new_tasks)

abbrev two_tasks : Tasks ℕ ℕ
two_tasks = state (schedule 8 (2 ∷ 3 ∷ []) one_task)

abbrev one_runs : Tasks ℕ ℕ
one_runs = state (work 9 (pending 0 false) ok (with_jobs (pending 1 false ∷ []) two_tasks))

abbrev both_run : Tasks ℕ ℕ
both_run = state (work 9 (pending 1 false) ok (with_jobs (running 0 callback true ∷ []) one_runs))

both_run-Runs : Runs 9 8 both_run
unfolding schedule enqueue work map_get has_elt
both_run-Runs =
    one_more
      (one_more
        (one_more (one_more at_start (scheduled (1 ∷ []) refl)) (scheduled (2 ∷ 3 ∷ []) refl))
        (worked [] (pending 1 false ∷ []) (pending 0 false) ok refl refl))
      (worked [] (running 0 callback true ∷ []) (pending 1 false) ok refl refl)

running_exclusive_example :
    (◌≢◌ {A = ℕ} 0 1)
    × All
        (λ k. is_seen k (dedup (task_keys both_run.waiters 1)) ≡ false)
        (dedup (task_keys both_run.waiters 0))
unfolding schedule enqueue work map_get has_elt
running_exclusive_example =
    running_exclusive 9 8 both_run [] [] [] 0 1 callback callback true false both_run-Runs refl

Runs-IsSafe_example : (granted : List (Option ℕ)) × IsSafe granted [] both_run
Runs-IsSafe_example = Runs-IsSafe 9 8 both_run both_run-Runs

-- The first of the tasks started at the head; its fallback panics.
abbrev bad : Result ℕ
bad = retry_at_head (some (record { cause = some 7; fallback = some panics }))

work_total_example :
    (work 9 (running 0 callback true) bad (with_jobs (running 1 callback false ∷ []) both_run)
      ≡ none)
    ↔ IsFatal (running 0 callback true) bad
unfolding schedule enqueue work map_get has_elt
work_total_example =
    work_total 9 8 both_run [] (running 1 callback false ∷ []) (running 0 callback true) bad
      both_run-Runs refl

-- The first of the tasks returns, and leaves the queue; it was the only one.
abbrev called_one : Tasks ℕ ℕ
called_one = state (work 9 (pending 0 false) ok (with_jobs [] one_task))

abbrev returned_one : Tasks ℕ ℕ
returned_one = state (work 9 (running 0 callback true) ok (with_jobs [] called_one))

abbrev dequeued_one : Tasks ℕ ℕ
dequeued_one = state (work 9 (dequeuing 0) ok (with_jobs [] returned_one))

abbrev done_one : Tasks ℕ ℕ
done_one = state (work 9 (peeking []) ok (with_jobs [] dequeued_one))

done_one-Runs : Runs 9 8 done_one
unfolding schedule enqueue dequeue work map_get map_delete has_elt elt_of dispose_all
done_one-Runs =
    one_more
      (one_more
        (one_more
          (one_more (one_more at_start (scheduled (1 ∷ []) refl))
            (worked [] [] (pending 0 false) ok refl refl))
          (worked [] [] (running 0 callback true) ok refl refl))
        (worked [] [] (dequeuing 0) ok refl refl))
      (worked [] [] (peeking []) ok refl refl)

Runs-quiet_example : (is_empty done_one.queue ≡ true) × ((w : ℕ) → fn_at done_one.waiters w ≡ none)
unfolding schedule enqueue dequeue work map_get map_delete has_elt elt_of dispose_all
Runs-quiet_example = Runs-quiet 9 8 done_one done_one-Runs refl
