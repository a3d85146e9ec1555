-- ===== src/Lockset/Set.antt =====
-- internal/util/lockset/lockset.go: the tasks of a Set and the goroutines that run them. A waiter is an
-- address in the list `waiters`, and the queue has the value `some w` for it; the zero value of a
-- pointer is `none`. The runner is `GoRunner`, which never refuses a task. A goroutine is in one of
-- the phases of `Job`, and each call of `work` is what it does up to the next point at which others
-- may come between; `result` is what the callback returned.
pub mod Effects
pub mod Held
pub mod Safety
pub mod Keyed
pub mod TaskKeys
pub mod Keys
pub mod Quiet
pub mod Woken
pub mod Covered
pub mod Tended
pub mod Finished
pub mod Heads
pub mod Awake
pub mod Tests
pub mod Stale
pub mod Exclusive
pub mod Runs
pub mod Moves
pub mod Scheduling
pub mod Steps
pub mod Turns
use cdc_sink.Base.{
  ℕ, ◌≡◌, Bool, true, false, Option, none, some, List, [], ◌∷◌, ◌++◌, length, get_elem?, set,
  Comparable, nat_eq, option_eq, if◌then◌else◌,
}
use cdc_sink.Lockset.Queue.{Queue, new_queue, dedup, enqueue, dequeue, is_head, peek_head, ◌>>=◌}

pub data Status (E : Type 0) : Type 0 where
  executing queued retry_queued retry_requested success : Status E
  failed : E → Status E

-- `StatusFor`.
unfoldable pub status_for : {E : Type 0} → Option E → Status E
status_for none = Status.success
status_for (some err) = Status.failed err

unfoldable pub completed : {E : Type 0} → Status E → Bool
completed Status.success = true
completed (Status.failed err) = true
completed s = false

-- `s == retryRequested`.
unfoldable pub is_retry_requested : {E : Type 0} → Status E → Bool
is_retry_requested Status.retry_requested = true
is_retry_requested s = false

unfoldable pub retrying : {E : Type 0} → Status E → Bool
retrying Status.retry_requested = true
retrying Status.retry_queued = true
retrying s = false

-- The function of a waiter: the callback that was given, or the one that a cancellation puts there.
pub data Fn : Type 0 where
  callback canceled : Fn

-- The function that `Or` sets, by what a call of it comes to.
pub data Fallback : Type 0 where
  returns panics : Fallback

pub record RetryAtHeadErr (E : Type 0) : Type 0 where
  pub cause : Option E
  pub fallback : Option Fallback

-- What `tryCall` gives for a callback: no error, a pointer to a RetryAtHeadErr, which may be nil, or
-- another error, which may be that of a panic.
pub data Result (E : Type 0) : Type 0 where
  ok : Result E
  retry_at_head : Option (RetryAtHeadErr E) → Result E
  err : E → Result E

-- A request to be retried that comes from the head is rejected: the fallback is called, outside
-- `tryCall`, and the cause is the result. None is a panic, as is a nil pointer.
unfoldable pub fall_back : {E : Type 0} → Option (RetryAtHeadErr E) → Option (Status E)
unfolding status_for
fall_back none = none
fall_back (some t) = elim t.fallback [
  | none ↦ some (status_for t.cause)
  | some fallback ↦ elim fallback [ returns ↦ some (status_for t.cause) | panics ↦ none ]
]

pub record Waiter (K E : Type 0) : Type 0 where
  pub fn : Option Fn
  pub keys : List K
  pub status : Status E

-- The phases of a goroutine of `dispose`: not started; in the callback, with what `IsHead` was at its
-- start; before `Dequeue`; before `PeekHead`; before it reads the status of the head that it found;
-- and before it sets that status.
pub data Job : Type 0 where
  pending : ℕ → Bool → Job
  running : ℕ → Fn → Bool → Job
  dequeuing : ℕ → Job
  peeking : List (Option ℕ) → Job
  checking : List (Option ℕ) → Option ℕ → Job
  marking : List (Option ℕ) → ℕ → Job

pub record Tasks (K E : Type 0) : Type 0 where
  pub queue : Queue K (Option ℕ)
  pub waiters : List (Waiter K E)
  pub jobs : List Job

abbrev pub new_tasks : {K E : Type 0} → Tasks K E
new_tasks = record { queue = new_queue; waiters = []; jobs = [] }

module _ {K E : Type 0} where
  -- A write to a waiter; a nil or dangling pointer is `none`.
  unfoldable pub fn_at : List (Waiter K E) → ℕ → Option Fn
  fn_at waiters w = elim (get_elem? waiters w) [ none ↦ none | some waiter ↦ waiter.fn ]

  unfoldable pub set_fn : ℕ → Option Fn → List (Waiter K E) → List (Waiter K E)
  set_fn w fn waiters = elim (get_elem? waiters w) [
    | none ↦ waiters
    | some waiter ↦ set waiters w (record waiter { fn = fn })
  ]

  unfoldable pub set_status : ℕ → Status E → List (Waiter K E) → List (Waiter K E)
  set_status w status waiters = elim (get_elem? waiters w) [
    | none ↦ waiters
    | some waiter ↦ set waiters w (record waiter { status = status })
  ]

  -- `dispose`, as far as the start of the goroutine.
  abbrev pub dispose : ℕ → Bool → Tasks K E → Tasks K E
  dispose w cancel s = record s { jobs = s.jobs ++ pending w cancel ∷ [] }

  -- The loop over the unblocked waiters. `Dequeue` returns the elements of valid waiters, and the head
  -- was compared with nil, so that no nil pointer is among them.
  unfoldable pub dispose_all : List (Option ℕ) → Tasks K E → Tasks K E
  dispose_all [] s = s
  dispose_all (none ∷ next) s = dispose_all next s
  dispose_all (some w ∷ next) s = dispose_all next (dispose w false s)

  -- The function that `Schedule` returns to cancel the task.
  unfoldable pub cancel : ℕ → Tasks K E → Tasks K E
  unfolding fn_at set_fn
  cancel w s = elim (fn_at s.waiters w) [
    | none ↦ s
    | some fn ↦ dispose w true (record s { waiters = set_fn w (some canceled) s.waiters })
  ]

-- The result of a call of the function.
unfoldable pub called : {E : Type 0} → E → Fn → Result E → Result E
called canceled_err callback result = result
called canceled_err canceled result = err canceled_err

module _ {K E : Type 0} ⦃c : Comparable K⦄ where
  -- `none` is a panic.
  unfoldable pub schedule : E → List K → Tasks K E → Option (Tasks K E)
  unfolding dedup enqueue
  schedule dup_err keys s =
      let unique = dedup keys in
      let w = length s.waiters in
      let waiter : Status E → Waiter K E =
        λ status. record { fn = some callback; keys = unique; status = status } in
      elim (enqueue s.queue unique (some w)) [
        | none ↦ none
        | some (outcome, queue) ↦ elim outcome [
          | none ↦ some (record s {
            queue = queue;
            waiters = s.waiters ++ waiter (Status.failed dup_err) ∷ [];
          })
          | some ready ↦
              let queued : Tasks K E = record s {
                queue = queue;
                waiters = s.waiters ++ waiter Status.queued ∷ [];
              } in
              some (if ready then dispose w false queued else queued)
        ]
      ]

  -- The start of the goroutine: the function is taken, so that the task runs once.
  unfoldable pub begin : E → ℕ → Bool → Tasks K E → Tasks K E
  unfolding fn_at set_fn set_status
  begin canceled_err w cancel s =
      let at_head = is_head s.queue (some w) in
      let taken = set_fn w none s.waiters in
      elim (fn_at s.waiters w) [
        | none ↦ s
        | some fn ↦
            if cancel
            then record s {
              waiters = set_status w (Status.failed canceled_err) taken;
              jobs = s.jobs ++ dequeuing w ∷ [];
            }
            else record s {
              waiters = set_status w Status.executing taken;
              jobs = s.jobs ++ running w fn at_head ∷ [];
            }
      ]

  abbrev finished : ℕ → Status E → Tasks K E → Tasks K E
  finished w status s = record s {
    waiters = set_status w status s.waiters;
    jobs = s.jobs ++ dequeuing w ∷ [];
  }

  -- A task that asks to be retried, and was not at the head of the queue when it started, gets its
  -- function back.
  unfoldable pub try_again : ℕ → Fn → Tasks K E → Tasks K E
  unfolding set_fn set_status
  try_again w fn s =
      let again = record s {
        waiters = set_status w Status.retry_requested (set_fn w (some fn) s.waiters);
      } in
      if is_head s.queue (some w) then dispose w false again else again

  -- What follows the call; none is a panic.
  unfoldable pub finish : ℕ → Fn → Bool → Result E → Tasks K E → Option (Tasks K E)
  unfolding set_status fall_back try_again
  finish w fn at_head ok s = some (finished w Status.success s)
  finish w fn at_head (err e) s = some (finished w (Status.failed e) s)
  finish w fn true (retry_at_head t) s = fall_back t >>= λ status. some (finished w status s)
  finish w fn false (retry_at_head t) s = some (try_again w fn s)

  -- The head may have asked to be retried.
  unfoldable pub check : List (Option ℕ) → Option ℕ → Tasks K E → Tasks K E
  unfolding is_retry_requested dispose_all
  check next none s = dispose_all next s
  check next (some h) s = elim (get_elem? s.waiters h) [
    | none ↦ dispose_all next s
    | some head ↦
        if is_retry_requested head.status
        then record s { jobs = s.jobs ++ marking next h ∷ [] }
        else dispose_all next s
  ]

  -- The head joins the unblocked waiters, whatever has become of it since.
  unfoldable pub mark_head : List (Option ℕ) → ℕ → Tasks K E → Tasks K E
  unfolding set_status dispose_all
  mark_head next h s =
      dispose_all (next ++ some h ∷ [])
        (record s { waiters = set_status h Status.retry_queued s.waiters })

  -- One turn of a goroutine that has been taken out of `jobs`; `none` is a panic, which ends the
  -- program.
  unfoldable pub work : E → Job → Result E → Tasks K E → Option (Tasks K E)
  unfolding begin finish called check mark_head dequeue
  work canceled_err (pending w cancel) result s = some (begin canceled_err w cancel s)
  work canceled_err (running w fn at_head) result s =
      finish w fn at_head (called canceled_err fn result) s
  work canceled_err (dequeuing w) result s = elim (dequeue none s.queue (some w)) [
    | none ↦ none
    | some (next, there, queue) ↦
        some (record s { queue = queue; jobs = s.jobs ++ peeking next ∷ [] })
  ]
  work canceled_err (peeking next) result s = some (elim (peek_head s.queue) [
    | none ↦ dispose_all next s
    | some head ↦ record s { jobs = s.jobs ++ checking next head ∷ [] }
  ])
  work canceled_err (checking next head) result s = some (check next head s)
  work canceled_err (marking next h) result s = some (mark_head next h s)
