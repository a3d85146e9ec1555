-- ===== src/Lockset/Queue/Invariant.antt =====
-- internal/util/lockset/queue.go: what `Enqueue` and `Dequeue` keep.
use cdc_sink.Base.{ℕ, ◌≡◌, ◌≢◌, refl, ◌↔◌, none, some, List, [], Comparable, map_get}
use cdc_sink.Lockset.Queue.{Queue, new_queue, entries_of}
use cdc_sink.Lockset.Queue.Fronts.{fronts, IsFirst}
use cdc_sink.Lockset.Queue.Leaving.{IsBoard}
use cdc_sink.Lockset.Queue.Line.{IsLine, nobody}
use cdc_sink.Lockset.Queue.Views.{keys_at, count_at, live_at}

module _ {K V : Type 0} ⦃c : Comparable K⦄ ⦃d : Comparable V⦄ where
  abbrev pub queue_of_key : Queue K V → K → List ℕ
  queue_of_key q k = entries_of k q.queues

  -- The waiter at `i` is in front of the queue of each of its keys.
  abbrev pub IsReady : Queue K V → ℕ → Type 0
  IsReady q i = IsFirst i (queue_of_key q) (keys_at q.heap i)

  -- The queues of the keys are in order; the count of a waiter that is there is how many of its keys have it in
  -- front; a waiter that has left has no keys; the map `ref` has just the waiters that have not left;
  -- and the list of all waiters leads from the oldest of them to the last one.
  pub record IsQueue (q : Queue K V) : Type 0 where
    pub board : IsBoard (keys_at q.heap) (queue_of_key q)
    pub counts :
        (i : ℕ)
        → live_at q.heap i ≢ none
        → count_at q.heap i ≡ fronts i (queue_of_key q) (keys_at q.heap i)
    pub vacant : (i : ℕ) → live_at q.heap i ≡ none → keys_at q.heap i ≡ []
    pub refs : (v : V) (i : ℕ) → (map_get v q.ref ≡ some i) ↔ (live_at q.heap i ≡ some v)
    pub line : IsLine q.heap q.head q.tail

  pub new_queue-IsQueue : IsQueue (new_queue {K = K} {V = V})
  unfolding entries_of map_get
  new_queue-IsQueue = record {
    board = record { ascends = λ k. tt; stands = λ k i. (λ p. p, λ p. p); distinct = λ i. tt };
    counts = λ i alive. refl;
    vacant = λ i p. refl;
    refs = λ v i. (λ p. cc, λ p. cc);
    line = nobody (λ i. refl);
  }
