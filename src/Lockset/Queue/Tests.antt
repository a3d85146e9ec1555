-- ===== src/Lockset/Queue/Tests.antt =====
-- internal/util/lockset/queue.go on concrete queues.
use cdc_sink.Base.{
  is_seen, ℕ, ◌≡◌, refl, inr, ◌↔◌, inr, Bool, true, false, Option, none, some, List, [], ◌∷◌,
  nat_eq, map_get, map_delete, All, ◌++◌, length, if◌then◌else◌,
}
use cdc_sink.Lockset.Queue.{
  QueueEntry, Queue, new_queue, enqueue, dequeue, entries_of, is_queued_key, is_queued_value,
  elt_of, peek_head, peek_tail,
}
use cdc_sink.Lockset.Queue.Enqueue.{HasTail, enqueue_admits}

abbrev pub queue_of : Option (Option Bool × Queue ℕ ℕ) → Queue ℕ ℕ
queue_of none = new_queue
queue_of (some (outcome, q)) = q

abbrev left : Option (List ℕ × Bool × Queue ℕ ℕ) → Queue ℕ ℕ
left none = new_queue
left (some (values, there, q)) = q

abbrev released : Option (List ℕ × Bool × Queue ℕ ℕ) → List ℕ
released none = []
released (some (values, there, q)) = values

abbrev waiter : ℕ → ℕ → List ℕ → Option ℕ → Bool → QueueEntry ℕ ℕ
waiter head_count elt keys next valid = record {
  head_count = head_count;
  elt = elt;
  keys = keys;
  next = next;
  valid = valid;
}

-- Three waiters: the second shares a key with the first, the third with the second.
abbrev pub three : Queue ℕ ℕ
three = queue_of (
    enqueue (queue_of (enqueue (queue_of (enqueue new_queue (1 ∷ 2 ∷ 1 ∷ []) 70)) (2 ∷ 3 ∷ []) 80))
      (3 ∷ []) 90)

-- The second leaves when the first does, and the third after the second.
leaves_first : peek_head (left (dequeue 0 three 70)) ≡ some 80
unfolding dequeue enqueue map_get map_delete elt_of
leaves_first = refl

released_second : released (dequeue 0 three 70) ≡ 80 ∷ []
unfolding dequeue enqueue map_get map_delete
released_second = refl

released_third : released (dequeue 0 three 80) ≡ 90 ∷ []
unfolding dequeue enqueue map_get map_delete
released_third = refl

enqueue_admits_example :
    (at_head : Bool) × (q' : Queue ℕ ℕ) × (enqueue three (4 ∷ 3 ∷ []) 60 ≡ some (some at_head, q'))
    × ((at_head ≡ true) ↔ All (λ k. is_queued_key three k ≡ false) (4 ∷ 3 ∷ []))
    × ((k : ℕ)
        → entries_of k q'.queues
          ≡ entries_of k three.queues
            ++ (if is_seen k (4 ∷ 3 ∷ []) then length three.heap ∷ [] else []))
    × (is_queued_value q' 60 ≡ true)
    × (peek_tail q' ≡ some 60)
    × HasTail q'
unfolding enqueue is_queued_value HasTail map_get
enqueue_admits_example =
    enqueue_admits three (4 ∷ 3 ∷ []) 60 (inr (2, waiter 0 90 (3 ∷ []) none true, refl, refl)) refl

-- The third value leaves, and the tail is then the zero value.
stale_tail : peek_tail (left (dequeue 0 three 90)) ≡ some 0
unfolding dequeue enqueue map_get map_delete elt_of
stale_tail = refl
