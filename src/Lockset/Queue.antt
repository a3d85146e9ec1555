-- ===== src/Lockset/Queue.antt =====
-- internal/util/lockset/queue.go: the queue of each key, the count of the queues that a waiter is at
-- the head of, and the list of all waiters. A waiter is an address in the list `heap`; `none` is nil.
pub mod Dedup
pub mod Enqueue
pub mod CleanUp
pub mod Tail
pub mod Standing
pub mod Traces
pub mod Drain
pub mod Progress
pub mod Admitted
pub mod Grants
pub mod Newcomer
pub mod Arrival
pub mod Joining
pub mod Departure
pub mod Dequeue
pub mod Invariant
pub mod Line
pub mod Loop
pub mod Promote
pub mod Leaving
pub mod Stage
pub mod Leave
pub mod Views
pub mod Fronts
pub mod Tests
use cdc_sink.Base.{
  ℕ, zero, suc, ◌-◌, ◌≡◌, Bool, true, false, not, Option, none, some, List, [], ◌∷◌, ◌++◌, length,
  get_elem?, set, drop, Comparable, ◌==◌, eqb, ltb, if◌then◌else◌, map_get, is_seen, map_put,
  map_delete,
}

pub record QueueEntry (K V : Type 0) : Type 0 where
  pub head_count : ℕ
  pub elt : V
  pub keys : List K
  pub next : Option ℕ
  pub valid : Bool

pub record Queue (K V : Type 0) : Type 0 where
  pub heap : List (QueueEntry K V)
  pub head : Option ℕ
  pub tail : Option ℕ
  pub queues : List (K × List ℕ)
  pub ref : List (V × ℕ)

-- What the loop of `Dequeue` changes.
pub record Promotion (K V : Type 0) : Type 0 where
  pub heap : List (QueueEntry K V)
  pub queues : List (K × List ℕ)
  pub ret : List V

-- `NewQueue`.
abbrev pub new_queue : {K V : Type 0} → Queue K V
new_queue = record { heap = []; head = none; tail = none; queues = []; ref = [] }

-- A panic, or the result.
infixl 5 ◌>>=◌
abbrev pub ◌>>=◌ : {X Y : Type 0} → Option X → (X → Option Y) → Option Y
outcome >>= next = elim outcome [ none ↦ none | some x ↦ next x ]

module _ {K : Type 0} ⦃k_comparable : Comparable K⦄ where
  -- The loop over the copy of the slice: the prefix that it keeps. `seen` has the keys of the map.
  unfoldable pub dedup_from : List K → List K → List K
  unfolding is_seen
  dedup_from seen [] = []
  dedup_from seen (key ∷ keys) =
      let dup = dedup_from seen keys in
      let new = dedup_from (key ∷ seen) keys in if is_seen key seen then dup else key ∷ new

  unfoldable pub dedup : List K → List K
  unfolding dedup_from
  dedup keys = dedup_from [] keys

  -- A missing key gives the nil slice.
  unfoldable pub entries_of : K → List (K × List ℕ) → List ℕ
  entries_of k queues = elim (map_get k queues) [ none ↦ [] | some entries ↦ entries ]

  -- The loop of `Enqueue` that adds the waiter `e` to the queue of each key, and how often it
  -- increments the count of `e`.
  unfoldable pub join_queues : ℕ → List K → List (K × List ℕ) → List (K × List ℕ) × ℕ
  unfolding entries_of
  join_queues e [] queues = (queues, 0)
  join_queues e (k ∷ keys) queues =
      let entries = entries_of k queues ++ e ∷ [] in
      let rest = join_queues e keys (map_put k entries queues) in
      (rest.0, if eqb (length entries) 1 then suc rest.1 else rest.1)

-- The search `for idx = range entries`: an index that was not found stays at the last one, and at 0
-- in an empty slice.
unfoldable pub index_in : ℕ → List ℕ → ℕ
index_in w [] = 0
index_in w (e ∷ []) = 0
index_in w (e ∷ f ∷ entries) =
    let later = suc (index_in w (f ∷ entries)) in if eqb e w then 0 else later

-- `append(entries[:idx], entries[idx+1:]...)`.
unfoldable pub remove_at : ℕ → List ℕ → List ℕ
remove_at i [] = []
remove_at zero (e ∷ entries) = entries
remove_at (suc i) (e ∷ entries) = e ∷ remove_at i entries

module _ {K V : Type 0} where
  unfoldable pub set_next : Option ℕ → QueueEntry K V → QueueEntry K V
  set_next next e = record e { next = next }

  -- A write through a pointer; `none` is a nil or dangling one.
  unfoldable pub update :
      ℕ → (QueueEntry K V → QueueEntry K V) → List (QueueEntry K V) → Option (List (QueueEntry K V))
  update i change heap = elim (get_elem? heap i) [
    | none ↦ none
    | some e ↦ some (set heap i (change e))
  ]

  -- `Enqueue` inserts the waiter behind the tail of the list of all waiters: the heap, and the head.
  unfoldable pub link :
      List (QueueEntry K V)
      → Option ℕ
      → Option ℕ
      → QueueEntry K V
      → Option (List (QueueEntry K V) × Option ℕ)
  unfolding update set_next
  link heap head none e = some (heap ++ e ∷ [], some (length heap))
  link heap head (some t) e = do
    linked ← update t (set_next (some (length heap))) heap
    some (linked ++ e ∷ [], head)

  -- The loop that skips the waiters that are not valid. `none` where the fuel runs out.
  unfoldable pub skip_invalid : ℕ → List (QueueEntry K V) → Option ℕ → Option (Option ℕ)
  skip_invalid fuel heap none = some none
  skip_invalid zero heap (some i) = none
  skip_invalid (suc fuel) heap (some i) = elim (get_elem? heap i) [
    | none ↦ none
    | some e ↦
        let further = skip_invalid fuel heap e.next in if e.valid then some (some i) else further
  ]

  abbrev pub is_empty : Queue K V → Bool
  is_empty q = elim q.head [ none ↦ true | some h ↦ false ]

  -- The element of a waiter, `none` for nil.
  unfoldable pub elt_of : Queue K V → Option ℕ → Option V
  elt_of q none = none
  elt_of q (some i) = elim (get_elem? q.heap i) [ none ↦ none | some e ↦ some e.elt ]

  -- `none` stands for the zero value and false.
  abbrev pub peek_head : Queue K V → Option V
  peek_head q = elt_of q q.head

  abbrev pub peek_tail : Queue K V → Option V
  peek_tail q = elt_of q q.tail

module _ {K V : Type 0} ⦃k_comparable : Comparable K⦄ ⦃v_comparable : Comparable V⦄
    (zero_value : V) where
  unfoldable pub invalidate : QueueEntry K V → QueueEntry K V
  invalidate e = record e { elt = zero_value; keys = []; valid = false }

  -- The first entry of a shortened queue.
  unfoldable pub promote : ℕ → Promotion K V → Option (Promotion K V)
  promote head p = elim (get_elem? p.heap head) [
    | none ↦ none
    | some e ↦
        let counted = record e { head_count = suc e.head_count } in
        let heap = set p.heap head counted in
        if eqb (suc e.head_count) (length e.keys)
        then some (record p { heap = heap; ret = p.ret ++ e.elt ∷ [] })
        else if ltb (length e.keys) (suc e.head_count)
        then none
        else some (record p { heap = heap })
  ]

  unfoldable pub put_entries : K → List ℕ → Promotion K V → Promotion K V
  put_entries k entries p = record p { queues = map_put k entries p.queues }

  -- One turn of the loop: the waiter `w` leaves the queue of the key `k`.
  unfoldable pub leave_queue : ℕ → K → Promotion K V → Option (Promotion K V)
  unfolding entries_of index_in remove_at promote put_entries
  leave_queue w k p =
      let entries = entries_of k p.queues in
      let idx = index_in w entries in
      if eqb idx (length entries)
      then none
      else if eqb idx 0
      then elim (drop 1 entries) [
        | [] ↦ some (record p { queues = map_delete k p.queues })
        | head ∷ others ↦ (do
          promoted ← promote head p
          some (put_entries k (head ∷ others) promoted))
      ]
      else some (put_entries k (remove_at idx entries) p)

  unfoldable pub leave_queues : ℕ → List K → Promotion K V → Option (Promotion K V)
  unfolding leave_queue
  leave_queues w [] p = some p
  leave_queues w (k ∷ keys) p = leave_queue w k p >>= leave_queues w keys

  -- The end of `Dequeue`: the waiter is invalidated, and the head of the list moves over the waiters
  -- that are not valid.
  unfoldable pub clean_up : ℕ → Queue K V → Option (Queue K V)
  unfolding update invalidate skip_invalid
  clean_up w q = do
    heap ← update w invalidate q.heap
    head ← skip_invalid (length heap) heap q.head
    some (record q { heap = heap; head = head; tail = elim head [ none ↦ none | some h ↦ q.tail ] })

  -- The values that became eligible, whether the value was in the queue, and the queue that the call
  -- leaves; `none` is a panic.
  unfoldable pub dequeue : Queue K V → V → Option (List V × Bool × Queue K V)
  unfolding leave_queues clean_up
  dequeue q val = elim (map_get val q.ref) [
    | none ↦ some ([], false, q)
    | some w ↦ (do
      e ← get_elem? q.heap w
      left ← leave_queues w e.keys (record { heap = q.heap; queues = q.queues; ret = [] })
      cleaned ←
          clean_up w
            (record q { heap = left.heap; queues = left.queues; ref = map_delete val q.ref })
      some (left.ret, true, cleaned))
  ]

module _ {K V : Type 0} ⦃k_comparable : Comparable K⦄ ⦃v_comparable : Comparable V⦄ where
  -- Whether the value is at the head of its key queues, or `none` for the error, and the queue. The
  -- count of the new waiter is not read before the end of the loop, and is put in the heap at once.
  unfoldable pub enqueue : Queue K V → List K → V → Option (Option Bool × Queue K V)
  unfolding dedup join_queues link
  enqueue q keys val = elim (map_get val q.ref) [
    | some dup ↦ some (none, q)
    | none ↦
        let e = length q.heap in
        let unique = dedup keys in
        let joined = join_queues e unique q.queues in
        let entry : QueueEntry K V = record {
          head_count = joined.1;
          elt = val;
          keys = unique;
          next = none;
          valid = true;
        } in
        (do
          linked ← link q.heap q.head q.tail entry
          some (
            some (eqb joined.1 (length unique)),
            record {
              heap = linked.0;
              head = linked.1;
              tail = some e;
              queues = joined.0;
              ref = map_put val e q.ref;
            },
          ))
  ]

  unfoldable pub has_elt : Queue K V → Option ℕ → V → Bool
  unfolding elt_of
  has_elt q i val = elim (elt_of q i) [ none ↦ false | some v ↦ v == val ]

  abbrev pub is_head : Queue K V → V → Bool
  is_head q val = has_elt q q.head val

  abbrev pub is_tail : Queue K V → V → Bool
  is_tail q val = has_elt q q.tail val

  unfoldable pub is_queued_key : Queue K V → K → Bool
  unfolding entries_of
  is_queued_key q key = ltb 0 (length (entries_of key q.queues))

  unfoldable pub is_queued_value : Queue K V → V → Bool
  is_queued_value q val = elim (map_get val q.ref) [ none ↦ false | some w ↦ true ]
