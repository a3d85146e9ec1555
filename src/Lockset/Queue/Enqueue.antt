-- ===== src/Lockset/Queue/Enqueue.antt =====
-- internal/util/lockset/queue.go: how `Enqueue` admits a value.
use cdc_sink.Base.{
  is_seen, HasDistinct, ℕ, ◌≤◌, ◌≡◌, refl, sym, ap, ◌∙◌, ◌↔◌, ◌⊎◌, inl, inr, Bool, true, false,
  Option, none, some, List, [], ◌∷◌, ◌++◌, append_nil, length, length-append, get_elem?,
  Option-cases, length-zero, All-map, get_elem?-append_last, set, length-set, Comparable, ◌==◌,
  equals-false, eqb, eqb_iff, arith, Bool-cases, map_get, map_put, get-put_same, All, if◌then◌else◌,
}
use cdc_sink.Lockset.Queue.{
  QueueEntry, Queue, dedup, entries_of, join_queues, enqueue, link, update, is_queued_key,
  is_queued_value, elt_of, peek_tail,
}
use cdc_sink.Lockset.Queue.Dedup.{dedup-HasDistinct, is_seen-dedup, All-keys}

first-free :
    (entries : List ℕ) (e : ℕ) → (eqb (length (entries ++ e ∷ [])) 1 ≡ true) ↔ (entries ≡ [])
first-free [] e = (λ p. refl, λ p. refl)
first-free (a ∷ entries) e = ground (arith, length-append entries (e ∷ []))

module _ {K : Type 0} ⦃c : Comparable K⦄ where
  pub entries_of-same :
      (k : K) (entries : List ℕ) (queues : List (K × List ℕ))
      → entries_of k (map_put k entries queues) ≡ entries
  unfolding entries_of
  entries_of-same k entries queues = rw (get-put_same k entries queues, entries_of) refl

  pub entries_of-other :
      (j k : K) (entries : List ℕ) (queues : List (K × List ℕ))
      → (j == k) ≡ false
      → entries_of k (map_put j entries queues) ≡ entries_of k queues
  unfolding entries_of map_get
  entries_of-other j k entries queues ne = rw (ne, entries_of) refl

  -- What joining adds to the queue of a key.
  abbrev pub joined : ℕ → K → List K → List ℕ
  joined e k keys = if is_seen k keys then e ∷ [] else []

  pub join_queues-entries :
      (e : ℕ) (keys : List K) (queues : List (K × List ℕ)) (k : K)
      → HasDistinct keys
      → entries_of k (join_queues e keys queues).0 ≡ entries_of k queues ++ joined e k keys
  unfolding join_queues is_seen
  join_queues-entries e [] queues k h = sym (append_nil (entries_of k queues))
  join_queues-entries e (j ∷ keys) queues k h =
      let entries = entries_of j queues ++ e ∷ [] in
      let later = join_queues-entries e keys (map_put j entries queues) k h.1 in
      elim (Bool-cases (j == k)) [
        | inl same ↦
            let p : j ≡ k = (c.equals_iff j k).0 same in
            let gone : is_seen k keys ≡ false = ap (λ i. is_seen i keys) (sym p) ∙ h.0 in
            let at_k : entries_of k (map_put j entries queues) ≡ entries =
              ap (λ i. entries_of k (map_put i entries queues)) p
              ∙ entries_of-same k entries queues in
            let none_later : joined e k keys ≡ [] = ap (λ b. if b then e ∷ [] else []) gone in
            let one_now : joined e k (j ∷ keys) ≡ e ∷ [] = rw same refl in
            later
            ∙ ap (λ l. l ++ joined e k keys) at_k
            ∙ ap (λ l. entries ++ l) none_later
            ∙ append_nil entries
            ∙ ap (λ i. entries_of i queues ++ e ∷ []) p
            ∙ ap (λ l. entries_of k queues ++ l) (sym one_now)
        | inr other ↦
            let one_now : joined e k (j ∷ keys) ≡ joined e k keys = rw other refl in
            later
            ∙ ap (λ l. l ++ joined e k keys) (entries_of-other j k entries queues other)
            ∙ ap (λ l. entries_of k queues ++ l) (sym one_now)
      ]

  -- No one waits for any of these keys.
  abbrev pub AreFree : List K → List (K × List ℕ) → Type 0
  AreFree keys queues = All (λ k. entries_of k queues ≡ []) keys

  AreFree-put :
      (j : K) (entries : List ℕ) (queues : List (K × List ℕ)) (keys : List K)
      → is_seen j keys ≡ false
      → AreFree keys (map_put j entries queues) ↔ AreFree keys queues
  unfolding is_seen
  AreFree-put j entries queues [] h = (λ u. u, λ u. u)
  AreFree-put j entries queues (k ∷ keys) h =
      let rest = AreFree-put j entries queues keys (ground (arith, h)) in
      let ne : (j == k) ≡ false =
        equals-false j k (λ p. ground (arith, h, (c.equals_iff k j).1 (sym p))) in
      let here = entries_of-other j k entries queues ne in
      (λ all. (sym here ∙ all.0, rest.0 all.1), λ all. (here ∙ all.0, rest.1 all.1))

  -- A count of new queues is at most the number of the keys, and reaches it just where all are new.
  pub join_queues-count :
      (e : ℕ) (keys : List K) (queues : List (K × List ℕ))
      → HasDistinct keys
      → ((join_queues e keys queues).1 ≤ length keys)
        × (((join_queues e keys queues).1 ≡ length keys) ↔ All (λ k. entries_of k queues ≡ []) keys)
  unfolding join_queues is_seen
  join_queues-count e [] queues h = (omega arith, (λ p. tt, λ p. refl))
  join_queues-count e (j ∷ keys) queues h =
      let entries = entries_of j queues ++ e ∷ [] in
      let later = join_queues-count e keys (map_put j entries queues) h.1 in
      let put = AreFree-put j entries queues keys h.0 in
      let first = first-free (entries_of j queues) e in ground (arith, later, put, first)

module _ {K V : Type 0} ⦃c : Comparable K⦄ ⦃d : Comparable V⦄ where
  -- The tail of the list of all waiters is a waiter.
  unfoldable pub HasTail : Queue K V → Type 0
  HasTail q =
      (q.tail ≡ none)
      ⊎ ((t : ℕ) × (e : QueueEntry K V) × (q.tail ≡ some t) × (get_elem? q.heap t ≡ some e))

  link-HasTail :
      (q : Queue K V) (e : QueueEntry K V)
      → HasTail q
      → (heap : List (QueueEntry K V)) × (head : Option ℕ) × (link q.heap q.head q.tail e
          ≡ some (heap, head))
        × (get_elem? heap (length q.heap) ≡ some e)
  unfolding HasTail link
  link-HasTail q e (inl p) = (
    q.heap ++ e ∷ [],
    some (length q.heap),
    ap (λ t. link q.heap q.head t e) p,
    get_elem?-append_last q.heap (length q.heap) e refl,
  )
  link-HasTail q e (inr (t, old, p, at_t)) =
      let linked = record old { next = some (length q.heap) } in
      (
        set q.heap t linked ++ e ∷ [],
        q.head,
        ap (λ t'. link q.heap q.head t' e) p ∙ rw (at_t, update) refl,
        get_elem?-append_last (set q.heap t linked) (length q.heap) e
            (sym (length-set q.heap t linked)),
      )

  new-ref : (q : Queue K V) (val : V) → is_queued_value q val ≡ false → map_get val q.ref ≡ none
  unfolding is_queued_value
  new-ref q val new = elim (Option-cases (map_get val q.ref)) [
    | inl p ↦ p
    | inr (w, p) ↦ absurd (ground (arith, p, new))
  ]

  free-is_queued_key :
      (q : Queue K V) (k : K) → (is_queued_key q k ≡ false) ↔ (entries_of k q.queues ≡ [])
  unfolding is_queued_key
  free-is_queued_key q k =
      let none_there = length-zero (entries_of k q.queues) in
      (
        λ p. none_there (ground (arith, p)),
        λ p. let l : length (entries_of k q.queues) ≡ 0 = ap length p in ground (arith, l),
      )

  at_head_iff :
      (q : Queue K V) (keys : List K)
      → (eqb (join_queues (length q.heap) (dedup keys) q.queues).1 (length (dedup keys)) ≡ true)
        ↔ All (λ k. is_queued_key q k ≡ false) keys
  at_head_iff q keys =
      let unique = dedup-HasDistinct keys in
      let count = (join_queues-count (length q.heap) (dedup keys) q.queues unique.0).1 in
      let joined = (join_queues (length q.heap) (dedup keys) q.queues).1 in
      let Free : K → Type 0 = λ k. entries_of k q.queues ≡ [] in
      let Unqueued : K → Type 0 = λ k. is_queued_key q k ≡ false in
      (
        λ p.
            let free = count.0 ((eqb_iff joined (length (dedup keys))).0 p) in
            let there : All Unqueued (dedup keys) =
              All-map Free Unqueued (dedup keys) (λ k. (free-is_queued_key q k).1) free in
            All-keys Unqueued keys (dedup keys) (λ k. (unique.1 k).1) there,
        λ all.
            let there = All-keys Unqueued (dedup keys) keys (λ k. (unique.1 k).0) all in
            let free = All-map Unqueued Free (dedup keys) (λ k. (free-is_queued_key q k).0) there in
            (eqb_iff joined (length (dedup keys))).1 (count.1 free),
      )

  is_queued_value-at :
      (q : Queue K V) (val : V) (w : ℕ) → map_get val q.ref ≡ some w → is_queued_value q val ≡ true
  unfolding is_queued_value
  is_queued_value-at q val w p = rw (p, is_queued_value) refl

  peek_tail-at :
      (q : Queue K V) (i : ℕ) (e : QueueEntry K V)
      → q.tail ≡ some i
      → get_elem? q.heap i ≡ some e
      → peek_tail q ≡ some e.elt
  unfolding elt_of
  peek_tail-at q i e p at_i = ap (elt_of q) p ∙ rw (at_i, elt_of) refl

  -- The waiter that `Enqueue` makes, and the queue that it leaves.
  unfoldable pub new_entry : Queue K V → List K → V → QueueEntry K V
  new_entry q keys val = record {
    head_count = (join_queues (length q.heap) (dedup keys) q.queues).1;
    elt = val;
    keys = dedup keys;
    next = none;
    valid = true;
  }

  unfoldable pub with_entry : Queue K V → List K → V → List (QueueEntry K V) → Option ℕ → Queue K V
  with_entry q keys val heap head = record {
    heap = heap;
    head = head;
    tail = some (length q.heap);
    queues = (join_queues (length q.heap) (dedup keys) q.queues).0;
    ref = map_put val (length q.heap) q.ref;
  }

  pub enqueue-run :
      (q : Queue K V) (keys : List K) (val : V) (heap : List (QueueEntry K V)) (head : Option ℕ)
      → map_get val q.ref ≡ none
      → link q.heap q.head q.tail (new_entry q keys val) ≡ some (heap, head)
      → enqueue q keys val
        ≡ some (
          some (eqb (new_entry q keys val).head_count (length (dedup keys))),
          with_entry q keys val heap head,
        )
  unfolding enqueue new_entry with_entry
  enqueue-run q keys val heap head new linked = rw (new, enqueue) (rw linked refl)

  -- A value that is not enqueued is taken by `Enqueue` on a queue of which the tail is nil or a waiter
  -- on the heap, and that holds again. The result is true just where nobody waits for any of the
  -- keys. The new waiter stands behind the others in the queue of each of its keys, however often a
  -- key is given, and no other queue changes; the value is then queued, and at the tail.
  pub enqueue_admits :
      (q : Queue K V) (keys : List K) (val : V)
      → HasTail q
      → is_queued_value q val ≡ false
      → (at_head : Bool) × (q' : Queue K V) × (enqueue q keys val ≡ some (some at_head, q'))
        × ((at_head ≡ true) ↔ All (λ k. is_queued_key q k ≡ false) keys)
        × ((k : K)
            → entries_of k q'.queues
              ≡ entries_of k q.queues ++ (if is_seen k keys then length q.heap ∷ [] else []))
        × (is_queued_value q' val ≡ true)
        × (peek_tail q' ≡ some val)
        × HasTail q'
  unfolding HasTail new_entry with_entry
  enqueue_admits q keys val has_tail new =
      let e = length q.heap in
      let (heap, head, linked, at_e) = link-HasTail q (new_entry q keys val) has_tail in
      let after = with_entry q keys val heap head in
      (
        eqb (new_entry q keys val).head_count (length (dedup keys)),
        after,
        enqueue-run q keys val heap head (new-ref q val new) linked,
        at_head_iff q keys,
        λ k.
            join_queues-entries e (dedup keys) q.queues k (dedup-HasDistinct keys).0
            ∙ ap (λ b. entries_of k q.queues ++ (if b then e ∷ [] else [])) (is_seen-dedup k keys),
        is_queued_value-at after val e (get-put_same val e q.ref),
        peek_tail-at after e (new_entry q keys val) refl at_e,
        inr (e, new_entry q keys val, refl, at_e),
      )
