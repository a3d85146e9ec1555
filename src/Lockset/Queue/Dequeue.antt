-- ===== src/Lockset/Queue/Dequeue.antt =====
-- internal/util/lockset/queue.go: what `Dequeue` does.
use cdc_sink.Base.{
  is_seen, ℕ, ◌≡◌, ◌≢◌, refl, sym, ap, ◌∙◌, inl, inr, ◌↔◌, false, Option, true, none, some, List,
  [], ◌∷◌, length, get_elem?, All, Comparable, arith, Bool-cases, map_get, map_delete,
}
use cdc_sink.Lockset.Queue.{
  invalidate, is_empty, elt_of, peek_tail, QueueEntry, Queue, Promotion, entries_of, leave_queues,
  clean_up, dequeue,
}
use cdc_sink.Lockset.Queue.Dedup.{IsIn, is_seen-IsIn}
use cdc_sink.Lockset.Queue.Fronts.{without, is_front, fronts-same, IsFirst-same}
use cdc_sink.Lockset.Queue.Invariant.{queue_of_key, IsReady, IsQueue}
use cdc_sink.Lockset.Queue.Leaving.{Leaving}
use cdc_sink.Lockset.Queue.Line.{IsLine, line-cases}
use cdc_sink.Lockset.Queue.Loop.{leave_queues-Leaving}
use cdc_sink.Lockset.Queue.Stage.{stage, without_absent}
use cdc_sink.Lockset.Queue.Views.{view-get, view-some, keys_at, live, live_at}
use cdc_sink.Lockset.Queue.Departure.{
  after, gone_length, live_gone, live_other, keys_other, shorter, gone_heap, gone_at, swept-IsLine,
  after-IsQueue, released_after,
}

-- Where a waiter is left, the list of all waiters has a head.
some_head :
    {K V : Type 0} (heap : List (QueueEntry K V)) (head tail : Option ℕ) (i : ℕ) (u : V)
    → IsLine heap head tail
    → live_at heap i ≡ some u
    → (h : ℕ) × (head ≡ some h)
some_head heap head tail i u line alive = elim (line-cases heap head tail line) [
  | inl (no_head, no_tail, nobody_there) ↦ absurd (ground (arith, nobody_there i, alive))
  | inr (h, t, v, at_head, at_tail, trail, there) ↦ (h, at_head)
]

peek_tail-at :
    {K V : Type 0} (q : Queue K V) (w : ℕ) (e : QueueEntry K V)
    → q.tail ≡ some w
    → get_elem? q.heap w ≡ some e
    → peek_tail q ≡ some e.elt
unfolding elt_of
peek_tail-at q w e at_tail at_w = ap (elt_of q) at_tail ∙ rw (at_w, elt_of) refl

module _ {K : Type 0} (P : K → Type 0) where
  pub All-of : (keys : List K) → ((k : K) → IsIn k keys → P k) → All P keys
  All-of [] each = tt
  All-of (k ∷ keys) each = (each k (inl refl), All-of keys (λ j there. each j (inr there)))

module _ {K V : Type 0} ⦃c : Comparable K⦄ ⦃d : Comparable V⦄ (q : Queue K V) (inv : IsQueue q)
    (w : ℕ) where
  -- The queues before the first turn of the loop.
  stage_start : (k : K) → stage w (queue_of_key q) (keys_at q.heap w) k ≡ queue_of_key q k
  stage_start k = elim (Bool-cases (is_seen k (keys_at q.heap w))) [
    | inl wanted ↦ rw wanted refl
    | inr not_wanted ↦
        let absent : IsIn w (queue_of_key q k) → ⊥ = λ there.
          let seen = (is_seen-IsIn k (keys_at q.heap w)).1 ((inv.board.stands k w).0 there) in
          ground (arith, seen, not_wanted) in
        rw not_wanted (without_absent w (queue_of_key q k) absent)
  ]

  pub Leaving-start :
      Leaving w q.heap
        (queue_of_key q)
        (keys_at q.heap w)
        (record { heap = q.heap; queues = q.queues; ret = [] })
  Leaving-start = record {
    queues_at = λ k. sym (stage_start k);
    counts = λ i ne alive.
        inv.counts i alive
        ∙ sym (fronts-same i _ _ (keys_at q.heap i) (λ k there. ap (is_front i) (stage_start k)));
    same_keys = λ i. refl;
    same_live = λ i. refl;
    same_next = λ i. refl;
    same_length = refl;
    released = λ v. (
      λ there. absurd there,
      λ (i, at_i, ne, all, was).
          was
            ((IsFirst-same i _ _ (keys_at q.heap i) (λ k. ap (is_front i) (stage_start k))).0 all),
    );
  }

  wanted_there : All (λ k. IsIn w (queue_of_key q k)) (keys_at q.heap w)
  wanted_there =
      All-of (λ k. IsIn w (queue_of_key q k)) (keys_at q.heap w)
        (λ k there. (inv.board.stands k w).1 there)

module _ {K V : Type 0} ⦃c : Comparable K⦄ ⦃d : Comparable V⦄ (zero_value : V) where
  dequeue-run :
      (q : Queue K V) (val : V) (w : ℕ) (e : QueueEntry K V) (left : Promotion K V) (q' : Queue K V)
      → map_get val q.ref ≡ some w
      → get_elem? q.heap w ≡ some e
      → leave_queues zero_value w e.keys (record { heap = q.heap; queues = q.queues; ret = [] })
        ≡ some left
      → clean_up zero_value w
          (record q { heap = left.heap; queues = left.queues; ref = map_delete val q.ref })
        ≡ some q'
      → dequeue zero_value q val ≡ some (left.ret, true, q')
  unfolding dequeue
  dequeue-run q val w e left q' found at_w run clean =
      rw (found, dequeue) (rw (at_w, dequeue) (rw run (rw clean refl)))

module _ {K V : Type 0} ⦃c : Comparable K⦄ ⦃d : Comparable V⦄ (zero_value : V) where
  -- A call of `Dequeue` for a value that is there, with what its parts leave.
  dequeue-after :
      (q : Queue K V) (val : V) (w : ℕ) (inv : IsQueue q)
      → map_get val q.ref ≡ some w
      → (live_w : live_at q.heap w ≡ some val)
      → (left : Promotion K V) × (leaving : Leaving w q.heap (queue_of_key q) [] left)
        × (e : QueueEntry K V) × (at_w : get_elem? left.heap w ≡ some e) × (head : Option ℕ)
        × (dequeue zero_value q val
            ≡ some (left.ret, true, after zero_value q inv val w live_w left leaving e at_w head))
        × IsLine
            (gone_heap zero_value q inv val w live_w left leaving e at_w)
            head
            (after zero_value q inv val w live_w left leaving e at_w head).tail
  dequeue-after q val w inv found live_w =
      let (e, at_w) = view-some none live q.heap w (λ p. ground (arith, live_w, p)) in
      let keys : keys_at q.heap w ≡ e.keys =
        view-get [] (λ (x : QueueEntry K V). x.keys) q.heap w e at_w in
      let start : Promotion K V = record { heap = q.heap; queues = q.queues; ret = [] } in
      let (left, run, leaving) =
        leave_queues-Leaving zero_value w q.heap (queue_of_key q) inv.board inv.vacant
          (keys_at q.heap w) start (inv.board.distinct w) (wanted_there q inv w)
          (Leaving-start q inv w) in
      let (e', at_w') =
        view-some none live left.heap w
          (λ p. ground (arith, live_w, sym (leaving.same_live w) ∙ p)) in
      let (found_head, clean, line) =
        swept-IsLine zero_value q inv val w live_w left leaving e' at_w' in
      (
        left,
        leaving,
        e',
        at_w',
        found_head,
        dequeue-run zero_value q val w e left
            (after zero_value q inv val w live_w left leaving e' at_w' found_head) found at_w
            (ap (λ ks. leave_queues zero_value w ks start) (sym keys) ∙ run) clean,
        line,
      )

  -- On a queue in which all is in order, `Dequeue` of a value that is there does not panic, and
  -- leaves a queue that is in order. The waiter has left the queues of its keys, and nothing else has
  -- changed in them; the other waiters are there as before, with the same keys, and no place of the
  -- heap is given up. The values that are returned are just those of the waiters that are now in
  -- front of all their queues and were not before.
  pub dequeue_releases :
      (q : Queue K V) (val : V) (w : ℕ)
      → IsQueue q
      → map_get val q.ref ≡ some w
      → (ret : List V) × (q' : Queue K V) × (dequeue zero_value q val ≡ some (ret, true, q'))
        × IsQueue q'
        × ((k : K) → entries_of k q'.queues ≡ without w (entries_of k q.queues))
        × (length q'.heap ≡ length q.heap)
        × (live_at q'.heap w ≡ none)
        × ((i : ℕ)
            → i ≢ w
            → (live_at q'.heap i ≡ live_at q.heap i) × (keys_at q'.heap i ≡ keys_at q.heap i))
        × ((v : V)
            → IsIn v ret
              ↔ ((i : ℕ) × (live_at q'.heap i ≡ some v) × IsReady q' i × (IsReady q i → ⊥)))
  dequeue_releases q val w inv found =
      let live_w = (inv.refs val w).0 found in
      let (left, leaving, e', at_w', found_head, run, line) =
        dequeue-after q val w inv found live_w in
      (
        left.ret,
        after zero_value q inv val w live_w left leaving e' at_w' found_head,
        run,
        after-IsQueue zero_value q inv val w live_w left leaving e' at_w' found_head line,
        shorter zero_value q inv val w live_w left leaving e' at_w',
        gone_length zero_value q inv val w live_w left leaving e' at_w',
        live_gone zero_value q inv val w live_w left leaving e' at_w',
        λ i ne. (
          live_other zero_value q inv val w live_w left leaving e' at_w' i ne,
          keys_other zero_value q inv val w live_w left leaving e' at_w' i ne,
        ),
        released_after zero_value q inv val w live_w left leaving e' at_w' found_head,
      )

  -- On a queue in which all is in order, `Dequeue` of the value at the tail, while another one is
  -- queued, does not panic and leaves a queue that is not empty, but of which `PeekTail` returns the
  -- zero value and true: the tail stays at the waiter that has left.
  pub dequeue_at_tail :
      (q : Queue K V) (val : V) (w other : ℕ) (u : V)
      → IsQueue q
      → map_get val q.ref ≡ some w
      → q.tail ≡ some w
      → other ≢ w
      → live_at q.heap other ≡ some u
      → (ret : List V) × (q' : Queue K V) × (dequeue zero_value q val ≡ some (ret, true, q'))
        × (is_empty q' ≡ false)
        × (peek_tail q' ≡ some zero_value)
  unfolding invalidate
  dequeue_at_tail q val w other u inv found at_tail ne queued =
      let live_w = (inv.refs val w).0 found in
      let (left, leaving, e, at_w, head, run, line) = dequeue-after q val w inv found live_w in
      let gone = gone_heap zero_value q inv val w live_w left leaving e at_w in
      let (h, filled) =
        some_head gone head (after zero_value q inv val w live_w left leaving e at_w head).tail
          other u line
          (live_other zero_value q inv val w live_w left leaving e at_w other ne ∙ queued) in
      let last = after zero_value q inv val w live_w left leaving e at_w head in
      let kept : last.tail ≡ q.tail =
        ap (λ (o : Option ℕ). elim o [ none ↦ none | some x ↦ q.tail ]) filled in
      let at_gone = gone_at zero_value q inv val w live_w left leaving e at_w in
      (
        left.ret,
        last,
        run,
        ap (λ o. is_empty (record last { head = o })) filled,
        peek_tail-at last w (invalidate zero_value e) (kept ∙ at_tail) at_gone,
      )
