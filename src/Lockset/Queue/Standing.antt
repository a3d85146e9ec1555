-- ===== src/Lockset/Queue/Standing.antt =====
-- internal/util/lockset/queue.go: the queues of the keys after `Enqueue`.
use cdc_sink.Base.{
  is_seen, HasDistinct, ℕ, ◌<◌, ◌≡◌, ◌≢◌, sym, ap, ◌∙◌, subst, ◌⊎◌, inl, inr, ◌↔◌, true, false,
  Option, none, some, List, [], ◌∷◌, ◌++◌, length, get_elem?-lt, append_nil, Comparable, eqb,
  eqb_iff, arith, Bool-cases, same_or_not, map_get, if◌then◌else◌,
}
use cdc_sink.Lockset.Queue.{QueueEntry, Queue, dedup}
use cdc_sink.Lockset.Queue.Dedup.{IsIn, is_seen-IsIn, dedup-HasDistinct}
use cdc_sink.Lockset.Queue.Enqueue.{joined, join_queues-entries, new_entry, with_entry}
use cdc_sink.Lockset.Queue.Fronts.{
  Ascends, is_front, fronts, IsFirst, fronts-IsFirst, fronts-same, IsFirst-same,
}
use cdc_sink.Lockset.Queue.Invariant.{queue_of_key, IsReady, IsQueue}
use cdc_sink.Lockset.Queue.Joining.{IsJoined}
use cdc_sink.Lockset.Queue.Leaving.{IsBoard}
use cdc_sink.Lockset.Queue.Views.{view-some, keys_at, live_at}
use cdc_sink.Lockset.Queue.Newcomer.{Ascends-last, IsIn-last, front_kept, join_queues-fronts}

module _ {K V : Type 0} ⦃c : Comparable K⦄ ⦃d : Comparable V⦄ (q : Queue K V) (inv : IsQueue q)
    (keys : List K) (val : V) (new : map_get val q.ref ≡ none) (heap : List (QueueEntry K V))
    (head : Option ℕ) (joins : IsJoined q.heap heap (new_entry q keys val)) where
  -- Every address in a queue is one of the heap.
  below_new : (k : K) (i : ℕ) → IsIn i (queue_of_key q k) → i < length q.heap
  below_new k i there =
      let wants : IsIn k (keys_at q.heap i) = (inv.board.stands k i).0 there in
      let (e, at_i) =
        view-some [] (λ (x : QueueEntry K V). x.keys) q.heap i (λ p. subst (IsIn k) p wants) in
      get_elem?-lt q.heap i e at_i

  not_there : (k : K) → IsIn (length q.heap) (queue_of_key q k) → ⊥
  not_there k there = let below = below_new k (length q.heap) there in omega (arith, below)

  abbrev pub after : Queue K V
  after = with_entry q keys val heap head

  queues_after :
      (k : K) → queue_of_key after k ≡ queue_of_key q k ++ joined (length q.heap) k (dedup keys)
  unfolding with_entry
  queues_after k =
      join_queues-entries (length q.heap) (dedup keys) q.queues k (dedup-HasDistinct keys).0

  pub keys_new : keys_at heap (length q.heap) ≡ dedup keys
  unfolding new_entry
  keys_new = joins.keys_new

  pub live_new : live_at heap (length q.heap) ≡ some val
  unfolding new_entry
  live_new = joins.live_new

  queue_wanted :
      (k : K)
      → is_seen k (dedup keys) ≡ true
      → queue_of_key after k ≡ queue_of_key q k ++ length q.heap ∷ []
  queue_wanted k wanted =
      queues_after k ∙ ap (λ b. queue_of_key q k ++ (if b then length q.heap ∷ [] else [])) wanted

  queue_unwanted :
      (k : K) → is_seen k (dedup keys) ≡ false → queue_of_key after k ≡ queue_of_key q k
  queue_unwanted k not_wanted =
      queues_after k
      ∙ ap (λ b. queue_of_key q k ++ (if b then length q.heap ∷ [] else [])) not_wanted
      ∙ append_nil (queue_of_key q k)

  -- Who was in front of a queue still is, and nobody else but the new waiter.
  pub front_after :
      (i : ℕ) (k : K)
      → i ≢ length q.heap
      → is_front i (queue_of_key after k) ≡ is_front i (queue_of_key q k)
  front_after i k ne = elim (Bool-cases (is_seen k (dedup keys))) [
    | inl wanted ↦
        ap (is_front i) (queue_wanted k wanted) ∙ front_kept (queue_of_key q k) (length q.heap) i ne
    | inr not_wanted ↦ ap (is_front i) (queue_unwanted k not_wanted)
  ]

  -- The members of a queue: those who were there, and the new waiter if it wants the key.
  IsIn-after :
      (k : K) (i : ℕ)
      → IsIn i (queue_of_key after k)
        ↔ (IsIn i (queue_of_key q k) ⊎ ((length q.heap ≡ i) × IsIn k (dedup keys)))
  IsIn-after k i =
      let wants = is_seen-IsIn k (dedup keys) in
      elim (Bool-cases (is_seen k (dedup keys))) [
        | inl wanted ↦
            let last = IsIn-last (queue_of_key q k) (length q.heap) i in
            let same = queue_wanted k wanted in
            (
              λ p. elim (last.0 (subst (IsIn i) same p)) [
                | inl r ↦ inl r
                | inr r ↦ inr (r, wants.0 wanted)
              ],
              λ p. subst (IsIn i) (sym same) (last.1 (elim p [ inl r ↦ inl r | inr r ↦ inr r.0 ])),
            )
        | inr not_wanted ↦
            let same = queue_unwanted k not_wanted in
            (
              λ p. inl (subst (IsIn i) same p),
              λ p. elim p [
                | inl r ↦ subst (IsIn i) (sym same) r
                | inr r ↦ absurd (ground (arith, not_wanted, wants.1 r.1))
              ],
            )
      ]

  pub after-IsBoard : IsBoard (keys_at heap) (queue_of_key after)
  after-IsBoard = record {
    ascends = λ k. elim (Bool-cases (is_seen k (dedup keys))) [
      | inl wanted ↦
          subst Ascends (sym (queue_wanted k wanted))
            (Ascends-last (queue_of_key q k) (length q.heap) (below_new k) (inv.board.ascends k))
      | inr not_wanted ↦ subst Ascends (sym (queue_unwanted k not_wanted)) (inv.board.ascends k)
    ];
    stands = λ k i. elim (same_or_not i (length q.heap)) [
      | inl p ↦
          let mine : keys_at heap i ≡ dedup keys = ap (keys_at heap) p ∙ keys_new in
          (
            λ there. subst (IsIn k) (sym mine) (elim ((IsIn-after k i).0 there) [
              | inl r ↦ absurd (not_there k (subst (λ x. IsIn x (queue_of_key q k)) p r))
              | inr r ↦ r.1
            ]),
            λ wants. (IsIn-after k i).1 (inr (sym p, subst (IsIn k) mine wants)),
          )
      | inr ne ↦
          let was = inv.board.stands k i in
          (
            λ there. subst (IsIn k) (sym (joins.keys_old i ne)) (elim ((IsIn-after k i).0 there) [
              | inl r ↦ was.0 r
              | inr r ↦ absurd (ne (sym r.0))
            ]),
            λ wants. (IsIn-after k i).1 (inl (was.1 (subst (IsIn k) (joins.keys_old i ne) wants))),
          )
    ];
    distinct = λ i. elim (same_or_not i (length q.heap)) [
      | inl same ↦
          subst HasDistinct (sym (ap (keys_at heap) same ∙ keys_new)) (dedup-HasDistinct keys).0
      | inr other ↦ subst HasDistinct (sym (joins.keys_old i (other))) (inv.board.distinct i)
    ];
  }

  -- The count of the new waiter is how many of its keys have it in front.
  pub count_new :
      (new_entry q keys val).head_count ≡ fronts (length q.heap) (queue_of_key after) (dedup keys)
  unfolding new_entry
  count_new =
      join_queues-fronts (length q.heap) (dedup keys) q.queues (dedup-HasDistinct keys).0
        (λ k there. not_there k)
      ∙ fronts-same (length q.heap) (queue_of_key after)
          (λ k. queue_of_key q k ++ length q.heap ∷ []) (dedup keys)
          (λ k there.
            ap (is_front (length q.heap))
              (sym (queue_wanted k ((is_seen-IsIn k (dedup keys)).1 there))))

  pub at_head-IsReady :
      (eqb (new_entry q keys val).head_count (length (dedup keys)) ≡ true)
      ↔ IsReady after (length q.heap)
  unfolding with_entry
  at_head-IsReady =
      let all = (fronts-IsFirst (length q.heap) (queue_of_key after) (dedup keys)).1 in
      let test = eqb_iff (new_entry q keys val).head_count (length (dedup keys)) in
      let first : IsFirst (length q.heap) (queue_of_key after) (dedup keys)
          ≡ IsReady after (length q.heap) =
        ap (IsFirst (length q.heap) (queue_of_key after)) (sym keys_new) in
      (
        λ p. subst (λ X. X) first (all.0 (sym count_new ∙ test.0 p)),
        λ p. test.1 (count_new ∙ all.1 (subst (λ X. X) (sym first) p)),
      )

  pub IsReady-others : (i : ℕ) → i ≢ length q.heap → IsReady after i ↔ IsReady q i
  unfolding with_entry
  IsReady-others i ne =
      let same =
        IsFirst-same i (queue_of_key q) (queue_of_key after) (keys_at q.heap i)
          (λ k. front_after i k ne) in
      (
        λ p. same.0 (subst (IsFirst i (queue_of_key after)) (joins.keys_old i ne) p),
        λ p. subst (IsFirst i (queue_of_key after)) (sym (joins.keys_old i ne)) (same.1 p),
      )
