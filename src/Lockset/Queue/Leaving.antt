-- ===== src/Lockset/Queue/Leaving.antt =====
-- internal/util/lockset/queue.go: what the loop of `Dequeue` keeps while a waiter leaves the queues
-- of its keys.
use cdc_sink.Base.{
  is_seen, HasDistinct, ℕ, ◌≡◌, ◌≢◌, sym, ◌∙◌, subst, inl, inr, ◌↔◌, false, none, some, List, ◌∷◌,
  length, Comparable, arith, Bool-cases,
}
use cdc_sink.Lockset.Queue.{QueueEntry, Promotion, entries_of}
use cdc_sink.Lockset.Queue.Dedup.{IsIn}
use cdc_sink.Lockset.Queue.Fronts.{
  Ascends, without, is_front, fronts, IsFirst, fronts-same, IsFirst-same,
}
use cdc_sink.Lockset.Queue.Stage.{stage, stage_left, stage_other, stage-quiet}
use cdc_sink.Lockset.Queue.Views.{keys_at, count_at, live_at, next_at}

-- Every waiter stands in the queues of its keys and in no others, each queue is in the order in which
-- the waiters came, and no waiter has a key twice.
pub record IsBoard {K : Type 0} ⦃c : Comparable K⦄ (keys : ℕ → List K) (queue : K → List ℕ)
    : Type 0 where
  pub ascends : (k : K) → Ascends (queue k)
  pub stands : (k : K) (i : ℕ) → IsIn i (queue k) ↔ IsIn k (keys i)
  pub distinct : (i : ℕ) → HasDistinct (keys i)

module _ {K V : Type 0} ⦃c : Comparable K⦄ (w : ℕ) (heap : List (QueueEntry K V))
    (queue : K → List ℕ) where
  -- A waiter that has come to the front of the last of its queues.
  abbrev pub IsReleased : List K → V → Type 0
  IsReleased owed v =
      (i : ℕ) × (live_at heap i ≡ some v)
      × (i ≢ w)
      × IsFirst i (stage w queue owed) (keys_at heap i)
      × (IsFirst i queue (keys_at heap i) → ⊥)

  -- The waiter `w` has still to leave the queues of the keys `owed`.
  pub record Leaving (owed : List K) (p : Promotion K V) : Type 0 where
    pub queues_at : (k : K) → entries_of k p.queues ≡ stage w queue owed k
    pub counts :
        (i : ℕ)
        → i ≢ w
        → live_at heap i ≢ none
        → count_at p.heap i ≡ fronts i (stage w queue owed) (keys_at heap i)
    pub same_keys : (i : ℕ) → keys_at p.heap i ≡ keys_at heap i
    pub same_live : (i : ℕ) → live_at p.heap i ≡ live_at heap i
    pub same_next : (i : ℕ) → next_at p.heap i ≡ next_at heap i
    pub same_length : length p.heap ≡ length heap
    pub released : (v : V) → IsIn v p.ret ↔ IsReleased owed v

  -- The map after a turn of the loop.
  abbrev pub IsShorter : K → List (K × List ℕ) → List (K × List ℕ) → Type 0
  IsShorter k old new =
      (entries_of k new ≡ without w (queue k))
      × ((j : K) → k ≢ j → entries_of j new ≡ entries_of j old)

  pub queues_at-next :
      (k : K) (owed : List K) (old new : List (K × List ℕ))
      → is_seen k owed ≡ false
      → ((j : K) → entries_of j old ≡ stage w queue (k ∷ owed) j)
      → IsShorter k old new
      → (j : K) → entries_of j new ≡ stage w queue owed j
  queues_at-next k owed old new gone before shorter j = elim (Bool-cases (c.equals k j)) [
    | inl same ↦
        let p : k ≡ j = (c.equals_iff k j).0 same in
        subst (λ x. entries_of x new ≡ stage w queue owed x) p
          (shorter.0 ∙ sym (stage_left w queue k owed gone))
    | inr other ↦
        let ne : k ≢ j = λ p. ground (arith, other, (c.equals_iff k j).1 p) in
        shorter.1 j ne ∙ before j ∙ stage_other w queue k j owed ne
  ]

  -- A turn in which no waiter comes to the front of the queue.
  pub Leaving-quiet :
      (k : K) (owed : List K) (p : Promotion K V) (queues : List (K × List ℕ))
      → is_seen k owed ≡ false
      → Leaving (k ∷ owed) p
      → IsShorter k p.queues queues
      → ((i : ℕ) → i ≢ w → is_front i (without w (queue k)) ≡ is_front i (queue k))
      → Leaving owed (record p { queues = queues })
  Leaving-quiet k owed p queues gone inv shorter quiet = record {
    queues_at = queues_at-next k owed p.queues queues gone inv.queues_at shorter;
    counts = λ i ne alive.
        inv.counts i ne alive
        ∙ sym (
            fronts-same i _ _ (keys_at heap i)
              (λ j there. stage-quiet w queue i k owed gone (quiet i ne) j));
    same_keys = inv.same_keys;
    same_live = inv.same_live;
    same_next = inv.same_next;
    same_length = inv.same_length;
    released = λ v.
        let first : (i : ℕ)
            → i ≢ w
            → IsFirst i (stage w queue owed) (keys_at heap i)
              ↔ IsFirst i (stage w queue (k ∷ owed)) (keys_at heap i) =
          λ i ne.
            IsFirst-same i _ _ (keys_at heap i) (stage-quiet w queue i k owed gone (quiet i ne)) in
        let before = inv.released v in
        (
          λ there.
              let (i, at_i, ne, all, was) = before.0 there in
              (i, at_i, ne, (first i ne).1 all, was),
          λ (i, at_i, ne, all, was). before.1 (i, at_i, ne, (first i ne).0 all, was),
        );
  }
