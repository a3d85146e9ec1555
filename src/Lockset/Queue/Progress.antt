-- ===== src/Lockset/Queue/Progress.antt =====
-- internal/util/lockset/queue.go: who may run at the same time, and that someone always may.
use cdc_sink.Base.{
  is_seen, ℕ, ◌<◌, ◌≡◌, ◌≢◌, refl, sym, ap, ◌∙◌, subst, ◌⊎◌, inl, inr, true, false, none, some,
  List, [], ◌∷◌, All, Comparable, eqb_iff, arith, Bool-cases, Option-cases, map_get,
}
use cdc_sink.Lockset.Queue.{QueueEntry, Queue, is_empty, elt_of, peek_head, is_queued_value}
use cdc_sink.Lockset.Queue.Admitted.{reach-IsGranted, some_apart, same_result}
use cdc_sink.Lockset.Queue.Dedup.{IsIn, All-IsIn, is_seen-IsIn}
use cdc_sink.Lockset.Queue.Dequeue.{All-of}
use cdc_sink.Lockset.Queue.Fronts.{Ascends, is_front}
use cdc_sink.Lockset.Queue.Grants.{Reach}
use cdc_sink.Lockset.Queue.Invariant.{queue_of_key, IsReady, IsQueue}
use cdc_sink.Lockset.Queue.Line.{line-cases}
use cdc_sink.Lockset.Queue.Views.{view-get, view-some, keys_at, live, live_at}

-- One waiter is in front of a queue.
front_unique :
    (i j : ℕ) (entries : List ℕ) → is_front i entries ≡ true → is_front j entries ≡ true → i ≡ j
front_unique i j [] at_i at_j = absurd (ground (arith, at_i))
front_unique i j (e ∷ entries) at_i at_j = sym ((eqb_iff e i).0 at_i) ∙ (eqb_iff e j).0 at_j

-- The front of a queue is in it, and comes before all others.
front-least :
    (i : ℕ) (entries : List ℕ)
    → IsIn i entries
    → Ascends entries
    → (is_front i entries ≡ true) ⊎ ((f : ℕ) × IsIn f entries × (f < i))
front-least i [] there asc = absurd there
front-least i (e ∷ entries) (inl here) asc = inl ((eqb_iff e i).1 here)
front-least i (e ∷ entries) (inr later) asc =
    inr (e, inl refl, All-IsIn (λ f. e < f) i entries asc.0 later)

module _ {K V : Type 0} ⦃c : Comparable K⦄ ⦃d : Comparable V⦄ where
  -- The keys of a value that is in the queue.
  unfoldable pub keys_of : Queue K V → V → List K
  keys_of q v = elim (map_get v q.ref) [ none ↦ [] | some i ↦ keys_at q.heap i ]

  pub keys_of-live :
      (q : Queue K V) (v : V) (i : ℕ)
      → IsQueue q
      → live_at q.heap i ≡ some v
      → keys_of q v ≡ keys_at q.heap i
  unfolding keys_of
  keys_of-live q v i inv at_i = rw ((inv.refs v i).1 at_i, keys_of) refl

  common-key :
      (q : Queue K V) (i j : ℕ) (k : K)
      → IsReady q i
      → IsReady q j
      → IsIn k (keys_at q.heap i)
      → IsIn k (keys_at q.heap j)
      → i ≡ j
  common-key q i j k first_i first_j wants_i wants_j =
      front_unique i j (queue_of_key q k)
        (All-IsIn (λ l. is_front i (queue_of_key q l) ≡ true) k (keys_at q.heap i) first_i wants_i)
        (All-IsIn (λ l. is_front j (queue_of_key q l) ≡ true) k (keys_at q.heap j) first_j wants_j)

  -- After any sequence of calls, two different values that may run at the same time have no key in
  -- common.
  pub granted_exclusive :
      (zero_value : V) (q : Queue K V) (granted : List V) (u v : V)
      → Reach zero_value q granted
      → IsIn u granted
      → IsIn v granted
      → u ≢ v
      → All (λ k. is_seen k (keys_of q v) ≡ false) (keys_of q u)
  granted_exclusive zero_value q granted u v reach at_u at_v ne =
      let (inv, grants) = reach-IsGranted zero_value q granted reach in
      let (i, at_i, first_i) = (grants u).0 at_u in
      let (j, at_j, first_j) = (grants v).0 at_v in
      let keys_u = keys_of-live q u i inv at_i in
      let keys_v = keys_of-live q v j inv at_j in
      All-of (λ k. is_seen k (keys_of q v) ≡ false) (keys_of q u)
        (λ k wants_u. elim (Bool-cases (is_seen k (keys_of q v))) [
          | inr apart ↦ apart
          | inl shared ↦
              let wants_v = (is_seen-IsIn k (keys_of q v)).0 shared in
              let same =
                common-key q i j k first_i first_j (subst (IsIn k) keys_u wants_u)
                  (subst (IsIn k) keys_v wants_v) in
              absurd
                (ne (same_result (live_at q.heap i) u v at_i (ap (live_at q.heap) same ∙ at_j)))
        ])

  -- The oldest waiter is in front of all its queues.
  pub oldest-IsReady :
      (q : Queue K V) (h : ℕ)
      → IsQueue q
      → ((i : ℕ) → i < h → live_at q.heap i ≡ none)
      → IsReady q h
  oldest-IsReady q h inv older =
      All-of (λ k. is_front h (queue_of_key q k) ≡ true) (keys_at q.heap h)
        (λ k wants.
          elim (front-least h (queue_of_key q k) ((inv.board.stands k h).1 wants)
            (inv.board.ascends k)) [
              | inl front ↦ front
              | inr (f, there, below) ↦
                  let gone : keys_at q.heap f ≡ [] = inv.vacant f (older f below) in
                  absurd (subst (IsIn k) gone ((inv.board.stands k f).0 there))
            ])

  pub peek_head-live :
      (q : Queue K V) (h : ℕ) (v : V)
      → q.head ≡ some h
      → live_at q.heap h ≡ some v
      → peek_head q ≡ some v
  unfolding elt_of
  peek_head-live q h v at_head alive =
      let (e, at_h) = view-some none live q.heap h (λ p. some_apart (live_at q.heap h) v alive p) in
      ap (elt_of q) at_head
      ∙ rw (at_h, elt_of) (elt e (sym (view-get none live q.heap h e at_h) ∙ alive))
    where
      elt : (e : QueueEntry K V) → live e ≡ some v → some e.elt ≡ some v
      elt e p = elim (Bool-cases e.valid) [
        | inl valid ↦ rw valid at p
        | inr invalid ↦ absurd (some_apart (live e) v p (rw invalid refl))
      ]

  -- After any sequence of calls, the queue is empty and no value is in it, or the value at the head
  -- of the list of all waiters may run.
  pub head_granted :
      (zero_value : V) (q : Queue K V) (granted : List V)
      → Reach zero_value q granted
      → ((is_empty q ≡ true) × ((v : V) → is_queued_value q v ≡ false))
        ⊎ ((v : V) × (peek_head q ≡ some v) × IsIn v granted)
  unfolding is_queued_value
  head_granted zero_value q granted reach =
      let (inv, grants) = reach-IsGranted zero_value q granted reach in
      elim (line-cases q.heap q.head q.tail inv.line) [
        | inl (no_head, no_tail, gone) ↦ inl (
          ap (λ o. elim o [ none ↦ true | some h ↦ false ]) no_head,
          λ v. elim (Option-cases (map_get v q.ref)) [
            | inl absent ↦ rw (absent, is_queued_value) refl
            | inr (i, found) ↦
                absurd (some_apart (live_at q.heap i) v ((inv.refs v i).0 found) (gone i))
          ],
        )
        | inr (h, t, v, at_head, at_tail, trail, alive) ↦ inr (
          v,
          peek_head-live q h v at_head alive,
          (grants v).1 (h, alive, oldest-IsReady q h inv trail.older),
        )
      ]
