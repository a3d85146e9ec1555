-- ===== src/Lockset/Queue/Promote.antt =====
-- internal/util/lockset/queue.go: the loop of `Dequeue` promotes the waiter behind the one that leaves.
use cdc_sink.Base.{
  is_seen, ℕ, suc, ◌≤◌, ◌≡◌, ◌≢◌, refl, sym, ap, ◌∙◌, subst, ◌⊎◌, inl, inr, ◌↔◌, Bool, true, false,
  none, some, List, [], ◌∷◌, ◌++◌, length, get_elem?, set, length-set, Comparable, eqb, eqb_iff,
  arith, same_or_not, if◌then◌else◌,
}
use cdc_sink.Lockset.Queue.{QueueEntry, Promotion}
use cdc_sink.Lockset.Queue.Dedup.{IsIn, All-IsIn}
use cdc_sink.Lockset.Queue.Fronts.{
  without, is_front, fronts, IsFirst, fronts-IsFirst, fronts-same, IsFirst-same, fronts-gain,
}
use cdc_sink.Lockset.Queue.Leave.{counted, promoted}
use cdc_sink.Lockset.Queue.Leaving.{IsBoard, Leaving, IsReleased, IsShorter, queues_at-next}
use cdc_sink.Lockset.Queue.Stage.{stage, IsFirst-next, stage-quiet}
use cdc_sink.Lockset.Queue.Views.{
  view-get, view-set_same, view-set_other, view-set_keeps, keys_at, count_at, live, live_at,
}

IsIn-grown :
    {V : Type 0} (full : Bool) (ret : List V) (x v : V)
    → IsIn v (if full then ret ++ x ∷ [] else ret) ↔ (IsIn v ret ⊎ ((full ≡ true) × (x ≡ v)))
IsIn-grown false ret x v = (λ p. inl p, λ p. elim p [ inl q ↦ q | inr q ↦ cc ])
IsIn-grown true [] x v = (
  λ p. elim p [ inl q ↦ inr (refl, q) | inr q ↦ absurd q ],
  λ p. elim p [ inl q ↦ absurd q | inr q ↦ inl q.1 ],
)
IsIn-grown true (y ∷ ret) x v =
    let rest = IsIn-grown true ret x v in
    (
      λ p. elim p [
        | inl q ↦ inl (inl q)
        | inr q ↦ elim (rest.0 q) [ inl r ↦ inl (inr r) | inr r ↦ inr r ]
      ],
      λ p. elim p [
        | inl q ↦ elim q [ inl r ↦ inl r | inr r ↦ inr (rest.1 (inl r)) ]
        | inr q ↦ inr (rest.1 (inr q))
      ],
    )

-- The waiter `h` comes to the front of the queue of `k` when `w` leaves it.
pub record IsPromoted {K : Type 0} ⦃c : Comparable K⦄ (w : ℕ) (queue : K → List ℕ) (keys : List K)
    (k : K) (owed : List K) (h : ℕ) : Type 0 where
  pub other : h ≢ w
  pub wants : IsIn k keys
  pub gone : is_seen k owed ≡ false
  pub behind : is_front h (queue k) ≡ false
  pub before : is_front h (stage w queue (k ∷ owed) k) ≡ false
  pub after : is_front h (stage w queue owed k) ≡ true
  pub others : (j : K) → j ≢ k → stage w queue owed j ≡ stage w queue (k ∷ owed) j
  pub quiet : (i : ℕ) → i ≢ w → i ≢ h → is_front i (without w (queue k)) ≡ is_front i (queue k)

module _ {K V : Type 0} ⦃c : Comparable K⦄ (w : ℕ) (heap : List (QueueEntry K V))
    (queue : K → List ℕ) (board : IsBoard (keys_at heap) queue) (k : K) (owed : List K) (h : ℕ)
    (promotion : IsPromoted w queue (keys_at heap h) k owed h) (p : Promotion K V)
    (inv : Leaving w heap queue (k ∷ owed) p) (e : QueueEntry K V)
    (at_h : get_elem? p.heap h ≡ some e) (live_h : live_at heap h ≡ some e.elt) where
  gained : suc e.head_count ≡ fronts h (stage w queue owed) (keys_at heap h)
  gained =
      let gain =
        fronts-gain h (stage w queue (k ∷ owed)) (stage w queue owed) (keys_at heap h) k
          (board.distinct h) promotion.wants promotion.before promotion.after promotion.others in
      let count = inv.counts h promotion.other (λ q. ground (arith, q, live_h)) in
      let read = view-get 0 (λ (x : QueueEntry K V). x.head_count) p.heap h e at_h in
      omega (arith, gain, count, read)

  key_count : length (keys_at heap h) ≡ length e.keys
  key_count =
      ap length
        (sym (inv.same_keys h) ∙ view-get [] (λ (x : QueueEntry K V). x.keys) p.heap h e at_h)

  -- There is no over-counting.
  pub counted_fits : suc e.head_count ≤ length e.keys
  counted_fits =
      let bound = (fronts-IsFirst h (stage w queue owed) (keys_at heap h)).0 in
      omega (arith, bound, gained, key_count)

  full_iff :
      (eqb (suc e.head_count) (length e.keys) ≡ true)
      ↔ IsFirst h (stage w queue owed) (keys_at heap h)
  full_iff =
      let all = (fronts-IsFirst h (stage w queue owed) (keys_at heap h)).1 in
      let test = eqb_iff (suc e.head_count) (length e.keys) in
      (
        λ q. all.0 (let r = test.0 q in omega (arith, r, gained, key_count)),
        λ q. test.1 (let r = all.1 q in omega (arith, r, gained, key_count)),
      )

  not_before : (old : K → List ℕ) → is_front h (old k) ≡ false → IsFirst h old (keys_at heap h) → ⊥
  not_before old behind first =
      let front =
        All-IsIn (λ j. is_front h (old j) ≡ true) k (keys_at heap h) first promotion.wants in
      ground (arith, front, behind)

  counts-next :
      (i : ℕ)
      → i ≢ w
      → live_at heap i ≢ none
      → count_at (set p.heap h (counted e)) i ≡ fronts i (stage w queue owed) (keys_at heap i)
  counts-next i ne alive = elim (same_or_not h i) [
    | inl here ↦
        subst
          (λ x.
            count_at (set p.heap h (counted e)) x ≡ fronts x (stage w queue owed) (keys_at heap x))
          here
          (view-set_same 0 (λ (x : QueueEntry K V). x.head_count) p.heap h e (counted e) at_h
            ∙ gained)
    | inr away ↦
        let quiet = promotion.quiet i ne (λ q. away (sym q)) in
        view-set_other 0 (λ (x : QueueEntry K V). x.head_count) p.heap h i (counted e) away
        ∙ inv.counts i ne alive
        ∙ sym (
            fronts-same i _ _ (keys_at heap i)
              (λ j there. stage-quiet w queue i k owed promotion.gone quiet j))
  ]

  released-next : (v : V) → IsIn v (promoted h e p).ret ↔ IsReleased w heap queue owed v
  released-next v =
      let grown = IsIn-grown (eqb (suc e.head_count) (length e.keys)) p.ret e.elt v in
      (
        λ there. elim (grown.0 there) [
          | inl early ↦
              let (i, at_i, ne, all, was) = (inv.released v).0 early in
              (i, at_i, ne, IsFirst-next w queue i k owed (keys_at heap i) ne all, was)
          | inr (full, here) ↦ (
            h,
            live_h ∙ ap some here,
            promotion.other,
            full_iff.0 full,
            not_before queue promotion.behind,
          )
        ],
        λ (i, at_i, ne, all, was). elim (same_or_not h i) [
          | inl here ↦
              let elt : some e.elt ≡ some v = sym live_h ∙ ap (live_at heap) here ∙ at_i in
              let first : IsFirst h (stage w queue owed) (keys_at heap h) =
                subst (λ x. IsFirst x (stage w queue owed) (keys_at heap x)) (sym here) all in
              grown.1 (inr (full_iff.1 first, cc))
          | inr differs ↦
              let away : i ≢ h = λ q. differs (sym q) in
              let first =
                IsFirst-same i (stage w queue (k ∷ owed)) (stage w queue owed) (keys_at heap i)
                  (stage-quiet w queue i k owed promotion.gone (promotion.quiet i ne away)) in
              grown.1 (inl ((inv.released v).1 (i, at_i, ne, first.0 all, was)))
        ],
      )

  pub Leaving-promote :
      (queues : List (K × List ℕ))
      → IsShorter w heap queue k p.queues queues
      → Leaving w heap queue owed (record (promoted h e p) { queues = queues })
  Leaving-promote queues shorter = record {
    queues_at =
        queues_at-next w heap queue k owed p.queues queues promotion.gone inv.queues_at shorter;
    counts = counts-next;
    same_keys = λ i.
        view-set_keeps [] (λ (x : QueueEntry K V). x.keys) p.heap h i e (counted e) at_h refl
        ∙ inv.same_keys i;
    same_live = λ i. view-set_keeps none live p.heap h i e (counted e) at_h refl ∙ inv.same_live i;
    same_next = λ i.
        view-set_keeps none (λ (x : QueueEntry K V). x.next) p.heap h i e (counted e) at_h refl
        ∙ inv.same_next i;
    same_length = length-set p.heap h (counted e) ∙ inv.same_length;
    released = released-next;
  }
