-- ===== src/Lockset/Queue/Loop.antt =====
-- internal/util/lockset/queue.go: the loop of `Dequeue` gets to its end.
use cdc_sink.Base.{
  is_seen, HasDistinct, ℕ, ◌≡◌, ◌≢◌, refl, sym, ap, ◌∙◌, subst, inl, inr, false, none, some, List,
  [], ◌∷◌, get_elem?, All, Comparable, eqb_iff, Bool-cases, map_put, map_delete,
}
use cdc_sink.Lockset.Queue.{
  QueueEntry, Promotion, entries_of, leave_queue, leave_queues, put_entries,
}
use cdc_sink.Lockset.Queue.Dedup.{IsIn}
use cdc_sink.Lockset.Queue.Enqueue.{entries_of-same, entries_of-other}
use cdc_sink.Lockset.Queue.Fronts.{without, is_front}
use cdc_sink.Lockset.Queue.Leave.{
  entries_of-delete_same, entries_of-delete_other, promoted, leave-alone, leave-promote,
  leave-middle,
}
use cdc_sink.Lockset.Queue.Leaving.{IsBoard, Leaving, IsShorter, Leaving-quiet}
use cdc_sink.Lockset.Queue.Promote.{IsPromoted, Leaving-promote, counted_fits}
use cdc_sink.Lockset.Queue.Stage.{
  front-cases, without_front, is_front-without_behind, is_front-other, stage_here, stage_left,
  stage_other,
}
use cdc_sink.Lockset.Queue.Views.{view-get, view-some, keys_at, live, live_at}

-- A waiter with a key is valid.
live-some :
    {K V : Type 0} (heap : List (QueueEntry K V)) (i : ℕ) (e : QueueEntry K V)
    → live_at heap i ≡ live e
    → live_at heap i ≢ none
    → live_at heap i ≡ some e.elt
live-some heap i e p there = elim (Bool-cases e.valid) [
  | inl valid ↦ p ∙ rw valid refl
  | inr invalid ↦ absurd (there (p ∙ rw invalid refl))
]

module _ {K V : Type 0} ⦃c : Comparable K⦄ ⦃d : Comparable V⦄ (zero_value : V) (w : ℕ)
    (heap : List (QueueEntry K V)) (queue : K → List ℕ) (board : IsBoard (keys_at heap) queue)
    (vacant : (i : ℕ) → live_at heap i ≡ none → keys_at heap i ≡ []) where
  put-IsShorter :
      (k : K) (p : Promotion K V) (entries : List ℕ)
      → entries ≡ without w (queue k)
      → IsShorter w heap queue k p.queues (map_put k entries p.queues)
  put-IsShorter k p entries same = (
    entries_of-same k entries p.queues ∙ same,
    λ j ne. entries_of-other k j entries p.queues (elim (Bool-cases (c.equals k j)) [
      | inl hit ↦ absurd (ne ((c.equals_iff k j).0 hit))
      | inr miss ↦ miss
    ]),
  )

  -- The waiter that is promoted is on the heap, and has the key.
  promoted-there :
      (k : K) (owed : List K) (h : ℕ) (p : Promotion K V)
      → Leaving w heap queue (k ∷ owed) p
      → IsIn h (queue k)
      → (e : QueueEntry K V) × (get_elem? p.heap h ≡ some e) × (live_at heap h ≡ some e.elt)
  promoted-there k owed h p inv there =
      let wants : IsIn k (keys_at heap h) = (board.stands k h).0 there in
      let filled : keys_at heap h ≢ [] = λ q. subst (IsIn k) q wants in
      let (e, at_h) =
        view-some none live p.heap h (λ q. filled (vacant h (sym (inv.same_live h) ∙ q))) in
      (
        e,
        at_h,
        live-some heap h e (sym (inv.same_live h) ∙ view-get none live p.heap h e at_h)
            (λ q. filled (vacant h q)),
      )

  is_promoted :
      (k : K) (owed : List K) (h : ℕ) (rest : List ℕ)
      → is_seen k owed ≡ false
      → queue k ≡ w ∷ h ∷ rest
      → h ≢ w
      → IsPromoted w queue (keys_at heap h) k owed h
  is_promoted k owed h rest gone entries ne =
      let behind : is_front h (queue k) ≡ false =
        ap (is_front h) entries ∙ is_front-other h w (h ∷ rest) ne in
      let shorter : without w (queue k) ≡ h ∷ rest =
        ap (without w) entries ∙ without_front w (h ∷ rest) in
      record {
        other = ne;
        wants = (board.stands k h).0 (subst (IsIn h) (sym entries) (inr (inl refl)));
        gone = gone;
        behind = behind;
        before = ap (is_front h) (stage_here w queue k owed) ∙ behind;
        after = ap (is_front h) (stage_left w queue k owed gone ∙ shorter) ∙ (eqb_iff h h).1 refl;
        others = λ j away. sym (stage_other w queue k j owed (λ q. away (sym q)));
        quiet = λ i not_w not_h.
            ap (is_front i) shorter
            ∙ is_front-other i h rest not_h
            ∙ sym (ap (is_front i) entries ∙ is_front-other i w (h ∷ rest) not_w);
      }

  leave_queue-Leaving :
      (k : K) (owed : List K) (p : Promotion K V)
      → is_seen k owed ≡ false
      → IsIn w (queue k)
      → Leaving w heap queue (k ∷ owed) p
      → (p' : Promotion K V) × (leave_queue zero_value w k p ≡ some p')
        × Leaving w heap queue owed p'
  unfolding put_entries
  leave_queue-Leaving k owed p gone there inv =
      let now : entries_of k p.queues ≡ queue k = inv.queues_at k ∙ stage_here w queue k owed in
      elim (front-cases w (queue k) there (board.ascends k)) [
        | inl alone ↦
            let empty : without w (queue k) ≡ [] = ap (without w) alone ∙ without_front w [] in
            (
              record p { queues = map_delete k p.queues },
              leave-alone zero_value w k p (now ∙ alone),
              Leaving-quiet w heap queue k owed p (map_delete k p.queues) gone inv
                  (
                    entries_of-delete_same k p.queues ∙ sym empty,
                    λ j ne. entries_of-delete_other k j p.queues ne,
                  )
                  (λ i ne.
                    ap (is_front i) empty ∙ sym (ap (is_front i) alone ∙ is_front-other i w [] ne)),
            )
        | inr (inl (h, rest, entries, ne)) ↦
            let promotion = is_promoted k owed h rest gone entries ne in
            let (e, at_h, live_h) =
              promoted-there k owed h p inv (subst (IsIn h) (sym entries) (inr (inl refl))) in
            (
              put_entries zero_value k (h ∷ rest) (promoted h e p),
              leave-promote zero_value w h rest k e p (now ∙ entries) at_h
                  (counted_fits w heap queue board k owed h promotion p inv e at_h live_h),
              Leaving-promote w heap queue board k owed h promotion p inv e at_h live_h
                  (map_put k (h ∷ rest) p.queues)
                  (put-IsShorter k p (h ∷ rest)
                    (sym (ap (without w) entries ∙ without_front w (h ∷ rest)))),
            )
        | inr (inr behind) ↦ (
          put_entries zero_value k (without w (entries_of k p.queues)) p,
          leave-middle zero_value w k p (subst (IsIn w) (sym now) there)
              (ap (is_front w) now ∙ behind),
          Leaving-quiet w heap queue k owed p
              (map_put k (without w (entries_of k p.queues)) p.queues) gone inv
              (put-IsShorter k p (without w (entries_of k p.queues)) (ap (without w) now))
              (λ i ne. is_front-without_behind i w (queue k) behind),
        )
      ]

  pub leave_queues-Leaving :
      (owed : List K) (p : Promotion K V)
      → HasDistinct owed
      → All (λ k. IsIn w (queue k)) owed
      → Leaving w heap queue owed p
      → (p' : Promotion K V) × (leave_queues zero_value w owed p ≡ some p')
        × Leaving w heap queue [] p'
  unfolding leave_queues
  leave_queues-Leaving [] p distinct there inv = (p, refl, inv)
  leave_queues-Leaving (k ∷ owed) p distinct there inv =
      let (left, run, next) = leave_queue-Leaving k owed p distinct.0 there.0 inv in
      let (done, rest, last) = leave_queues-Leaving owed left distinct.1 there.1 next in
      (done, rw (run, leave_queues) rest, last)
