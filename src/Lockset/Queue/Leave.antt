-- ===== src/Lockset/Queue/Leave.antt =====
-- internal/util/lockset/queue.go: the branches of one turn of the loop of `Dequeue`.
use cdc_sink.Base.{
  ℕ, suc, ◌≤◌, ◌≡◌, ◌≢◌, refl, ap, inl, inr, true, false, some, List, [], ◌∷◌, ◌++◌, length,
  get_elem?, set, Comparable, eqb, eqb_iff, ltb, arith, Bool-cases, map_delete, get-delete_same,
  get-delete_other, if◌then◌else◌,
}
use cdc_sink.Lockset.Queue.{
  QueueEntry, Promotion, entries_of, index_in, promote, put_entries, leave_queue,
}
use cdc_sink.Lockset.Queue.Dedup.{IsIn}
use cdc_sink.Lockset.Queue.Fronts.{without, is_front, index_in-without, index_in-front}

module _ {K : Type 0} ⦃c : Comparable K⦄ where
  pub entries_of-delete_same :
      (k : K) (queues : List (K × List ℕ)) → entries_of k (map_delete k queues) ≡ []
  unfolding entries_of
  entries_of-delete_same k queues = rw (get-delete_same k queues, entries_of) refl

  pub entries_of-delete_other :
      (j k : K) (queues : List (K × List ℕ))
      → j ≢ k
      → entries_of k (map_delete j queues) ≡ entries_of k queues
  unfolding entries_of
  entries_of-delete_other j k queues ne = rw (get-delete_other j k queues ne, entries_of) refl

module _ {K V : Type 0} ⦃c : Comparable K⦄ where
  abbrev pub counted : QueueEntry K V → QueueEntry K V
  counted e = record e { head_count = suc e.head_count }

  -- The loop's state after `h` was promoted.
  abbrev pub promoted : ℕ → QueueEntry K V → Promotion K V → Promotion K V
  promoted h e p = record p {
    heap = set p.heap h (counted e);
    ret = if eqb (suc e.head_count) (length e.keys) then p.ret ++ e.elt ∷ [] else p.ret;
  }

module _ {K V : Type 0} ⦃c : Comparable K⦄ ⦃d : Comparable V⦄ (zero_value : V) where
  promote-run :
      (h : ℕ) (e : QueueEntry K V) (p : Promotion K V)
      → get_elem? p.heap h ≡ some e
      → suc e.head_count ≤ length e.keys
      → promote zero_value h p ≡ some (promoted h e p)
  unfolding promote
  promote-run h e p at_h fits = elim (Bool-cases (eqb (suc e.head_count) (length e.keys))) [
    | inl full ↦ rw (at_h, promote) (rw full refl)
    | inr partial ↦
        let small : ltb (length e.keys) (suc e.head_count) ≡ false = ground arith in
        rw (at_h, promote) (rw (partial, small) refl)
  ]

  pub leave-alone :
      (w : ℕ) (k : K) (p : Promotion K V)
      → entries_of k p.queues ≡ w ∷ []
      → leave_queue zero_value w k p ≡ some (record p { queues = map_delete k p.queues })
  unfolding leave_queue index_in
  leave-alone w k p entries = rw (entries, leave_queue) refl

  pub leave-promote :
      (w h : ℕ) (rest : List ℕ) (k : K) (e : QueueEntry K V) (p : Promotion K V)
      → entries_of k p.queues ≡ w ∷ h ∷ rest
      → get_elem? p.heap h ≡ some e
      → suc e.head_count ≤ length e.keys
      → leave_queue zero_value w k p ≡ some (put_entries zero_value k (h ∷ rest) (promoted h e p))
  unfolding leave_queue index_in
  leave-promote w h rest k e p entries at_h fits =
      let same : eqb w w ≡ true = (eqb_iff w w).1 refl in
      let filled : eqb 0 (suc (suc (length rest))) ≡ false = ground arith in
      let run = promote-run h e p at_h fits in
      rw (entries, leave_queue) (rw same (rw (filled, run) refl))

  pub leave-middle :
      (w : ℕ) (k : K) (p : Promotion K V)
      → IsIn w (entries_of k p.queues)
      → is_front w (entries_of k p.queues) ≡ false
      → leave_queue zero_value w k p
        ≡ some (put_entries zero_value k (without w (entries_of k p.queues)) p)
  unfolding leave_queue
  leave-middle w k p there behind =
      let entries = entries_of k p.queues in
      let found = index_in-without w entries there in
      let inside : eqb (index_in w entries) (length entries) ≡ false =
        let lt = found.0 in ground (arith, lt) in
      let later : eqb (index_in w entries) 0 ≡ false =
        let front = index_in-front w entries there in ground (arith, front, behind) in
      rw (inside, leave_queue) (rw later (ap (λ l. some (put_entries zero_value k l p)) found.1))
