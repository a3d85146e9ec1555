-- ===== src/Lockset/Queue/Departure.antt =====
-- internal/util/lockset/queue.go: the queue after `Dequeue` has taken a waiter out of it.
use cdc_sink.Base.{
  is_seen, HasDistinct, ℕ, ◌≡◌, ◌≢◌, refl, sym, ap, ◌∙◌, subst, inl, inr, ◌↔◌, Option, none, some,
  List, [], length, get_elem?, set, length-set, Comparable, arith, Bool-cases, same_or_not, map_get,
  map_delete, get-delete_same, get-delete_other,
}
use cdc_sink.Lockset.Queue.{
  QueueEntry, Queue, Promotion, entries_of, invalidate, skip_invalid, clean_up,
}
use cdc_sink.Lockset.Queue.Dedup.{IsIn}
use cdc_sink.Lockset.Queue.Fronts.{
  Ascends, without, is_front, fronts, IsFirst, fronts-same, IsFirst-same, without-Ascends,
  IsIn-without,
}
use cdc_sink.Lockset.Queue.Invariant.{queue_of_key, IsReady, IsQueue}
use cdc_sink.Lockset.Queue.Leaving.{Leaving}
use cdc_sink.Lockset.Queue.Line.{IsLine, kept_tail, line-cases, skip_invalid-IsLine, IsTrail-gone}
use cdc_sink.Lockset.Queue.Stage.{stage}
use cdc_sink.Lockset.Queue.Tail.{swept, clean_up-run, get_elem?-set}
use cdc_sink.Lockset.Queue.Views.{
  view-set_same, view-set_other, view-set_keeps, keys_at, count_at, live, live_at, next_at,
}

module _ {K V : Type 0} ⦃c : Comparable K⦄ ⦃d : Comparable V⦄ (zero_value : V) (q : Queue K V)
    (inv : IsQueue q) (val : V) (w : ℕ) (live_w : live_at q.heap w ≡ some val)
    (left : Promotion K V) (leaving : Leaving w q.heap (queue_of_key q) [] left)
    (e : QueueEntry K V) (at_w : get_elem? left.heap w ≡ some e) where
  unfoldable pub gone_heap : List (QueueEntry K V)
  gone_heap = set left.heap w (invalidate zero_value e)

  -- The queue after the call, given the head that the loop over the list found.
  abbrev pub after : Option ℕ → Queue K V
  after found =
      swept zero_value
        (record q { heap = left.heap; queues = left.queues; ref = map_delete val q.ref }) gone_heap
        found

  pub gone_length : length gone_heap ≡ length q.heap
  unfolding gone_heap
  gone_length = length-set left.heap w (invalidate zero_value e) ∙ leaving.same_length

  pub gone_at : get_elem? gone_heap w ≡ some (invalidate zero_value e)
  unfolding gone_heap
  gone_at = get_elem?-set left.heap w e (invalidate zero_value e) at_w

  pub live_gone : live_at gone_heap w ≡ none
  unfolding gone_heap invalidate
  live_gone = view-set_same none live left.heap w e (invalidate zero_value e) at_w

  keys_gone : keys_at gone_heap w ≡ []
  unfolding gone_heap invalidate
  keys_gone =
      view-set_same [] (λ (x : QueueEntry K V). x.keys) left.heap w e (invalidate zero_value e) at_w

  pub live_other : (i : ℕ) → i ≢ w → live_at gone_heap i ≡ live_at q.heap i
  unfolding gone_heap
  live_other i ne =
      view-set_other none live left.heap w i (invalidate zero_value e) (λ p. ne (sym p))
      ∙ leaving.same_live i

  pub keys_other : (i : ℕ) → i ≢ w → keys_at gone_heap i ≡ keys_at q.heap i
  unfolding gone_heap
  keys_other i ne =
      view-set_other [] (λ (x : QueueEntry K V). x.keys) left.heap w i (invalidate zero_value e)
        (λ p. ne (sym p))
      ∙ leaving.same_keys i

  next_kept : (i : ℕ) → next_at gone_heap i ≡ next_at q.heap i
  unfolding gone_heap invalidate
  next_kept i =
      view-set_keeps none (λ (x : QueueEntry K V). x.next) left.heap w i e (invalidate zero_value e)
        at_w refl
      ∙ leaving.same_next i

  pub shorter : (k : K) → entries_of k left.queues ≡ without w (queue_of_key q k)
  unfolding is_seen
  shorter k = leaving.queues_at k

  -- The loop over the list ends, at the oldest waiter that is left.
  pub swept-IsLine :
      (found : Option ℕ) × (clean_up zero_value w
          (record q { heap = left.heap; queues = left.queues; ref = map_delete val q.ref })
        ≡ some (after found))
      × IsLine gone_heap found (after found).tail
  unfolding gone_heap
  swept-IsLine = elim (line-cases q.heap q.head q.tail inv.line) [
    | inl (no_head, no_tail, nobody_there) ↦ absurd (ground (arith, nobody_there w, live_w))
    | inr (h, t, v, at_head, at_tail, trail, alive) ↦
        let kept =
          IsTrail-gone q.heap gone_heap w h t trail live_other live_gone next_kept gone_length in
        let (found, run, line) =
          skip_invalid-IsLine (length gone_heap) gone_heap h t kept (omega arith) in
        (
          found,
          clean_up-run zero_value
              (record q { heap = left.heap; queues = left.queues; ref = map_delete val q.ref }) w e
              found at_w (ap (skip_invalid (length gone_heap) gone_heap) at_head ∙ run),
          elim found
                as (λ o.
                  IsLine gone_heap o (kept_tail t o)
                  → IsLine gone_heap o (elim o [ none ↦ none | some x ↦ q.tail ])) [
                    | none ↦ λ l. l
                    | some x ↦ λ l. subst (IsLine gone_heap (some x)) (sym at_tail) l
                  ]
              line,
        )
  ]

  counts_kept :
      (i : ℕ)
      → live_at gone_heap i ≢ none
      → count_at gone_heap i ≡ fronts i (λ k. entries_of k left.queues) (keys_at gone_heap i)
  unfolding gone_heap
  counts_kept i alive =
      let ne : i ≢ w = λ p. alive (ap (live_at gone_heap) p ∙ live_gone) in
      view-set_other 0 (λ (x : QueueEntry K V). x.head_count) left.heap w i
        (invalidate zero_value e) (λ p. ne (sym p))
      ∙ leaving.counts i ne (λ p. alive (live_other i ne ∙ p))
      ∙ sym
          (fronts-same i _ _ (keys_at q.heap i) (λ k there. ap (is_front i) (leaving.queues_at k)))
      ∙ ap (fronts i (λ k. entries_of k left.queues)) (sym (keys_other i ne))

  refs_kept :
      (v : V) (i : ℕ) → (map_get v (map_delete val q.ref) ≡ some i) ↔ (live_at gone_heap i ≡ some v)
  refs_kept v i = elim (Bool-cases (d.equals val v)) [
    | inl same ↦
        let p : val ≡ v = (d.equals_iff val v).0 same in
        let no_ref : map_get v (map_delete val q.ref) ≡ none =
          ap (λ x. map_get v (map_delete x q.ref)) p ∙ get-delete_same v q.ref in
        (
          λ there. absurd (ground (arith, there, no_ref)),
          λ alive.
              let ne : i ≢ w = λ r. ground (arith, alive, ap (live_at gone_heap) r ∙ live_gone) in
              let ref_i = (inv.refs v i).1 (sym (live_other i ne) ∙ alive) in
              let ref_w : map_get v q.ref ≡ some w = (inv.refs v w).1 (live_w ∙ ap some p) in
              let both : some i ≡ some w = sym ref_i ∙ ref_w in absurd (ne cc),
        )
    | inr other ↦
        let ne : val ≢ v = λ p. ground (arith, other, (d.equals_iff val v).1 p) in
        let same = get-delete_other val v q.ref ne in
        let away : (live_at q.heap i ≡ some v) → i ≢ w = λ alive r.
          let both : some val ≡ some v = sym live_w ∙ ap (live_at q.heap) (sym r) ∙ alive in
          ne cc in
        (
          λ there.
              let alive = (inv.refs v i).0 (sym same ∙ there) in live_other i (away alive) ∙ alive,
          λ alive.
              let not_w : i ≢ w =
                λ r. ground (arith, alive, ap (live_at gone_heap) r ∙ live_gone) in
              same ∙ (inv.refs v i).1 (sym (live_other i not_w) ∙ alive),
        )
  ]

  pub after-IsQueue :
      (found : Option ℕ) → IsLine gone_heap found (after found).tail → IsQueue (after found)
  after-IsQueue found line = record {
    board = record {
      ascends = λ k.
          subst Ascends (sym (shorter k))
            (without-Ascends w (queue_of_key q k) (inv.board.ascends k));
      stands = λ k i.
          let mine = IsIn-without i w (queue_of_key q k) (inv.board.ascends k) in
          let was = inv.board.stands k i in
          (
            λ there.
                let (stood, ne) = mine.0 (subst (IsIn i) (shorter k) there) in
                subst (IsIn k) (sym (keys_other i ne)) (was.0 stood),
            λ wants.
                let ne : i ≢ w = λ p. subst (IsIn k) (ap (keys_at gone_heap) p ∙ keys_gone) wants in
                subst (IsIn i) (sym (shorter k))
                  (mine.1 (was.1 (subst (IsIn k) (keys_other i ne) wants), ne)),
          );
      distinct = λ i. elim (same_or_not i w) [
        | inl same ↦ subst HasDistinct (sym (ap (keys_at gone_heap) same ∙ keys_gone)) tt
        | inr other ↦ subst HasDistinct (sym (keys_other i (other))) (inv.board.distinct i)
      ];
    };
    counts = counts_kept;
    vacant = λ i p. elim (same_or_not i w) [
      | inl same ↦ ap (keys_at gone_heap) same ∙ keys_gone
      | inr ne ↦ keys_other i ne ∙ inv.vacant i (sym (live_other i ne) ∙ p)
    ];
    refs = refs_kept;
    line = line;
  }

  -- Whose count was completed by the loop.
  pub released_after :
      (found : Option ℕ) (v : V)
      → IsIn v left.ret
        ↔ ((i : ℕ) × (live_at gone_heap i ≡ some v) × IsReady (after found) i × (IsReady q i → ⊥))
  released_after found v =
      let first : (i : ℕ)
          → i ≢ w
          → IsReady (after found) i ↔ IsFirst i (stage w (queue_of_key q) []) (keys_at q.heap i) =
        λ i ne.
          let same =
            IsFirst-same i (stage w (queue_of_key q) []) (λ k. entries_of k left.queues)
              (keys_at q.heap i) (λ k. ap (is_front i) (leaving.queues_at k)) in
          (
            λ p. same.0 (subst (IsFirst i (λ k. entries_of k left.queues)) (keys_other i ne) p),
            λ p.
                subst (IsFirst i (λ k. entries_of k left.queues)) (sym (keys_other i ne))
                  (same.1 p),
          ) in
      (
        λ there.
            let (i, at_i, ne, all, was) = (leaving.released v).0 there in
            (i, live_other i ne ∙ at_i, (first i ne).1 all, was),
        λ (i, at_i, all, was).
            let ne : i ≢ w = λ r. ground (arith, at_i, ap (live_at gone_heap) r ∙ live_gone) in
            (leaving.released v).1 (i, sym (live_other i ne) ∙ at_i, ne, (first i ne).0 all, was),
      )
