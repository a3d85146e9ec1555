-- ===== src/Lockset/Queue/Arrival.antt =====
-- internal/util/lockset/queue.go: `Enqueue` keeps the queue in order.
use cdc_sink.Base.{
  ℕ, ◌≡◌, ◌≢◌, refl, sym, ap, ◌∙◌, subst, inl, inr, ◌↔◌, Bool, true, Option, none, some, List,
  length, Comparable, eqb, arith, Bool-cases, same_or_not, map_get, map_put, get-put_same,
  get-put_other,
}
use cdc_sink.Lockset.Queue.{QueueEntry, Queue, dedup, enqueue}
use cdc_sink.Lockset.Queue.Enqueue.{new_entry, with_entry, enqueue-run}
use cdc_sink.Lockset.Queue.Fronts.{fronts, fronts-same}
use cdc_sink.Lockset.Queue.Invariant.{queue_of_key, IsReady, IsQueue}
use cdc_sink.Lockset.Queue.Joining.{IsJoined, link-IsLine}
use cdc_sink.Lockset.Queue.Line.{IsLine, view-beyond}
use cdc_sink.Lockset.Queue.Views.{keys_at, count_at, live, live_at}
use cdc_sink.Lockset.Queue.Standing.{
  after, keys_new, live_new, front_after, after-IsBoard, count_new, at_head-IsReady, IsReady-others,
}

module _ {K V : Type 0} ⦃c : Comparable K⦄ ⦃d : Comparable V⦄ (q : Queue K V) (inv : IsQueue q)
    (keys : List K) (val : V) (new : map_get val q.ref ≡ none) (heap : List (QueueEntry K V))
    (head : Option ℕ) (joins : IsJoined q.heap heap (new_entry q keys val)) where
  refs_after :
      (v : V) (i : ℕ)
      → (map_get v (map_put val (length q.heap) q.ref) ≡ some i) ↔ (live_at heap i ≡ some v)
  refs_after v i = elim (Bool-cases (d.equals val v)) [
    | inl same ↦
        let p : val ≡ v = (d.equals_iff val v).0 same in
        let ref_v : map_get v (map_put val (length q.heap) q.ref) ≡ some (length q.heap) =
          ap (λ x. map_get v (map_put x (length q.heap) q.ref)) p
          ∙ get-put_same v (length q.heap) q.ref in
        (
          λ there.
              let here : some (length q.heap) ≡ some i = sym ref_v ∙ there in
              let at : length q.heap ≡ i = cc in
              ap (live_at heap) (sym at)
              ∙ (live_new q inv keys val new heap head joins)
              ∙ ap some p,
          λ alive. elim (same_or_not i (length q.heap)) [
            | inl here ↦ ref_v ∙ ap some (sym here)
            | inr ne ↦
                let old : map_get val q.ref ≡ some i =
                  (inv.refs val i).1 (sym (joins.live_old i ne) ∙ alive ∙ ap some (sym p)) in
                absurd (ground (arith, old, new))
          ],
        )
    | inr other ↦
        let ne : val ≢ v = λ p. ground (arith, other, (d.equals_iff val v).1 p) in
        let same = get-put_other val v (length q.heap) q.ref ne in
        let away : (o : Option V) → (o ≡ some v) → o ≢ some val =
          λ o at_v at_val. let both : some val ≡ some v = sym at_val ∙ at_v in ne cc in
        (
          λ there.
              let old : live_at q.heap i ≡ some v = (inv.refs v i).0 (sym same ∙ there) in
              let not_new : i ≢ length q.heap = λ r. ground (arith, old, unborn r) in
              joins.live_old i not_new ∙ old,
          λ alive.
              let not_new : i ≢ length q.heap = λ r.
                away (live_at heap i) alive
                  (ap (live_at heap) r ∙ (live_new q inv keys val new heap head joins)) in
              same ∙ (inv.refs v i).1 (sym (joins.live_old i not_new) ∙ alive),
        )
  ]
    where
      unborn : i ≡ length q.heap → live_at q.heap i ≡ none
      unborn r = view-beyond none live q.heap i (omega (arith, r))

  pub after-IsQueue :
      IsLine heap head (some (length q.heap)) → IsQueue (after q inv keys val new heap head joins)
  unfolding with_entry new_entry
  after-IsQueue line = record {
    board = (after-IsBoard q inv keys val new heap head joins);
    counts = λ i alive. elim (same_or_not i (length q.heap)) [
      | inl same ↦
          subst
            (λ x.
              count_at heap x
              ≡ fronts x (queue_of_key (after q inv keys val new heap head joins)) (keys_at heap x))
            (sym same)
            (joins.count_new
              ∙ (count_new q inv keys val new heap head joins)
              ∙ ap
                  (fronts (length q.heap) (queue_of_key (after q inv keys val new heap head joins)))
                  (sym (keys_new q inv keys val new heap head joins)))
      | inr ne ↦
          joins.count_old i ne
          ∙ inv.counts i (λ p. alive (joins.live_old i ne ∙ p))
          ∙ sym (
              fronts-same i (queue_of_key q)
                (queue_of_key (after q inv keys val new heap head joins)) (keys_at q.heap i)
                (λ k there. front_after q inv keys val new heap head joins i k ne))
          ∙ ap (fronts i (queue_of_key (after q inv keys val new heap head joins)))
              (sym (joins.keys_old i ne))
    ];
    vacant = λ i p. elim (same_or_not i (length q.heap)) [
      | inl same ↦
          let here : live_at heap i ≡ some val =
            ap (live_at heap) same ∙ (live_new q inv keys val new heap head joins) in
          absurd (ground (arith, here, p))
      | inr ne ↦ joins.keys_old i ne ∙ inv.vacant i (sym (joins.live_old i ne) ∙ p)
    ];
    refs = refs_after;
    line = line;
  }

module _ {K V : Type 0} ⦃c : Comparable K⦄ ⦃d : Comparable V⦄ where
  -- What `Enqueue` of a value that is not there keeps, and whom it tells to run.
  pub enqueue-IsQueue :
      (q : Queue K V) (keys : List K) (val : V)
      → IsQueue q
      → map_get val q.ref ≡ none
      → (at_head : Bool) × (q' : Queue K V) × (enqueue q keys val ≡ some (some at_head, q'))
        × IsQueue q'
        × (live_at q'.heap (length q.heap) ≡ some val)
        × (keys_at q'.heap (length q.heap) ≡ dedup keys)
        × ((at_head ≡ true) ↔ IsReady q' (length q.heap))
        × ((i : ℕ)
            → i ≢ length q.heap
            → (live_at q'.heap i ≡ live_at q.heap i)
              × (IsReady q' i ↔ IsReady q i)
              × (keys_at q'.heap i ≡ keys_at q.heap i))
  unfolding with_entry new_entry
  enqueue-IsQueue q keys val inv new =
      let (heap, head, linked, joins, line) =
        link-IsLine q.heap q.head q.tail (new_entry q keys val) val inv.line refl refl in
      (
        eqb (new_entry q keys val).head_count (length (dedup keys)),
        after q inv keys val new heap head joins,
        enqueue-run q keys val heap head new linked,
        after-IsQueue q inv keys val new heap head joins line,
        live_new q inv keys val new heap head joins,
        keys_new q inv keys val new heap head joins,
        at_head-IsReady q inv keys val new heap head joins,
        λ i ne. (
          joins.live_old i ne,
          IsReady-others q inv keys val new heap head joins i ne,
          joins.keys_old i ne,
        ),
      )
