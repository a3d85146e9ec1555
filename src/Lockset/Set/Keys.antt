-- ===== src/Lockset/Set/Keys.antt =====
-- internal/util/lockset: the keys under which a value is in the queue.
use cdc_sink.Base.{
  ◌≡◌, ◌≢◌, refl, sym, ap, ◌∙◌, subst, inl, inr, Bool, none, some, List, length, Comparable, arith,
  Option-cases, map_get,
}
use cdc_sink.Lockset.Queue.{Queue, dedup, enqueue, dequeue}
use cdc_sink.Lockset.Queue.Admitted.{
  reach-IsGranted, same_result, some_apart, enqueue-dup, dequeue-absent,
}
use cdc_sink.Lockset.Queue.Arrival.{enqueue-IsQueue}
use cdc_sink.Lockset.Queue.Dequeue.{dequeue_releases}
use cdc_sink.Lockset.Queue.Grants.{Reach}
use cdc_sink.Lockset.Queue.Line.{view-beyond}
use cdc_sink.Lockset.Queue.Progress.{keys_of, keys_of-live}
use cdc_sink.Lockset.Queue.Views.{live, live_at}
use cdc_sink.Lockset.Set.Effects.{IsQueued, IsQueued-live}

module _ {K V : Type 0} ⦃c : Comparable K⦄ ⦃d : Comparable V⦄ where
  -- The keys of a value are those that it was enqueued with, each once, and no later call changes them.
  pub enqueue-keys_of :
      (zero_value : V) (q q' : Queue K V) (granted : List V) (keys : List K) (v : V) (ready : Bool)
      → Reach zero_value q granted
      → enqueue q keys v ≡ some (some ready, q')
      → (keys_of q' v ≡ dedup keys) × ((u : V) → IsQueued q u → keys_of q' u ≡ keys_of q u)
  enqueue-keys_of zero_value q q' granted keys v ready reach run =
      let (inv, grants) = reach-IsGranted zero_value q granted reach in
      elim (Option-cases (map_get v q.ref)) [
        | inr (w, found) ↦
            let same =
              same_result (enqueue q keys v) (none, q) (some ready, q')
                (enqueue-dup q keys v w found) run in
            absurd (some_apart (some ready) ready refl (sym (ap (λ x. x.0) same)))
        | inl absent ↦
            let (said, next, run', inv', live_new, keys_new, first, others) =
              enqueue-IsQueue q keys v inv absent in
            let same = same_result (enqueue q keys v) (some said, next) (some ready, q') run' run in
            let queue : next ≡ q' = ap (λ x. x.1) same in
            (
              ap (λ x. keys_of x v) (sym queue)
                  ∙ keys_of-live next v (length q.heap) inv' live_new
                  ∙ keys_new,
              λ u there.
                  let (i, at_i) = (IsQueued-live q u inv).0 there in
                  let unborn = view-beyond none live q.heap (length q.heap) (omega arith) in
                  let old : i ≢ length q.heap =
                    λ r. some_apart (live_at q.heap i) u at_i (ap (live_at q.heap) r ∙ unborn) in
                  ap (λ x. keys_of x u) (sym queue)
                  ∙ keys_of-live next u i inv' ((others i old).0 ∙ at_i)
                  ∙ (others i old).2
                  ∙ sym (keys_of-live q u i inv at_i),
            )
      ]

  pub dequeue-keys_of :
      (zero_value : V) (q q' : Queue K V) (granted ret : List V) (v : V) (found : Bool)
      → Reach zero_value q granted
      → dequeue zero_value q v ≡ some (ret, found, q')
      → (u : V) → IsQueued q' u
      → keys_of q' u ≡ keys_of q u
  dequeue-keys_of zero_value q q' granted ret v found reach run u there =
      let (inv, grants) = reach-IsGranted zero_value q granted reach in
      elim (Option-cases (map_get v q.ref)) [
        | inl absent ↦
            let same =
              same_result (dequeue zero_value q v) _ (ret, found, q')
                (dequeue-absent zero_value q v absent) run in
            ap (λ x. keys_of x.2 u) (sym same)
        | inr (w, at_w) ↦
            let (got, next, run', inv', shorter, size, gone, others, released) =
              dequeue_releases zero_value q v w inv at_w in
            let same = same_result (dequeue zero_value q v) _ (ret, found, q') run' run in
            let queue : next ≡ q' = ap (λ x. x.2) same in
            let (i, at_i) =
              (IsQueued-live next u inv').0 (subst (λ x. IsQueued x u) (sym queue) there) in
            let ne : i ≢ w =
              λ r. some_apart (live_at next.heap i) u at_i (ap (live_at next.heap) r ∙ gone) in
            ap (λ x. keys_of x u) (sym queue)
            ∙ keys_of-live next u i inv' at_i
            ∙ (others i ne).1
            ∙ sym (keys_of-live q u i inv (sym (others i ne).0 ∙ at_i))
      ]
