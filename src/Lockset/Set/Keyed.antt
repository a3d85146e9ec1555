-- ===== src/Lockset/Set/Keyed.antt =====
-- internal/util/lockset/lockset.go: every step keeps each task in the queue under its own keys.
use cdc_sink.Base.{
  ℕ, ◌≡◌, refl, sym, ap, ◌∙◌, subst, Ensures, ◌⊎◌, inl, inr, Bool, true, false, Option, none, some,
  List, [], ◌∷◌, ◌++◌, length, Comparable, nat_eq, option_eq, arith, same_or_not, Option-cases,
  map_get,
}
use cdc_sink.Lockset.Queue.{is_queued_value, Queue, dedup, enqueue, peek_head}
use cdc_sink.Lockset.Queue.Progress.{keys_of}
use cdc_sink.Lockset.Queue.Views.{view-append_last, view-append_other}
use cdc_sink.Lockset.Set.{
  Status, callback, Result, Job, pending, running, dequeuing, peeking, checking, marking, mark_head,
  Waiter, Tasks, dispose_all, cancel, begin, called, check, work, schedule,
}
use cdc_sink.Lockset.Set.Effects.{IsQueued, dequeue-effect, enqueue-effect}
use cdc_sink.Lockset.Set.Keys.{enqueue-keys_of, dequeue-keys_of}
use cdc_sink.Lockset.Set.Runs.{Runs, at_start, one_more, scheduled, cancelled, worked, Runs-IsSafe}
use cdc_sink.Lockset.Set.Safety.{IsSafe}
use cdc_sink.Lockset.Queue.Grants.{Reach}
use cdc_sink.Lockset.Set.Moves.{some_ne}
use cdc_sink.Lockset.Set.TaskKeys.{
  task_keys, dispose_all-HasSame, cancel-HasSame, begin-HasSame, finish-HasSame, HasSame,
  check-HasSame, mark_head-HasSame, IsKeyed, same-IsKeyed,
}

module _ {K E : Type 0} ⦃c : Comparable K⦄ where
  arrive :
      (o : Option (Tasks K E)) (s s' : Tasks K E)
      → o ≡ some s
      → o ≡ some s'
      → IsKeyed s
      → IsKeyed s'
  arrive o s s' p p' keyed =
      subst (λ (x : Option (Tasks K E)). elim x [ none ↦ Unit | some t ↦ IsKeyed t ]) (sym p ∙ p')
        keyed

  work-IsKeyed :
      (canceled_err : E) (s s' : Tasks K E) (granted : List (Option ℕ)) (j : Job)
      (result : Result E)
      → Reach none s.queue granted
      → work canceled_err j result s ≡ some s'
      → IsKeyed s
      → IsKeyed s'
  unfolding work
  work-IsKeyed canceled_err s s' granted (pending w stop) result reach run keyed =
      arrive _ (begin canceled_err w stop s) s' refl run
        (same-IsKeyed s (begin canceled_err w stop s) (begin-HasSame canceled_err s w stop) keyed)
  work-IsKeyed canceled_err s s' granted (running w fn at_head) result reach run keyed =
      same-IsKeyed s s'
        (subst (Ensures (HasSame s)) run
          (finish-HasSame s w fn at_head (called canceled_err fn result)))
        keyed
  work-IsKeyed canceled_err s s' granted (dequeuing w) result reach run keyed =
      let (ret, found, q', run', done) = dequeue-effect none s.queue granted (some w) reach in
      let left : Tasks K E = record s { queue = q'; jobs = s.jobs ++ peeking ret ∷ [] } in
      arrive (work canceled_err (dequeuing w) result s) left s' (rw (run', work) refl) run
        (λ v there.
          dequeue-keys_of none s.queue q' granted ret (some w) found reach run' (some v) there
          ∙ keyed v ((done.there (some v)).0 there).0)
  work-IsKeyed canceled_err s s' granted (peeking next) result reach run keyed =
      elim (Option-cases (peek_head s.queue)) [
        | inl empty ↦
            arrive (work canceled_err (peeking next) result s) (dispose_all next s) s'
              (rw (empty, work) refl) run
              (same-IsKeyed s (dispose_all next s) (dispose_all-HasSame s next) keyed)
        | inr (head, at_head) ↦
            let looking : Tasks K E = record s { jobs = s.jobs ++ checking next head ∷ [] } in
            arrive (work canceled_err (peeking next) result s) looking s' (rw (at_head, work) refl)
              run (same-IsKeyed s looking (refl, λ w. refl) keyed)
      ]
  work-IsKeyed canceled_err s s' granted (checking next head) result reach run keyed =
      arrive _ (check next head s) s' refl run
        (same-IsKeyed s (check next head s) (check-HasSame s next head) keyed)
  work-IsKeyed canceled_err s s' granted (marking next h) result reach run keyed =
      arrive _ (mark_head next h s) s' refl run
        (same-IsKeyed s (mark_head next h s) (mark_head-HasSame s next h) keyed)

  -- The state after `Enqueue`.
  enqueued-IsKeyed :
      (s : Tasks K E) (waiter : Waiter K E) (q' : Queue K (Option ℕ)) (granted : List (Option ℕ))
      (ready : Bool) (jobs : List Job)
      → Reach none s.queue granted
      → enqueue s.queue waiter.keys (some (length s.waiters)) ≡ some (some ready, q')
      → ((u : Option ℕ) → IsQueued q' u → IsQueued s.queue u ⊎ (u ≡ some (length s.waiters)))
      → IsKeyed s
      → IsKeyed (record s { queue = q'; waiters = s.waiters ++ waiter ∷ []; jobs = jobs })
  enqueued-IsKeyed s waiter q' granted ready jobs reach run was keyed w there =
      let n = length s.waiters in
      let (new, kept) =
        enqueue-keys_of none s.queue q' granted waiter.keys (some n) ready reach run in
      elim (same_or_not w n) [
        | inl same ↦
            ap (λ x. keys_of q' (some x)) same
            ∙ new
            ∙ ap dedup (
                sym (
                  ap (task_keys (s.waiters ++ waiter ∷ [])) same
                  ∙ view-append_last [] (λ (x : Waiter K E). x.keys) s.waiters waiter))
        | inr old ↦ elim (was (some w) there) [
          | inl before ↦
              kept (some w) before
              ∙ keyed w before
              ∙ ap dedup
                  (sym (view-append_other [] (λ (x : Waiter K E). x.keys) s.waiters waiter w old))
          | inr same ↦ absurd (some_ne w n old same)
        ]
      ]

  schedule-IsKeyed :
      (dup_err : E) (s s' : Tasks K E) (granted : List (Option ℕ)) (keys : List K)
      → IsSafe granted [] s
      → schedule dup_err keys s ≡ some s'
      → IsKeyed s
      → IsKeyed s'
  unfolding schedule
  schedule-IsKeyed dup_err s s' granted keys inv run keyed =
      let n = length s.waiters in
      let waiter : Waiter K E = record {
        fn = some callback;
        keys = dedup keys;
        status = Status.queued;
      } in
      elim (enqueue-effect none s.queue granted (dedup keys) (some n) inv.reach) [
        | inl (there, _) ↦ let below = inv.fresh n there in absurd (omega (arith, below))
        | inr (true, q', run', done) ↦
            let jobs = s.jobs ++ pending n false ∷ [] in
            arrive (schedule dup_err keys s)
              (record s { queue = q'; waiters = s.waiters ++ waiter ∷ []; jobs = jobs }) s'
              (rw (run', schedule) refl) run
              (enqueued-IsKeyed s waiter q' granted true jobs inv.reach run' (λ u. (done.there u).0)
                keyed)
        | inr (false, q', run', done) ↦
            arrive (schedule dup_err keys s)
              (record s { queue = q'; waiters = s.waiters ++ waiter ∷ [] }) s'
              (rw (run', schedule) refl) run
              (enqueued-IsKeyed s waiter q' granted false s.jobs inv.reach run'
                (λ u. (done.there u).0) keyed)
      ]

  -- After any steps each task in the queue is there under the keys that it was scheduled with.
  pub Runs-IsKeyed :
      (canceled_err dup_err : E) (s : Tasks K E) → Runs canceled_err dup_err s → IsKeyed s
  unfolding is_queued_value map_get
  Runs-IsKeyed canceled_err dup_err s at_start = λ w there. absurd (ground (arith, there))
  Runs-IsKeyed canceled_err dup_err s' (one_more before (scheduled keys run)) =
      let (granted, inv) = Runs-IsSafe canceled_err dup_err _ before in
      schedule-IsKeyed dup_err _ s' granted keys inv run
        (Runs-IsKeyed canceled_err dup_err _ before)
  Runs-IsKeyed canceled_err dup_err s' (one_more {s = s} before (cancelled w)) =
      same-IsKeyed s (cancel w s) (cancel-HasSame s w) (Runs-IsKeyed canceled_err dup_err s before)
  Runs-IsKeyed canceled_err dup_err s'
        (one_more {s = s} before (worked front back j result split run)) =
      let (granted, inv) = Runs-IsSafe canceled_err dup_err s before in
      let rest : Tasks K E = record s { jobs = front ++ back } in
      work-IsKeyed canceled_err rest s' granted j result inv.reach run
        (same-IsKeyed s rest (refl, λ w. refl) (Runs-IsKeyed canceled_err dup_err s before))
