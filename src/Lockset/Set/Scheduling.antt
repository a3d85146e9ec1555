-- ===== src/Lockset/Set/Scheduling.antt =====
-- internal/util/lockset/lockset.go: `Schedule` is safe.
use cdc_sink.Base.{
  ℕ, suc, ◌≤◌, ◌<◌, ◌≡◌, refl, ap, ◌∙◌, subst, inl, inr, Bool, true, false, Option, none, some,
  List, [], ◌∷◌, ◌++◌, length, length-append, Comparable, nat_eq, option_eq, arith, eqb, eqb_iff,
  same_or_not, All, All-map, Bool-cases,
}
use cdc_sink.Lockset.Queue.{Queue, dedup}
use cdc_sink.Lockset.Set.{
  Status, callback, Job, pending, running, dequeuing, peeking, checking, marking, Waiter, Tasks,
  fn_at, dispose, schedule,
}
use cdc_sink.Lockset.Set.Effects.{IsQueued, granted-IsQueued, IsEnqueued, enqueue-effect}
use cdc_sink.Lockset.Set.Held.{holds, held, present, fn_at-append, fn_at-append_last}
use cdc_sink.Lockset.Set.Safety.{IsBelow, IsKnown, IsSound, IsSafe}
use cdc_sink.Lockset.Set.Turns.{one_if, new-IsSafe}
use cdc_sink.Lockset.Set.Awake.{IsKept, push-IsAwake}
use cdc_sink.Lockset.Set.Tended.{one_self}
use cdc_sink.Lockset.Set.Woken.{enqueued-IsAwake}
use cdc_sink.Lockset.Set.Moves.{IsSound-move}

module _ {K E : Type 0} ⦃c : Comparable K⦄ (granted : List (Option ℕ)) where
  -- Nobody holds a waiter that is not there yet.
  held-fresh :
      (s : Tasks K E) (jobs : List Job) (v : ℕ)
      → IsSafe granted [] s
      → length s.waiters ≤ v
      → All (IsSound (length s.waiters) s.queue granted) jobs
      → held v jobs ≡ 0
  held-fresh s [] v inv past all = refl
  held-fresh s (j ∷ jobs) v inv past all =
      let rest = held-fresh s jobs v inv past all.1 in
      let first = holds-fresh j all.0 in omega (arith, rest, first)
    where
      not_queued : (w : ℕ) → IsQueued s.queue (some w) → one_if w v ≡ 0
      not_queued w there = elim (Bool-cases (eqb w v)) [
        | inl same ↦
            let below = inv.fresh w there in
            let p = (eqb_iff w v).0 same in absurd (omega (arith, below, p, past))
        | inr other ↦ rw other refl
      ]

      holds-fresh : (j : Job) → IsSound (length s.waiters) s.queue granted j → holds v j ≡ 0
      holds-fresh (pending w cancel) sound = refl
      holds-fresh (running w fn at_head) sound =
          not_queued w (granted-IsQueued none s.queue granted (some w) inv.reach sound)
      holds-fresh (dequeuing w) sound = not_queued w sound
      holds-fresh (peeking next) sound = refl
      holds-fresh (checking next head) sound = refl
      holds-fresh (marking next h) sound = refl

  -- The state after `Enqueue`.
  enqueued-IsSafe :
      (s : Tasks K E) (waiter : Waiter K E) (q' : Queue K (Option ℕ)) (ready : Bool)
      → waiter.fn ≡ some callback
      → IsSafe granted [] s
      → (done : IsEnqueued none s.queue q' granted (some (length s.waiters)) ready)
      → IsSafe done.after [] (record s { queue = q'; waiters = s.waiters ++ waiter ∷ [] })
  enqueued-IsSafe s waiter q' ready has inv done =
      let n = length s.waiters in
      let waiters = s.waiters ++ waiter ∷ [] in
      let size : length waiters ≡ suc n = length-append s.waiters (waiter ∷ []) ∙ omega arith in
      let known : (u : Option ℕ)
          → IsKnown n s.queue granted u
          → IsKnown (length waiters) q' done.after u =
        λ u was. (
          wider u n (length waiters) (omega (arith, size)) was.0,
          λ p. elim ((done.there u).0 p) [
            | inl before ↦ done.kept u (was.1 before)
            | inr same ↦ absurd (not_below n (subst (IsBelow n) same was.0))
          ],
        ) in
      record {
        reach = done.reach;
        sound =
            All-map _ _ s.jobs
              (λ j sound.
                IsSound-move n (length waiters) s.queue q' granted done.after known
                  (omega (arith, size)) j
                  (λ w holding.
                    (λ there. done.kept (some w) there, λ p. (done.there (some w)).1 (inl p)))
                  sound)
              inv.sound;
        sound_out = tt;
        has_fn = λ v some_fn. elim (same_or_not v n) [
          | inl same ↦ (done.there (some v)).1 (inr (ap some same))
          | inr old ↦
              (done.there (some v)).1
                (inl (inv.has_fn v (λ p. some_fn (fn_at-append s.waiters waiter v old ∙ p))))
        ];
        fresh = λ v p. elim ((done.there (some v)).0 p) [
          | inl before ↦ let below = inv.fresh v before in omega (arith, below, size)
          | inr same ↦ let here : v ≡ n = cc in omega (arith, here, size)
        ];
        once = λ v. elim (same_or_not v n) [
          | inl same ↦
              let free = held-fresh s s.jobs v inv (omega (arith, same)) inv.sound in
              let one : present (fn_at waiters v) ≡ 1 =
                ap present (ap (fn_at waiters) same ∙ fn_at-append_last s.waiters waiter ∙ has) in
              omega (arith, free, one)
          | inr old ↦
              let was = inv.once v in
              let kept = ap present (fn_at-append s.waiters waiter v old) in
              omega (arith, was, kept)
        ];
      }
    where
      wider : (u : Option ℕ) (n m : ℕ) → n ≤ m → IsBelow n u → IsBelow m u
      wider none n m le below = tt
      wider (some w) n m le below = omega (arith, le, below)

      not_below : (n : ℕ) → n < n → ⊥
      not_below n p = omega (arith, p)

  -- `Schedule` does not panic, and its value is never refused.
  pub schedule-IsKept :
      (dup_err : E) (s : Tasks K E) (keys : List K)
      → IsKept granted [] s
      → (s' : Tasks K E) × (after : List (Option ℕ)) × (schedule dup_err keys s ≡ some s')
        × IsKept after [] s'
  unfolding schedule
  schedule-IsKept dup_err s keys (inv, awake) =
      elim (enqueue-effect none s.queue granted (dedup keys) (some (length s.waiters)) inv.reach) [
        | inl (there, _) ↦
            let below = inv.fresh (length s.waiters) there in absurd (omega (arith, below))
        | inr (true, q', run, done) ↦
            let waiter : Waiter K E = record {
              fn = some callback;
              keys = dedup keys;
              status = Status.queued;
            } in
            let inv' = enqueued-IsSafe s waiter q' true refl inv done in
            let n = length s.waiters in
            let may = done.told refl in
            (
              dispose n false (record s { queue = q'; waiters = s.waiters ++ waiter ∷ [] }),
              done.after,
              rw (run, schedule) refl,
              (
                new-IsSafe done.after (record s { queue = q'; waiters = s.waiters ++ waiter ∷ [] })
                    [] n false inv'
                    (
                      inv'.fresh n (granted-IsQueued none q' done.after (some n) done.reach may),
                      λ p. may,
                    ),
                push-IsAwake done.after
                    (record s { queue = q'; waiters = s.waiters ++ waiter ∷ [] }) (pending n false)
                    []
                    (enqueued-IsAwake granted s waiter q' true (pending n false ∷ []) refl inv awake
                      done (λ told. let self = one_self n in omega (arith, self))),
              ),
            )
        | inr (false, q', run, done) ↦
            let waiter : Waiter K E = record {
              fn = some callback;
              keys = dedup keys;
              status = Status.queued;
            } in
            (
              record s { queue = q'; waiters = s.waiters ++ waiter ∷ [] },
              done.after,
              rw (run, schedule) refl,
              (
                enqueued-IsSafe s waiter q' false refl inv done,
                enqueued-IsAwake granted s waiter q' false [] refl inv awake done
                    (λ told. absurd (ground (arith, told))),
              ),
            )
      ]
