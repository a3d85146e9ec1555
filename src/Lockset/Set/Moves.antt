-- ===== src/Lockset/Set/Moves.antt =====
-- internal/util/lockset/lockset.go: the turn that dequeues a waiter.
use cdc_sink.Base.{
  ℕ, ◌≤◌, ◌<◌, ◌≡◌, ◌≢◌, refl, sym, ap, ◌∙◌, inl, inr, true, false, Option, none, some, List, [],
  ◌∷◌, ◌++◌, length, Comparable, nat_eq, option_eq, arith, eqb_iff, All, All-map, Option-cases,
}
use cdc_sink.Lockset.Queue.{Queue}
use cdc_sink.Lockset.Queue.Dedup.{IsIn}
use cdc_sink.Lockset.Queue.Dequeue.{All-of}
use cdc_sink.Lockset.Set.{
  Job, pending, running, dequeuing, peeking, checking, marking, Tasks, fn_at,
}
use cdc_sink.Lockset.Set.Effects.{IsQueued, granted-IsQueued, IsDequeued}
use cdc_sink.Lockset.Set.Held.{holds, held, present}
use cdc_sink.Lockset.Set.Safety.{IsKnown, IsSound, IsSafe}
use cdc_sink.Lockset.Set.Turns.{one_if}

pub some_ne : (w v : ℕ) → w ≢ v → some w ≢ some v
some_ne w v ne p = absurd (ne cc)

module _ {K : Type 0} ⦃c : Comparable K⦄ (n n' : ℕ) (q q' : Queue K (Option ℕ))
    (granted after : List (Option ℕ))
    (known : (u : Option ℕ) → IsKnown n q granted u → IsKnown n' q' after u) (grows : n ≤ n') where
  -- What a goroutine relies on, when the queue changes under it.
  pub IsSound-move :
      (j : Job)
      → ((w : ℕ)
          → holds w j ≡ 1
          → (IsIn (some w) granted → IsIn (some w) after)
            × (IsQueued q (some w) → IsQueued q' (some w)))
      → IsSound n q granted j
      → IsSound n' q' after j
  IsSound-move (pending w true) held_kept sound = omega (arith, sound, grows)
  IsSound-move (pending w false) held_kept sound = known (some w) sound
  IsSound-move (running w fn at_head) held_kept sound = (held_kept w (self w)).0 sound
    where
      self : (w : ℕ) → one_if w w ≡ 1
      self w = rw ((eqb_iff w w).1 refl) refl
  IsSound-move (dequeuing w) held_kept sound = (held_kept w (self w)).1 sound
    where
      self : (w : ℕ) → one_if w w ≡ 1
      self w = rw ((eqb_iff w w).1 refl) refl
  IsSound-move (peeking next) held_kept sound = All-map _ _ next known sound
  IsSound-move (checking next head) held_kept sound =
      (All-map _ _ next known sound.0, known head sound.1)
  IsSound-move (marking next h) held_kept sound = All-map _ _ (next ++ some h ∷ []) known sound

  -- The same of goroutines none of which holds `v`.
  AreSound-move :
      (v : ℕ) (jobs : List Job)
      → ((w : ℕ)
          → w ≢ v
          → (IsIn (some w) granted → IsIn (some w) after)
            × (IsQueued q (some w) → IsQueued q' (some w)))
      → held v jobs ≡ 0
      → All (IsSound n q granted) jobs
      → All (IsSound n' q' after) jobs
  AreSound-move v [] others free all = tt
  AreSound-move v (j ∷ jobs) others free all = (
    IsSound-move j
        (λ w holding. others w (λ same.
          let mine : holds v j ≡ 1 = ap (λ x. holds x j) (sym same) ∙ holding in
          omega (arith, free, mine)))
        all.0,
    AreSound-move v jobs others (omega (arith, free)) all.1,
  )

module _ {K E : Type 0} ⦃c : Comparable K⦄ (granted : List (Option ℕ)) where
  -- `Dequeue` of the waiter that a goroutine holds.
  pub dequeue-IsSafe :
      (s : Tasks K E) (w : ℕ) (ret : List (Option ℕ)) (q' : Queue K (Option ℕ))
      → IsSafe granted (dequeuing w ∷ []) s
      → (done : IsDequeued none s.queue q' granted (some w) ret)
      → IsSafe done.after (peeking ret ∷ []) (record s { queue = q' })
  dequeue-IsSafe s w ret q' inv done =
      let n = length s.waiters in
      let only = inv.once w in
      let self : one_if w w ≡ 1 = rw ((eqb_iff w w).1 refl) refl in
      let known : (u : Option ℕ) → IsKnown n s.queue granted u → IsKnown n q' done.after u =
        λ u was.
          (was.0, λ p. let (before, ne) = (done.there u).0 p in done.kept u (was.1 before) ne) in
      let below : (v : ℕ) → IsQueued q' (some v) → v < n =
        λ v p. inv.fresh v ((done.there (some v)).0 p).0 in
      record {
        reach = done.reach;
        sound =
            AreSound-move n n s.queue q' granted done.after known (omega arith) w s.jobs
              (λ v ne. (
                λ there. done.kept (some v) there (some_ne v w ne),
                λ p. (done.there (some v)).1 (p, some_ne v w ne),
              ))
              (omega (arith, only, self)) inv.sound;
        sound_out = (All-of (IsKnown n q' done.after) ret (λ u there. told u there), tt);
        has_fn = λ v some_fn.
            let before = inv.has_fn v some_fn in
            (done.there (some v)).1 (before, some_ne v w (λ same. absent v some_fn same));
        fresh = below;
        once = λ v. let was = inv.once v in omega (arith, was);
      }
    where
      told : (u : Option ℕ) → IsIn u ret → IsKnown (length s.waiters) q' done.after u
      told none there = (tt, λ p. done.told none there)
      told (some v) there = (
        inv.fresh v
            ((done.there (some v)).0 (
              granted-IsQueued none q' done.after (some v) done.reach
                (done.told (some v) there))).0,
        λ p. done.told (some v) there,
      )

      absent : (v : ℕ) → fn_at s.waiters v ≢ none → v ≡ w → ⊥
      absent v some_fn same = elim (Option-cases (fn_at s.waiters v)) [
        | inl gone ↦ some_fn gone
        | inr (fn, there) ↦
            let here : present (fn_at s.waiters w) ≡ 1 =
              ap present (ap (fn_at s.waiters) (sym same) ∙ there) in
            let self : one_if w w ≡ 1 = rw ((eqb_iff w w).1 refl) refl in
            let only = inv.once w in absurd (omega (arith, here, self, only))
      ]
