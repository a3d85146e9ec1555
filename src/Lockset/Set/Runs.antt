-- ===== src/Lockset/Set/Runs.antt =====
-- internal/util/lockset/lockset.go: any sequence of calls and turns of the goroutines of a Set.
use cdc_sink.Base.{
  ℕ, ◌≡◌, refl, sym, ◌∙◌, subst, ◌⊎◌, ◌↔◌, Bool, true, false, Ensures, inl, inr, Option, none, some,
  List, [], ◌∷◌, ◌++◌, Comparable, nat_eq, option_eq, arith, Option-cases, map_get,
}
use cdc_sink.Lockset.Queue.{peek_head, is_queued_value}
use cdc_sink.Lockset.Queue.Grants.{start}
use cdc_sink.Lockset.Set.{
  Fn, callback, canceled, returns, panics, RetryAtHeadErr, fall_back, finish, ok, err,
  retry_at_head, Result, Job, pending, running, dequeuing, peeking, checking, marking, Tasks,
  new_tasks, fn_at, schedule, cancel, called, dispose_all, work,
}
use cdc_sink.Lockset.Set.Awake.{IsAwake, IsKept, pull-IsAwake, push-IsAwake}
use cdc_sink.Lockset.Set.Covered.{check-IsAwake, mark_head-IsAwake}
use cdc_sink.Lockset.Set.Tended.{begin-IsAwake}
use cdc_sink.Lockset.Set.Finished.{finish-IsAwake, cancel-IsAwake}
use cdc_sink.Lockset.Set.Woken.{no_head-IsAwake, found_head-IsAwake, dequeue-IsAwake}
use cdc_sink.Lockset.Set.Effects.{dequeue-effect, peek_head-granted}
use cdc_sink.Lockset.Set.Moves.{dequeue-IsSafe}
use cdc_sink.Lockset.Set.Scheduling.{schedule-IsKept}
use cdc_sink.Lockset.Set.Safety.{IsSafe, pull-IsSafe, push-IsSafe, turn-IsSafe, granted-IsKnown}
use cdc_sink.Lockset.Set.Steps.{
  begin-IsSafe, finish-IsSafe, cancel-IsSafe, check-IsSafe, mark_head-IsSafe,
}
use cdc_sink.Lockset.Set.Turns.{end-IsSafe, dispose_all-IsSafe}

-- One call of `Schedule`, or of the function that it returned, or one turn of any of the goroutines,
-- with any result of the callback. A panic ends the program, and is no step.
pub data Step {K E : Type 0} ⦃c : Comparable K⦄ (canceled_err dup_err : E) (s : Tasks K E)
    : Tasks K E → Type 0 where
  scheduled :
      {s' : Tasks K E} (keys : List K)
      → schedule dup_err keys s ≡ some s'
      → Step canceled_err dup_err s s'
  cancelled : (w : ℕ) → Step canceled_err dup_err s (cancel w s)
  worked :
      {s' : Tasks K E} (front back : List Job) (j : Job) (result : Result E)
      → s.jobs ≡ front ++ j ∷ back
      → work canceled_err j result (record s { jobs = front ++ back }) ≡ some s'
      → Step canceled_err dup_err s s'

-- What such steps lead to from a new Set.
pub data Runs {K E : Type 0} ⦃c : Comparable K⦄ (canceled_err dup_err : E)
    : Tasks K E → Type 0 where
  at_start : Runs canceled_err dup_err new_tasks
  one_more :
      {s s' : Tasks K E}
      → Runs canceled_err dup_err s
      → Step canceled_err dup_err s s'
      → Runs canceled_err dup_err s'

module _ {E : Type 0} where
  -- A pointer that is nil, or leads to an error with a fallback that panics.
  abbrev pub IsBad : Option (RetryAtHeadErr E) → Type 0
  IsBad none = Unit
  IsBad (some t) = t.fallback ≡ some panics

  -- What ends the program: the callback itself, which started at the head, gave such a pointer.
  abbrev pub IsFatal : Job → Result E → Type 0
  IsFatal j result =
      (w : ℕ) × (t : Option (RetryAtHeadErr E)) × (j ≡ running w callback true)
      × (result ≡ retry_at_head t)
      × IsBad t

  fall_back-IsBad : (t : Option (RetryAtHeadErr E)) → fall_back t ≡ none → IsBad t
  unfolding fall_back
  fall_back-IsBad none h = tt
  fall_back-IsBad (some t) h = elim (Option-cases t.fallback) [
    | inl missing ↦ absurd (ground (arith, missing, h))
    | inr (returns, there) ↦ absurd (ground (arith, there, h))
    | inr (panics, there) ↦ there
  ]

  IsBad-fall_back : (t : Option (RetryAtHeadErr E)) → IsBad t → fall_back t ≡ none
  unfolding fall_back
  IsBad-fall_back none bad = refl
  IsBad-fall_back (some t) bad = rw (bad, fall_back) refl

module _ {K E : Type 0} ⦃c : Comparable K⦄ where
  new-IsSafe : IsSafe [] [] (new_tasks {K = K} {E = E})
  unfolding fn_at is_queued_value map_get
  new-IsSafe = record {
    reach = start;
    sound = tt;
    sound_out = tt;
    has_fn = λ w some_fn. absurd (some_fn refl);
    fresh = λ w there. absurd (ground (arith, there));
    once = λ w. omega arith;
  }

  new-IsAwake : IsAwake [] [] (new_tasks {K = K} {E = E})
  unfolding is_queued_value map_get
  new-IsAwake = record {
    tended = λ w queued. absurd (ground (arith, queued));
    covered = λ w may has. absurd may;
    not_nil = λ queued. absurd (ground (arith, queued));
  }

  finish-IsFatal :
      (canceled_err : E) (w : ℕ) (fn : Fn) (at_head : Bool) (result : Result E) (s : Tasks K E)
      → finish w fn at_head (called canceled_err fn result) s ≡ none
      → IsFatal (running w fn at_head) result
  unfolding finish called
  finish-IsFatal canceled_err w canceled at_head result s h = absurd cc
  finish-IsFatal canceled_err w callback at_head ok s h = absurd cc
  finish-IsFatal canceled_err w callback at_head (err e) s h = absurd cc
  finish-IsFatal canceled_err w callback false (retry_at_head t) s h = absurd cc
  finish-IsFatal canceled_err w callback true (retry_at_head t) s h =
      elim (Option-cases (fall_back t)) [
        | inl gone ↦ (w, t, refl, refl, fall_back-IsBad t gone)
        | inr (status, there) ↦ absurd (ground (arith, there, h))
      ]

  IsFatal-work :
      (canceled_err : E) (j : Job) (result : Result E) (s : Tasks K E)
      → IsFatal j result
      → work canceled_err j result s ≡ none
  unfolding work finish called
  IsFatal-work canceled_err j result s (w, t, at_call, outcome, bad) =
      rw (at_call, outcome, IsBad-fall_back t bad) refl

  -- A turn of a goroutine that has been taken out.
  work-IsKept :
      (canceled_err : E) (s : Tasks K E) (granted : List (Option ℕ)) (j : Job) (result : Result E)
      → IsKept granted (j ∷ []) s
      → ((work canceled_err j result s ≡ none) × IsFatal j result)
        ⊎ ((s' : Tasks K E) × (after : List (Option ℕ)) × (work canceled_err j result s ≡ some s')
            × IsKept after [] s')
  unfolding work
  work-IsKept canceled_err s granted (pending w stop) result (inv, awake) = inr (
    _,
    granted,
    refl,
    (
      begin-IsSafe granted canceled_err s w stop inv,
      begin-IsAwake granted canceled_err s w stop inv awake,
    ),
  )
  work-IsKept canceled_err s granted (running w fn at_head) result (inv, awake) =
      let outcome = called canceled_err fn result in
      elim (Option-cases (finish w fn at_head outcome s)) [
        | inl gone ↦ inl (gone, finish-IsFatal canceled_err w fn at_head result s gone)
        | inr (s', there) ↦ inr (
          s',
          granted,
          there,
          (
            subst (Ensures (IsSafe granted [])) there
                (finish-IsSafe granted s w fn at_head outcome inv),
            subst (Ensures (IsAwake granted [])) there
                (finish-IsAwake granted s w fn at_head outcome inv awake),
          ),
        )
      ]
  work-IsKept canceled_err s granted (dequeuing w) result (inv, awake) =
      let (ret, found, q', run, done) = dequeue-effect none s.queue granted (some w) inv.reach in
      inr (
        record s { queue = q'; jobs = s.jobs ++ peeking ret ∷ [] },
        done.after,
        rw (run, work) refl,
        (
          push-IsSafe done.after (record s { queue = q' }) (peeking ret) []
              (dequeue-IsSafe granted s w ret q' inv done),
          push-IsAwake done.after (record s { queue = q' }) (peeking ret) []
              (dequeue-IsAwake granted s w ret q' awake done),
        ),
      )
  work-IsKept canceled_err s granted (peeking next) result (inv, awake) =
      elim (Option-cases (peek_head s.queue)) [
        | inl empty ↦ inr (
          dispose_all next s,
          granted,
          rw (empty, work) refl,
          (
            dispose_all-IsSafe granted s next (end-IsSafe granted s (peeking next) [] inv)
                inv.sound_out.0,
            no_head-IsAwake granted s next empty awake,
          ),
        )
        | inr (head, at_head) ↦
            let may = peek_head-granted none s.queue granted head inv.reach at_head in
            let known = granted-IsKnown granted s (peeking next ∷ []) inv head may in
            inr (
              record s { jobs = s.jobs ++ checking next head ∷ [] },
              granted,
              rw (at_head, work) refl,
              (
                push-IsSafe granted s (checking next head) [] (
                    turn-IsSafe granted s (peeking next ∷ []) (checking next head ∷ []) s.waiters
                      inv refl ((inv.sound_out.0, known), tt) inv.has_fn (λ w. omega arith)),
                push-IsAwake granted s (checking next head) []
                    (found_head-IsAwake granted s next head at_head awake),
              ),
            )
      ]
  work-IsKept canceled_err s granted (checking next head) result (inv, awake) = inr (
    _,
    granted,
    refl,
    (check-IsSafe granted s next head inv, check-IsAwake granted s next head awake),
  )
  work-IsKept canceled_err s granted (marking next h) result (inv, awake) = inr (
    _,
    granted,
    refl,
    (mark_head-IsSafe granted s next h inv, mark_head-IsAwake granted s next h awake),
  )

  worked-IsKept :
      (canceled_err : E) (s : Tasks K E) (granted : List (Option ℕ)) (front back : List Job)
      (j : Job) (result : Result E)
      → s.jobs ≡ front ++ j ∷ back
      → IsKept granted [] s
      → ((work canceled_err j result (record s { jobs = front ++ back }) ≡ none) × IsFatal j result)
        ⊎ ((s' : Tasks K E) × (after : List (Option ℕ)) × (work canceled_err j result
                (record s { jobs = front ++ back })
              ≡ some s')
            × IsKept after [] s')
  worked-IsKept canceled_err s granted front back j result split (inv, awake) =
      work-IsKept canceled_err (record s { jobs = front ++ back }) granted j result
        (
          pull-IsSafe granted s front back j split inv,
          pull-IsAwake granted s front back j split awake,
        )

  same_state :
      (o : Option (Tasks K E)) (s s' : Tasks K E) (after : List (Option ℕ))
      → o ≡ some s
      → o ≡ some s'
      → IsKept after [] s
      → IsKept after [] s'
  same_state o s s' after p p' inv =
      subst (λ (x : Option (Tasks K E)). elim x [ none ↦ Unit | some t ↦ IsKept after [] t ])
        (sym p ∙ p') inv

  pub Runs-IsKept :
      (canceled_err dup_err : E) (s : Tasks K E)
      → Runs canceled_err dup_err s
      → (granted : List (Option ℕ)) × IsKept granted [] s
  Runs-IsKept canceled_err dup_err s at_start = ([], (new-IsSafe, new-IsAwake))
  Runs-IsKept canceled_err dup_err s' (one_more before (scheduled keys run)) =
      let (granted, inv) = Runs-IsKept canceled_err dup_err _ before in
      let (t, after, run', inv') = schedule-IsKept granted dup_err _ keys inv in
      (after, same_state _ t s' after run' run inv')
  Runs-IsKept canceled_err dup_err s' (one_more before (cancelled w)) =
      let (granted, inv) = Runs-IsKept canceled_err dup_err _ before in
      (granted, (cancel-IsSafe granted _ w inv.0, cancel-IsAwake granted _ w inv.0 inv.1))
  Runs-IsKept canceled_err dup_err s' (one_more before (worked front back j result split run)) =
      let (granted, inv) = Runs-IsKept canceled_err dup_err _ before in
      elim (worked-IsKept canceled_err _ granted front back j result split inv) [
        | inl (panicked, _) ↦ absurd (cc (panicked, run))
        | inr (t, after, run', inv') ↦ (after, same_state _ t s' after run' run inv')
      ]

  -- Whatever the order of the calls and of the turns: each function that is there to be taken belongs
  -- to a waiter in the queue; each callback that runs belongs to a waiter that may run; each waiter
  -- that a goroutine will dispose of, without a cancellation, may run unless it has left the queue;
  -- each waiter that a goroutine is about to dequeue is in the queue; and the function of a waiter is
  -- never held by two goroutines, or by one while it is there to be taken. A goroutine that cancels a
  -- waiter may take its function while the waiter may not run yet.
  pub Runs-IsSafe :
      (canceled_err dup_err : E) (s : Tasks K E)
      → Runs canceled_err dup_err s
      → (granted : List (Option ℕ)) × IsSafe granted [] s
  Runs-IsSafe canceled_err dup_err s runs =
      let (granted, inv) = Runs-IsKept canceled_err dup_err s runs in (granted, inv.0)

  -- `Schedule` never panics.
  pub schedule_total :
      (canceled_err dup_err : E) (s : Tasks K E) (keys : List K)
      → Runs canceled_err dup_err s
      → (s' : Tasks K E) × (schedule dup_err keys s ≡ some s')
  schedule_total canceled_err dup_err s keys runs =
      let (granted, inv) = Runs-IsKept canceled_err dup_err s runs in
      let (s', after, run, inv') = schedule-IsKept granted dup_err s keys inv in (s', run)

  -- A turn of a goroutine panics exactly when its callback, which was not cancelled and started at the
  -- head of the queue, gave a nil pointer to a RetryAtHeadErr, or one with a fallback that panics.
  pub work_total :
      (canceled_err dup_err : E) (s : Tasks K E) (front back : List Job) (j : Job)
      (result : Result E)
      → Runs canceled_err dup_err s
      → s.jobs ≡ front ++ j ∷ back
      → (work canceled_err j result (record s { jobs = front ++ back }) ≡ none) ↔ IsFatal j result
  work_total canceled_err dup_err s front back j result runs split =
      let (granted, inv) = Runs-IsKept canceled_err dup_err s runs in
      (
        λ panicked. elim (worked-IsKept canceled_err s granted front back j result split inv) [
          | inl (_, fatal) ↦ fatal
          | inr (s', after, run, inv') ↦ absurd (cc (panicked, run))
        ],
        IsFatal-work canceled_err j result (record s { jobs = front ++ back }),
      )
