-- ===== src/Lockset/Set/Safety.antt =====
-- internal/util/lockset/lockset.go: what the goroutines of a Set keep, whatever their order.
use cdc_sink.Base.{
  ℕ, ◌+◌, ◌≤◌, ◌<◌, ◌≡◌, ◌≢◌, sym, ap, subst, true, false, Option, none, some, List, [], ◌∷◌, ◌++◌,
  length, Comparable, nat_eq, option_eq, arith, All, All-append,
}
use cdc_sink.Lockset.Queue.{Queue}
use cdc_sink.Lockset.Queue.Dedup.{IsIn}
use cdc_sink.Lockset.Queue.Grants.{Reach}
use cdc_sink.Lockset.Set.{
  Job, pending, running, dequeuing, peeking, checking, marking, Waiter, Tasks, fn_at,
}
use cdc_sink.Lockset.Set.Effects.{IsQueued, granted-IsQueued}
use cdc_sink.Lockset.Set.Held.{held, held-out, held-in, present}

-- A pointer to one of the first `n` waiters, or nil.
abbrev pub IsBelow : ℕ → Option ℕ → Type 0
IsBelow n none = Unit
IsBelow n (some w) = w < n

All-out :
    (P : Job → Type 0) (front back : List Job) (j : Job)
    → All P (front ++ j ∷ back)
    → All P (front ++ back) × P j
All-out P [] back j all = (all.1, all.0)
All-out P (i ∷ front) back j all =
    let rest = All-out P front back j all.1 in ((all.0, rest.0), rest.1)

module _ {K : Type 0} ⦃c : Comparable K⦄ (n : ℕ) (q : Queue K (Option ℕ))
    (granted : List (Option ℕ)) where
  -- A waiter that may run, if it has not left the queue.
  abbrev pub IsKnown : Option ℕ → Type 0
  IsKnown u = IsBelow n u × (IsQueued q u → IsIn u granted)

  abbrev pub AreKnown : List (Option ℕ) → Type 0
  AreKnown next = All IsKnown next

  -- A task in its callback may run; one that is about to leave the queue is in it; and the waiters that
  -- a goroutine has still to dispose of may run.
  abbrev pub IsSound : Job → Type 0
  IsSound (pending w true) = w < n
  IsSound (pending w false) = IsKnown (some w)
  IsSound (running w fn at_head) = IsIn (some w) granted
  IsSound (dequeuing w) = IsQueued q (some w)
  IsSound (peeking next) = AreKnown next
  IsSound (checking next head) = AreKnown next × IsKnown head
  IsSound (marking next h) = AreKnown (next ++ some h ∷ [])

module _ {K E : Type 0} ⦃c : Comparable K⦄ where
  -- The state of a Set, with the goroutines `out` taken out of it: a function that is there to be taken
  -- belongs to a waiter in the queue, and no function is taken twice.
  pub record IsSafe (granted : List (Option ℕ)) (out : List Job) (s : Tasks K E) : Type 0 where
    pub reach : Reach none s.queue granted
    pub sound : All (IsSound (length s.waiters) s.queue granted) s.jobs
    pub sound_out : All (IsSound (length s.waiters) s.queue granted) out
    pub has_fn : (w : ℕ) → fn_at s.waiters w ≢ none → IsQueued s.queue (some w)
    pub fresh : (w : ℕ) → IsQueued s.queue (some w) → w < length s.waiters
    pub once : (w : ℕ) → held w s.jobs + held w out + present (fn_at s.waiters w) ≤ 1

module _ {K E : Type 0} ⦃c : Comparable K⦄ (granted : List (Option ℕ)) where
  -- A goroutine gets its turn, and goes back.
  pub pull-IsSafe :
      (s : Tasks K E) (front back : List Job) (j : Job)
      → s.jobs ≡ front ++ j ∷ back
      → IsSafe granted [] s
      → IsSafe granted (j ∷ []) (record s { jobs = front ++ back })
  pull-IsSafe s front back j split inv =
      let apart =
        All-out (IsSound (length s.waiters) s.queue granted) front back j
          (subst (All (IsSound (length s.waiters) s.queue granted)) split inv.sound) in
      record {
        reach = inv.reach;
        sound = apart.0;
        sound_out = (apart.1, tt);
        has_fn = inv.has_fn;
        fresh = inv.fresh;
        once = λ w.
            let was = inv.once w in
            let there = ap (held w) split in
            let parts = held-out w front back j in omega (arith, was, there, parts);
      }

  pub push-IsSafe :
      (s : Tasks K E) (j : Job) (out : List Job)
      → IsSafe granted (j ∷ out) s
      → IsSafe granted out (record s { jobs = s.jobs ++ j ∷ [] })
  push-IsSafe s j out inv = record {
    reach = inv.reach;
    sound =
        All-append (IsSound (length s.waiters) s.queue granted) s.jobs (j ∷ []) inv.sound
          (inv.sound_out.0, tt);
    sound_out = inv.sound_out.1;
    has_fn = inv.has_fn;
    fresh = inv.fresh;
    once = λ w. let was = inv.once w in let parts = held-in w s.jobs j in omega (arith, was, parts);
  }

  -- A change of the waiters, and of the goroutine that has its turn.
  pub turn-IsSafe :
      (s : Tasks K E) (out out' : List Job) (waiters : List (Waiter K E))
      → (inv : IsSafe granted out s) → length waiters ≡ length s.waiters
      → All (IsSound (length s.waiters) s.queue granted) out'
      → ((w : ℕ) → fn_at waiters w ≢ none → IsQueued s.queue (some w))
      → ((w : ℕ)
          → held w out' + present (fn_at waiters w) ≤ held w out + present (fn_at s.waiters w))
      → IsSafe granted out' (record s { waiters = waiters })
  turn-IsSafe s out out' waiters inv size sound has_fn fewer =
      let Sounds : List Job → ℕ → Type 0 = λ jobs n. All (IsSound n s.queue granted) jobs in
      record {
        reach = inv.reach;
        sound = subst (Sounds s.jobs) (sym size) inv.sound;
        sound_out = subst (Sounds out') (sym size) sound;
        has_fn = has_fn;
        fresh = λ w there. let below = inv.fresh w there in omega (arith, below, size);
        once = λ w. let was = inv.once w in let change = fewer w in omega (arith, was, change);
      }

  -- A value that may run is known.
  pub granted-IsKnown :
      (s : Tasks K E) (out : List Job) (inv : IsSafe granted out s) (u : Option ℕ)
      → IsIn u granted
      → IsKnown (length s.waiters) s.queue granted u
  granted-IsKnown s out inv none there = (tt, λ p. there)
  granted-IsKnown s out inv (some w) there =
      (inv.fresh w (granted-IsQueued none s.queue granted (some w) inv.reach there), λ p. there)
