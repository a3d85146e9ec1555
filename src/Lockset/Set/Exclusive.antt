-- ===== src/Lockset/Set/Exclusive.antt =====
-- internal/util/lockset/lockset.go: which callbacks run at the same time.
use cdc_sink.Base.{
  is_seen, ℕ, ◌≡◌, ◌≢◌, refl, sym, ap, ◌∙◌, subst, Bool, false, none, some, List, [], ◌∷◌, ◌++◌,
  length, Comparable, nat_eq, option_eq, arith, eqb_iff, All,
}
use cdc_sink.Lockset.Queue.Progress.{keys_of, granted_exclusive}
use cdc_sink.Lockset.Queue.{dedup}
use cdc_sink.Lockset.Queue.Dedup.{IsIn}
use cdc_sink.Lockset.Set.Effects.{granted-IsQueued}
use cdc_sink.Lockset.Set.Keyed.{Runs-IsKeyed}
use cdc_sink.Lockset.Set.TaskKeys.{task_keys}
use cdc_sink.Lockset.Set.{Fn, Job, running, Tasks}
use cdc_sink.Lockset.Set.Held.{held, held-append}
use cdc_sink.Lockset.Set.Runs.{Runs, Runs-IsSafe}
use cdc_sink.Lockset.Set.Safety.{IsSound}
use cdc_sink.Lockset.Set.Turns.{one_if}

All-at :
    {A : Type 0} (P : A → Type 0) (front back : List A) (x : A) → All P (front ++ x ∷ back) → P x
All-at P [] back x all = all.0
All-at P (y ∷ front) back x all = All-at P front back x all.1

All-behind :
    {A : Type 0} (P : A → Type 0) (front back : List A) (x : A)
    → All P (front ++ x ∷ back)
    → All P back
All-behind P [] back x all = all.1
All-behind P (y ∷ front) back x all = All-behind P front back x all.1

module _ {K E : Type 0} ⦃c : Comparable K⦄ where
  -- Two goroutines that are in their callbacks at the same time, whatever the order of the steps that
  -- led there, run the callbacks of two different waiters, and no key of one is a key of the other, where the
  -- keys are those that the waiter was scheduled with.
  pub running_exclusive :
      (canceled_err dup_err : E) (s : Tasks K E) (front mid back : List Job) (v w : ℕ) (f g : Fn)
      (first_at_head second_at_head : Bool)
      → Runs canceled_err dup_err s
      → s.jobs ≡ front ++ running v f first_at_head ∷ (mid ++ running w g second_at_head ∷ back)
      → (v ≢ w)
        × All
            (λ k. is_seen k (dedup (task_keys s.waiters w)) ≡ false)
            (dedup (task_keys s.waiters v))
  running_exclusive canceled_err dup_err s front mid back v w f g first_at_head second_at_head runs
        split =
      let (granted, inv) = Runs-IsSafe canceled_err dup_err s runs in
      let first = running v f first_at_head in
      let second = running w g second_at_head in
      let sound = subst (All (IsSound (length s.waiters) s.queue granted)) split inv.sound in
      let may_v =
        All-at (IsSound (length s.waiters) s.queue granted) front (mid ++ second ∷ back) first
          sound in
      let may_w = All-at (IsSound (length s.waiters) s.queue granted) mid back second (
        All-behind (IsSound (length s.waiters) s.queue granted) front (mid ++ second ∷ back) first
          sound) in
      let ne : v ≢ w = λ same.
        let only = inv.once v in
        let there = ap (held v) split in
        let outer = held-append v front (first ∷ (mid ++ second ∷ back)) in
        let inner = held-append v mid (second ∷ back) in
        let mine : one_if v v ≡ 1 = rw ((eqb_iff v v).1 refl) refl in
        let other : one_if w v ≡ 1 = ap (λ x. one_if x v) (sym same) ∙ mine in
        omega (arith, only, there, outer, inner, mine, other) in
      let keyed = Runs-IsKeyed canceled_err dup_err s runs in
      let apart =
        granted_exclusive none s.queue granted (some v) (some w) inv.reach may_v may_w
          (λ p. absurd (ne cc)) in
      let same : (x : ℕ)
          → IsIn (some x) granted
          → keys_of s.queue (some x) ≡ dedup (task_keys s.waiters x) =
        λ x may. keyed x (granted-IsQueued none s.queue granted (some x) inv.reach may) in
      (
        ne,
        subst (λ ks. All (λ k. is_seen k (dedup (task_keys s.waiters w)) ≡ false) ks) (same v may_v)
            (subst (λ ks. All (λ k. is_seen k ks ≡ false) (keys_of s.queue (some v))) (same w may_w)
              apart),
      )
