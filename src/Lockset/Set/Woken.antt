-- ===== src/Lockset/Set/Woken.antt =====
-- internal/util/lockset/lockset.go: the turns that read or change the queue keep every task covered.
use cdc_sink.Base.{
  ℕ, ◌+◌, ◌≤◌, ◌≡◌, ◌≢◌, refl, sym, ap, ◌∙◌, subst, inl, inr, Bool, true, false, Option, none, some,
  List, [], ◌∷◌, ◌++◌, length, Comparable, nat_eq, option_eq, arith, same_or_not,
}
use cdc_sink.Lockset.Queue.{Queue, peek_head}
use cdc_sink.Lockset.Queue.Admitted.{same_result, some_apart}
use cdc_sink.Lockset.Queue.Dedup.{IsIn}
use cdc_sink.Lockset.Queue.Views.{view-append_other}
use cdc_sink.Lockset.Set.{
  callback, Job, dequeuing, peeking, checking, Waiter, Tasks, fn_at, is_retry_requested,
  dispose_all,
}
use cdc_sink.Lockset.Set.Awake.{listed, starts, looks, total, IsAwake}
use cdc_sink.Lockset.Set.Covered.{exchange-IsAwake, dispose_all-IsAwake}
use cdc_sink.Lockset.Set.Effects.{granted-IsQueued, IsDequeued, IsEnqueued}
use cdc_sink.Lockset.Set.Held.{present, fn_at-append, fn_at-append_last}
use cdc_sink.Lockset.Set.Moves.{some_ne}
use cdc_sink.Lockset.Set.Safety.{IsSafe}
use cdc_sink.Lockset.Set.Tended.{one_self, one_other}

-- A waiter in a list is counted.
listed-IsIn : (w : ℕ) (next : List (Option ℕ)) → IsIn (some w) next → 1 ≤ listed w next
listed-IsIn w [] there = absurd there
listed-IsIn w (none ∷ next) (inl here) = cc
listed-IsIn w (none ∷ next) (inr later) = listed-IsIn w next later
listed-IsIn w (some v ∷ next) (inl here) =
    let same : v ≡ w = cc in
    let self = one_self v in
    let one = ap (λ x. listed x (some v ∷ next)) (sym same) in omega (arith, one, self)
listed-IsIn w (some v ∷ next) (inr later) =
    let rest = listed-IsIn w next later in omega (arith, rest)

module _ {K E : Type 0} ⦃c : Comparable K⦄ (granted : List (Option ℕ)) where
  pub no_head-IsAwake :
      (s : Tasks K E) (next : List (Option ℕ))
      → peek_head s.queue ≡ none
      → IsAwake granted (peeking next ∷ []) s
      → IsAwake granted [] (dispose_all next s)
  no_head-IsAwake s next empty inv = dispose_all-IsAwake granted s next (
      exchange-IsAwake granted s (peeking next) (checking next none) inv (λ w. omega arith)
        (λ w. omega arith)
        (λ w asked. inr (inl (λ p. some_apart (peek_head s.queue) (some w) p empty))))

  pub found_head-IsAwake :
      (s : Tasks K E) (next : List (Option ℕ)) (head : Option ℕ)
      → peek_head s.queue ≡ some head
      → IsAwake granted (peeking next ∷ []) s
      → IsAwake granted (checking next head ∷ []) s
  found_head-IsAwake s next none at_head inv =
      exchange-IsAwake granted s (peeking next) (checking next none) inv (λ w. omega arith)
        (λ w. omega arith)
        (λ w asked. inr (
          inl (λ p.
            some_apart (some w) w refl
              (sym (same_result (peek_head s.queue) none (some w) at_head p)))))
  found_head-IsAwake s next (some h) at_head inv =
      exchange-IsAwake granted s (peeking next) (checking next (some h)) inv (λ w. omega arith)
        (λ w. omega arith)
        (λ w asked. elim (same_or_not h w) [
          | inl same ↦
              let self = one_self h in
              let one = ap (λ x. looks x (checking next (some h))) (sym same) in
              inl (omega (arith, one, self))
          | inr ne ↦ inr (
              inl
                (λ p. some_ne h w ne (same_result (peek_head s.queue) (some h) (some w) at_head p)))
        ])

  pub dequeue-IsAwake :
      (s : Tasks K E) (w : ℕ) (ret : List (Option ℕ)) (q' : Queue K (Option ℕ))
      → IsAwake granted (dequeuing w ∷ []) s
      → (done : IsDequeued none s.queue q' granted (some w) ret)
      → IsAwake done.after (peeking ret ∷ []) (record s { queue = q' })
  dequeue-IsAwake s w ret q' inv done = record {
    tended = λ v queued.
        let (before, ne) = (done.there (some v)).0 queued in
        let away : w ≢ v = λ same. ne (ap some (sym same)) in
        let was = inv.tended v before in
        let nothing = one_other w v away in omega (arith, was, nothing);
    covered = λ v may has. elim (done.from (some v) may) [
      | inl before ↦ elim (inv.covered v before has) [
        | inl started ↦ inl (omega (arith, started))
        | inr (asked, rest) ↦ inr (asked, inr (omega arith))
      ]
      | inr new ↦ inl (let one = listed-IsIn v ret new in omega (arith, one))
    ];
    not_nil = λ queued. inv.not_nil ((done.there none).0 queued).0;
  }

  pub enqueued-IsAwake :
      (s : Tasks K E) (waiter : Waiter K E) (q' : Queue K (Option ℕ)) (ready : Bool)
      (out : List Job)
      → waiter.fn ≡ some callback
      → IsSafe granted [] s
      → IsAwake granted [] s
      → (done : IsEnqueued none s.queue q' granted (some (length s.waiters)) ready)
      → (ready ≡ true → 1 ≤ total (starts (length s.waiters)) out)
      → IsAwake done.after out (record s { queue = q'; waiters = s.waiters ++ waiter ∷ [] })
  enqueued-IsAwake s waiter q' ready out has_fn safe inv done started =
      let n = length s.waiters in
      record {
        tended = λ v queued. elim (same_or_not v n) [
          | inl same ↦
              let one = ap present (
                ap (fn_at (s.waiters ++ waiter ∷ [])) same
                ∙ fn_at-append_last s.waiters waiter
                ∙ has_fn) in
              omega (arith, one)
          | inr old ↦ elim ((done.there (some v)).0 queued) [
            | inl before ↦
                let was = inv.tended v before in
                let kept = ap present (fn_at-append s.waiters waiter v old) in
                omega (arith, was, kept)
            | inr same ↦ absurd (some_ne v n old same)
          ]
        ];
        covered = λ v may has. elim (done.from (some v) may) [
          | inl (told, same) ↦
              let here : n ≡ v = cc in
              let one = started told in
              inl (
                subst (λ x. 1 ≤ total (starts x) s.jobs + total (starts x) out) here
                  (omega (arith, one)))
          | inr before ↦
              let below =
                safe.fresh v (granted-IsQueued none s.queue granted (some v) safe.reach before) in
              let old : v ≢ n = λ same. omega (arith, same, below) in
              let kept = ap present (fn_at-append s.waiters waiter v old) in
              let asks =
                view-append_other false (λ (x : Waiter K E). is_retry_requested x.status) s.waiters
                  waiter v old in
              elim (inv.covered v before (sym kept ∙ has)) [
                | inl begun ↦ inl (omega (arith, begun))
                | inr (asked, inl behind) ↦
                    inr (
                      asks ∙ asked,
                      inl (λ p. behind (done.head_kept (some v) (some_ne v n old) p)),
                    )
                | inr (asked, inr looked) ↦ inr (asks ∙ asked, inr (omega (arith, looked)))
              ]
        ];
        not_nil = λ queued. elim ((done.there none).0 queued) [
          | inl before ↦ inv.not_nil before
          | inr same ↦ some_apart (some n) n refl (sym same)
        ];
      }
