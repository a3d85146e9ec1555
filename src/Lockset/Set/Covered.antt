-- ===== src/Lockset/Set/Covered.antt =====
-- internal/util/lockset/lockset.go: the turns of a goroutine after `Dequeue` keep every task covered.
use cdc_sink.Base.{
  ℕ, zero, suc, ◌≤◌, ◌≡◌, refl, ap, ◌∙◌, subst, ◌⊎◌, inl, inr, true, false, Option, none, some,
  List, [], ◌∷◌, ◌++◌, get_elem?, Comparable, nat_eq, option_eq, arith, same_or_not, Bool-cases,
  Option-cases,
}
use cdc_sink.Lockset.Queue.{peek_head}
use cdc_sink.Lockset.Queue.Views.{view-get}
use cdc_sink.Lockset.Set.{
  Status, Job, pending, checking, marking, mark_head, Waiter, Tasks, set_status, is_retry_requested,
  dispose, dispose_all, check,
}
use cdc_sink.Lockset.Set.Awake.{
  listed-append, starts, looks, asked_at, asked_at-set_status_other, IsAwake, push-IsAwake,
  turn-IsAwake,
}
use cdc_sink.Lockset.Set.Held.{held, present, fn_at-set_status}
use cdc_sink.Lockset.Set.Tended.{one_self, one_other}

module _ {K E : Type 0} ⦃c : Comparable K⦄ (granted : List (Option ℕ)) where
  -- A goroutine does something else next, by which no task loses what covers it.
  pub exchange-IsAwake :
      (s : Tasks K E) (j j' : Job)
      → IsAwake granted (j ∷ []) s
      → ((w : ℕ) → held w (j ∷ []) ≤ held w (j' ∷ []))
      → ((w : ℕ) → starts w j ≤ starts w j')
      → ((w : ℕ)
          → asked_at s.waiters w ≡ true
          → (looks w j ≤ looks w j') ⊎ (peek_head s.queue ≡ some (some w) → ⊥) ⊎ (1 ≤ starts w j'))
      → IsAwake granted (j' ∷ []) s
  exchange-IsAwake s j j' inv holding starting looking = record {
    tended = λ w queued.
        let was = inv.tended w queued in let more = holding w in omega (arith, was, more);
    covered = λ w may has. elim (inv.covered w may has) [
      | inl started ↦ inl (let more = starting w in omega (arith, started, more))
      | inr (asked, inl behind) ↦ inr (asked, inl behind)
      | inr (asked, inr looked) ↦ elim (looking w asked) [
        | inl more ↦ inr (asked, inr (omega (arith, looked, more)))
        | inr (inl behind) ↦ inr (asked, inl behind)
        | inr (inr started) ↦ inl (omega (arith, started))
      ]
    ];
    not_nil = inv.not_nil;
  }

  pub dispose_all-IsAwake :
      (s : Tasks K E) (next : List (Option ℕ))
      → IsAwake granted (checking next none ∷ []) s
      → IsAwake granted [] (dispose_all next s)
  unfolding dispose_all
  dispose_all-IsAwake s [] inv = record {
    tended = λ w queued. let was = inv.tended w queued in omega (arith, was);
    covered = λ w may has. elim (inv.covered w may has) [
      | inl started ↦ inl (omega (arith, started))
      | inr (asked, inl behind) ↦ inr (asked, inl behind)
      | inr (asked, inr looked) ↦ inr (asked, inr (omega (arith, looked)))
    ];
    not_nil = inv.not_nil;
  }
  dispose_all-IsAwake s (none ∷ next) inv = dispose_all-IsAwake s next (
      exchange-IsAwake s (checking (none ∷ next) none) (checking next none) inv (λ w. omega arith)
        (λ w. omega arith) (λ w asked. inl (omega arith)))
  dispose_all-IsAwake s (some v ∷ next) inv = dispose_all-IsAwake (dispose v false s) next (
      push-IsAwake granted s (pending v false) (checking next none ∷ []) (record {
        tended = λ w queued. let was = inv.tended w queued in omega (arith, was);
        covered = λ w may has. elim (inv.covered w may has) [
          | inl started ↦ inl (omega (arith, started))
          | inr (asked, inl behind) ↦ inr (asked, inl behind)
          | inr (asked, inr looked) ↦ inr (asked, inr (omega (arith, looked)))
        ];
        not_nil = inv.not_nil;
      }))

  -- The goroutine found that the head does not ask for a retry.
  not_asked-IsAwake :
      (s : Tasks K E) (next : List (Option ℕ)) (h : ℕ)
      → asked_at s.waiters h ≡ false
      → IsAwake granted (checking next (some h) ∷ []) s
      → IsAwake granted [] (dispose_all next s)
  not_asked-IsAwake s next h quiet inv = dispose_all-IsAwake s next (
      exchange-IsAwake s (checking next (some h)) (checking next none) inv (λ w. omega arith)
        (λ w. omega arith)
        (λ w asked. elim (same_or_not h w) [
          | inl same ↦
              let loud : asked_at s.waiters h ≡ true = ap (asked_at s.waiters) same ∙ asked in
              absurd (ground (arith, quiet, loud))
          | inr ne ↦ inl (let nothing = one_other h w ne in omega (arith, nothing))
        ]))

  -- The goroutine found that the head asks for a retry.
  asked-IsAwake :
      (s : Tasks K E) (next : List (Option ℕ)) (h : ℕ)
      → IsAwake granted (checking next (some h) ∷ []) s
      → IsAwake granted (marking next h ∷ []) s
  asked-IsAwake s next h inv =
      exchange-IsAwake s (checking next (some h)) (marking next h) inv (λ w. omega arith)
        (λ w. let more = listed-append w next (some h ∷ []) in omega (arith, more))
        (λ w asked. elim (same_or_not h w) [
          | inl same ↦
              let self = one_self h in
              let more = listed-append h next (some h ∷ []) in
              inr
                (inr (subst (λ x. 1 ≤ starts x (marking next h)) same (omega (arith, self, more))))
          | inr ne ↦ inl (let nothing = one_other h w ne in omega (arith, nothing))
        ])

  pub mark_head-IsAwake :
      (s : Tasks K E) (next : List (Option ℕ)) (h : ℕ)
      → IsAwake granted (marking next h ∷ []) s
      → IsAwake granted [] (mark_head next h s)
  unfolding mark_head
  mark_head-IsAwake s next h inv = dispose_all-IsAwake _ (next ++ some h ∷ []) (
      turn-IsAwake granted s (marking next h ∷ []) (checking (next ++ some h ∷ []) none ∷ [])
        (set_status h Status.retry_queued s.waiters) h inv
        (λ v ne. (
          ap present (fn_at-set_status s.waiters h v Status.retry_queued),
          asked_at-set_status_other s.waiters h v Status.retry_queued ne,
          omega arith,
          omega arith,
          omega arith,
        ))
        (λ queued.
          let was = inv.tended h queued in
          let kept = ap present (fn_at-set_status s.waiters h h Status.retry_queued) in
          omega (arith, was, kept))
        (λ may has.
          let self = one_self h in
          let more = listed-append h next (some h ∷ []) in inl (omega (arith, self, more))))

  pub check-IsAwake :
      (s : Tasks K E) (next : List (Option ℕ)) (head : Option ℕ)
      → IsAwake granted (checking next head ∷ []) s
      → IsAwake granted [] (check next head s)
  unfolding check
  check-IsAwake s next none inv = dispose_all-IsAwake s next inv
  check-IsAwake s next (some h) inv = elim (Option-cases (get_elem? s.waiters h)) [
    | inl out ↦ rw (out, check) (not_asked-IsAwake s next h (missing s.waiters h out) inv)
    | inr (head, at_h) ↦
        let read =
          view-get false (λ (x : Waiter K E). is_retry_requested x.status) s.waiters h head at_h in
        elim (Bool-cases (is_retry_requested head.status)) [
          | inr quiet ↦ rw (at_h, check) (rw quiet (not_asked-IsAwake s next h (read ∙ quiet) inv))
          | inl asked ↦
              rw (at_h, check)
                (rw asked (push-IsAwake granted s (marking next h) [] (asked-IsAwake s next h inv)))
        ]
  ]
    where
      missing :
          (waiters : List (Waiter K E)) (h : ℕ)
          → get_elem? waiters h ≡ none
          → asked_at waiters h ≡ false
      missing [] h out = refl
      missing (x ∷ waiters) zero out = cc
      missing (x ∷ waiters) (suc h) out = missing waiters h out
