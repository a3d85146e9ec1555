-- ===== src/Lockset/Queue/Line.antt =====
-- internal/util/lockset/queue.go: the list of all waiters, from its head to its tail.
use cdc_sink.Base.{
  ℕ, zero, suc, ◌+◌, ◌≤◌, ◌<◌, ◌≡◌, ◌≢◌, refl, sym, ap, ◌∙◌, subst, ◌⊎◌, inl, inr, Option, none,
  some, List, [], ◌∷◌, length, get_elem?-some, ltb, arith, Bool-cases, same_or_not,
}
use cdc_sink.Lockset.Queue.{QueueEntry, skip_invalid}
use cdc_sink.Lockset.Queue.CleanUp.{skip-end, skip-stop, skip-go}
use cdc_sink.Lockset.Queue.Views.{view, view-get, live, live_at, next_at}

pub view-beyond :
    {A X : Type 0} (missing : X) (f : A → X) (xs : List A) (i : ℕ)
    → length xs ≤ i
    → view missing f xs i ≡ missing
view-beyond missing f [] i past = refl
view-beyond missing f (x ∷ xs) zero past = absurd (omega (arith, past))
view-beyond missing f (x ∷ xs) (suc i) past = view-beyond missing f xs i (omega (arith, past))

abbrev pub kept_tail : ℕ → Option ℕ → Option ℕ
kept_tail t none = none
kept_tail t (some h) = some t

module _ {K V : Type 0} where
  -- From `h` on each waiter is linked to the one that came next, the last one is `t`, and every
  -- waiter before `h` has left.
  pub record IsTrail (heap : List (QueueEntry K V)) (h t : ℕ) : Type 0 where
    pub older : (i : ℕ) → i < h → live_at heap i ≡ none
    pub linked : (i : ℕ) → h ≤ i → i < t → next_at heap i ≡ some (suc i)
    pub last : next_at heap t ≡ none
    pub at_end : suc t ≡ length heap
    pub inside : h ≤ t

  -- The list is empty and every waiter has left, or it leads from the oldest waiter that has not left
  -- to the last one that came.
  pub data IsLine (heap : List (QueueEntry K V)) : Option ℕ → Option ℕ → Type 0 where
    nobody : ((i : ℕ) → live_at heap i ≡ none) → IsLine heap none none
    from_oldest :
        (h t : ℕ) (v : V)
        → IsTrail heap h t
        → live_at heap h ≡ some v
        → IsLine heap (some h) (some t)

  pub line-cases :
      (heap : List (QueueEntry K V)) (head tail : Option ℕ)
      → IsLine heap head tail
      → ((head ≡ none) × (tail ≡ none) × ((i : ℕ) → live_at heap i ≡ none))
        ⊎ ((h : ℕ) × (t : ℕ) × (v : V) × (head ≡ some h)
            × (tail ≡ some t)
            × IsTrail heap h t
            × (live_at heap h ≡ some v))
  line-cases heap none none (nobody gone) = inl (refl, refl, gone)
  line-cases heap _ _ (from_oldest h t v trail alive) = inr (h, t, v, refl, refl, trail, alive)

  all_left :
      (heap : List (QueueEntry K V)) (t : ℕ)
      → IsTrail heap t t
      → live_at heap t ≡ none
      → (i : ℕ) → live_at heap i ≡ none
  all_left heap t trail gone i = elim (Bool-cases (ltb i t)) [
    | inl before ↦ trail.older i (ground (arith, before))
    | inr behind ↦ elim (same_or_not t i) [
      | inl same ↦ subst (λ x. live_at heap x ≡ none) same gone
      | inr ne ↦
          let ends = trail.at_end in view-beyond none live heap i (ground (arith, behind, ne, ends))
    ]
  ]

  IsTrail-next :
      (heap : List (QueueEntry K V)) (h t : ℕ)
      → IsTrail heap h t
      → live_at heap h ≡ none
      → h ≢ t
      → IsTrail heap (suc h) t
  IsTrail-next heap h t trail gone ne = record {
    older = λ i below. elim (same_or_not h i) [
      | inl same ↦ subst (λ x. live_at heap x ≡ none) same gone
      | inr away ↦ trail.older i (omega (arith, below, away))
    ];
    linked = λ i above below. trail.linked i (omega (arith, above)) below;
    last = trail.last;
    at_end = trail.at_end;
    inside = let within = trail.inside in omega (arith, within, ne);
  }

  -- The loop of `Dequeue` over the list stops at the oldest waiter.
  pub skip_invalid-IsLine :
      (fuel : ℕ) (heap : List (QueueEntry K V)) (h t : ℕ)
      → IsTrail heap h t
      → length heap ≤ fuel + h
      → (found : Option ℕ) × (skip_invalid fuel heap (some h) ≡ some found)
        × IsLine heap found (kept_tail t found)
  skip_invalid-IsLine zero heap h t trail enough =
      let within = trail.inside in
      let ends = trail.at_end in absurd (omega (arith, enough, within, ends))
  skip_invalid-IsLine (suc fuel) heap h t trail enough =
      let within = trail.inside in
      let ends = trail.at_end in
      let (e, at_h) = get_elem?-some heap h (omega (arith, within, ends)) in
      let here : live_at heap h ≡ live e = view-get none live heap h e at_h in
      let next : next_at heap h ≡ e.next =
        view-get none (λ (x : QueueEntry K V). x.next) heap h e at_h in
      elim (Bool-cases e.valid) [
        | inl valid ↦ (
          some h,
          skip-stop fuel heap h e at_h valid,
          from_oldest h t e.elt trail (here ∙ rw valid refl),
        )
        | inr invalid ↦
            let gone : live_at heap h ≡ none = here ∙ rw invalid refl in
            elim (same_or_not h t) [
              | inl p ↦
                  let nil : e.next ≡ none = sym next ∙ ap (next_at heap) p ∙ trail.last in
                  (
                    none,
                    skip-go fuel heap h e at_h invalid
                        ∙ ap (skip_invalid fuel heap) nil
                        ∙ skip-end fuel heap,
                    nobody (
                        all_left heap t (subst (λ x. IsTrail heap x t) p trail)
                          (ap (live_at heap) (sym p) ∙ gone)),
                  )
              | inr ne ↦
                  let step : e.next ≡ some (suc h) =
                    sym next ∙ trail.linked h (omega arith) (omega (arith, within, ne)) in
                  let (found, run, line) =
                    skip_invalid-IsLine fuel heap (suc h) t (IsTrail-next heap h t trail gone ne)
                      (omega (arith, enough)) in
                  (
                    found,
                    skip-go fuel heap h e at_h invalid ∙ ap (skip_invalid fuel heap) step ∙ run,
                    line,
                  )
            ]
      ]

  -- A waiter that leaves keeps the list as it is.
  pub IsTrail-gone :
      (old new : List (QueueEntry K V)) (w h t : ℕ)
      → IsTrail old h t
      → ((i : ℕ) → i ≢ w → live_at new i ≡ live_at old i)
      → live_at new w ≡ none
      → ((i : ℕ) → next_at new i ≡ next_at old i)
      → length new ≡ length old
      → IsTrail new h t
  IsTrail-gone old new w h t trail same gone next size = record {
    older = λ i below. elim (same_or_not w i) [
      | inl hit ↦ subst (λ x. live_at new x ≡ none) hit gone
      | inr miss ↦ same i (λ p. miss (sym p)) ∙ trail.older i below
    ];
    linked = λ i above below. next i ∙ trail.linked i above below;
    last = next t ∙ trail.last;
    at_end = trail.at_end ∙ sym size;
    inside = trail.inside;
  }
