-- ===== src/Lockset/Queue/Newcomer.antt =====
-- internal/util/lockset/queue.go: the queue of a key with one more waiter.
use cdc_sink.Base.{
  is_seen, HasDistinct, ℕ, suc, ◌<◌, ◌≡◌, ◌≢◌, refl, sym, ap, ◌∙◌, subst, ◌⊎◌, inl, inr, ◌↔◌, false,
  List, [], ◌∷◌, ◌++◌, length, All-append, Comparable, equals-false, eqb, eqb_iff, arith,
  Bool-cases, map_put, if◌then◌else◌,
}
use cdc_sink.Lockset.Queue.{entries_of, join_queues}
use cdc_sink.Lockset.Queue.Dedup.{IsIn, is_seen-IsIn}
use cdc_sink.Lockset.Queue.Enqueue.{entries_of-other}
use cdc_sink.Lockset.Queue.Fronts.{Ascends, is_front, fronts, fronts-same}

pub Ascends-last :
    (entries : List ℕ) (e : ℕ)
    → ((i : ℕ) → IsIn i entries → i < e)
    → Ascends entries
    → Ascends (entries ++ e ∷ [])
Ascends-last [] e below asc = (tt, tt)
Ascends-last (a ∷ entries) e below asc = (
  All-append (λ f. a < f) entries (e ∷ []) asc.0 (below a (inl refl), tt),
  Ascends-last entries e (λ i there. below i (inr there)) asc.1,
)

pub IsIn-last : {A : Type 0} (xs : List A) (x y : A) → IsIn y (xs ++ x ∷ []) ↔ (IsIn y xs ⊎ (x ≡ y))
IsIn-last [] x y = (
  λ p. elim p [ inl q ↦ inr q | inr q ↦ absurd q ],
  λ p. elim p [ inl q ↦ absurd q | inr q ↦ inl q ],
)
IsIn-last (z ∷ xs) x y =
    let rest = IsIn-last xs x y in
    (
      λ p. elim p [
        | inl q ↦ inl (inl q)
        | inr q ↦ elim (rest.0 q) [ inl r ↦ inl (inr r) | inr r ↦ inr r ]
      ],
      λ p. elim p [
        | inl q ↦ elim q [ inl r ↦ inl r | inr r ↦ inr (rest.1 (inl r)) ]
        | inr q ↦ inr (rest.1 (inr q))
      ],
    )

-- A new waiter is in front just of an empty queue, and is in nobody's way.
first_in :
    (entries : List ℕ) (e : ℕ)
    → (IsIn e entries → ⊥)
    → is_front e (entries ++ e ∷ []) ≡ eqb (length (entries ++ e ∷ [])) 1
first_in [] e absent = (eqb_iff e e).1 refl
first_in (a ∷ []) e absent = elim (Bool-cases (eqb a e)) [
  | inl same ↦ absurd (absent (inl ((eqb_iff a e).0 same)))
  | inr other ↦ other
]
first_in (a ∷ b ∷ entries) e absent = elim (Bool-cases (eqb a e)) [
  | inl same ↦ absurd (absent (inl ((eqb_iff a e).0 same)))
  | inr other ↦ ground (arith, other)
]

pub front_kept :
    (entries : List ℕ) (e i : ℕ) → i ≢ e → is_front i (entries ++ e ∷ []) ≡ is_front i entries
front_kept [] e i ne = elim (Bool-cases (eqb e i)) [
  | inl same ↦ absurd (ne (sym ((eqb_iff e i).0 same)))
  | inr other ↦ other
]
front_kept (a ∷ entries) e i ne = refl

module _ {K : Type 0} ⦃c : Comparable K⦄ where
  -- The increments of the count are the fronts of the new waiter.
  pub join_queues-fronts :
      (e : ℕ) (keys : List K) (queues : List (K × List ℕ))
      → HasDistinct keys
      → ((k : K) → IsIn k keys → IsIn e (entries_of k queues) → ⊥)
      → (join_queues e keys queues).1 ≡ fronts e (λ k. entries_of k queues ++ e ∷ []) keys
  unfolding join_queues
  join_queues-fronts e [] queues distinct absent = refl
  join_queues-fronts e (j ∷ keys) queues distinct absent =
      let entries = entries_of j queues ++ e ∷ [] in
      let away : (k : K)
          → IsIn k keys
          → entries_of k (map_put j entries queues) ≡ entries_of k queues =
        λ k there. entries_of-other j k entries queues (
          equals-false j k (λ p.
            let seen = (is_seen-IsIn k keys).1 there in
            let not_seen : is_seen k keys ≡ false = ap (λ x. is_seen x keys) (sym p) ∙ distinct.0 in
            ground (arith, seen, not_seen))) in
      let first = first_in (entries_of j queues) e (absent j (inl refl)) in
      let later =
        join_queues-fronts e keys (map_put j entries queues) distinct.1
          (λ k there p. absent k (inr there) (subst (IsIn e) (away k there) p)) in
      let same =
        fronts-same e (λ k. entries_of k queues ++ e ∷ [])
          (λ k. entries_of k (map_put j entries queues) ++ e ∷ []) keys
          (λ k there. ap (λ l. is_front e (l ++ e ∷ [])) (away k there)) in
      let rest = (join_queues e keys (map_put j entries queues)).1 in
      ap (λ b. if b then suc rest else rest) (sym first)
      ∙ ap (λ n. if is_front e entries then suc n else n) (later ∙ same)
