-- ===== src/Lockset/Queue/Dedup.antt =====
-- internal/util/lockset/queue.go: what `dedup` makes of the keys of a waiter.
use cdc_sink.Base.{
  ◌≡◌, refl, ap, subst, ◌↔◌, ◌⊎◌, inl, inr, true, false, not, ◌&&◌, List, [], ◌∷◌, Comparable,
  is_seen, HasDistinct, ◌==◌, ==_refl, All, arith, Bool-cases,
}
use cdc_sink.Lockset.Queue.{dedup_from, dedup}

module _ {K : Type 0} where
  abbrev pub IsIn : K → List K → Type 0
  IsIn key [] = ⊥
  IsIn key (k ∷ keys) = (k ≡ key) ⊎ IsIn key keys

module _ {K : Type 0} ⦃e : Comparable K⦄ where
  pub is_seen-IsIn : (key : K) (keys : List K) → (is_seen key keys ≡ true) ↔ IsIn key keys
  unfolding is_seen
  is_seen-IsIn key [] = (λ p. ground (arith, p), λ p. absurd p)
  is_seen-IsIn key (k ∷ keys) = ground (arith, e.equals_iff k key, is_seen-IsIn key keys)

  is_seen-equals : (j k : K) (seen : List K) → (j == k) ≡ true → is_seen j seen ≡ is_seen k seen
  is_seen-equals j k seen same = ap (λ i. is_seen i seen) ((e.equals_iff j k).0 same)

  is_seen-dedup_from :
      (key : K) (seen keys : List K)
      → is_seen key (dedup_from seen keys) ≡ (not (is_seen key seen) && is_seen key keys)
  unfolding is_seen dedup_from
  is_seen-dedup_from key seen [] = ground arith
  is_seen-dedup_from key seen (k ∷ keys) =
      let kept = is_seen-dedup_from key seen keys in
      let added = is_seen-dedup_from key (k ∷ seen) keys in
      ground (arith, kept, added, is_seen-equals k key seen)

  dedup_from-HasDistinct : (seen keys : List K) → HasDistinct (dedup_from seen keys)
  unfolding is_seen dedup_from
  dedup_from-HasDistinct seen [] = tt
  dedup_from-HasDistinct seen (k ∷ keys) = elim (Bool-cases (is_seen k seen)) [
    | inl dup ↦ rw dup (dedup_from-HasDistinct seen keys)
    | inr new ↦
        let gone : is_seen k (dedup_from (k ∷ seen) keys) ≡ false =
          let added = is_seen-dedup_from k (k ∷ seen) keys in ground (arith, added, ==_refl k) in
        rw new (gone, dedup_from-HasDistinct (k ∷ seen) keys)
  ]

  -- `dedup` gives just the keys of the slice, each of them once.
  pub dedup-HasDistinct :
      (keys : List K)
      → HasDistinct (dedup keys) × ((key : K) → IsIn key (dedup keys) ↔ IsIn key keys)
  unfolding is_seen dedup
  dedup-HasDistinct keys = (
    dedup_from-HasDistinct [] keys,
    λ key.
        let there = is_seen-dedup_from key [] keys in
        let left = is_seen-IsIn key (dedup_from [] keys) in
        let right = is_seen-IsIn key keys in ground (arith, there, left, right),
  )

  pub is_seen-dedup : (key : K) (keys : List K) → is_seen key (dedup keys) ≡ is_seen key keys
  unfolding is_seen dedup
  is_seen-dedup key keys = let there = is_seen-dedup_from key [] keys in ground (arith, there)

module _ {K : Type 0} (P : K → Type 0) where
  pub All-IsIn : (key : K) (keys : List K) → All P keys → IsIn key keys → P key
  All-IsIn key [] all there = absurd there
  All-IsIn key (k ∷ keys) all (inl here) = subst P here all.0
  All-IsIn key (k ∷ keys) all (inr later) = All-IsIn key keys all.1 later

  -- What holds of every key of a list holds of every key of another that has no more keys.
  pub All-keys :
      (keys others : List K)
      → ((key : K) → IsIn key keys → IsIn key others)
      → All P others
      → All P keys
  All-keys [] others sub all = tt
  All-keys (k ∷ keys) others sub all = (
    All-IsIn k others all (sub k (inl refl)),
    All-keys keys others (λ key there. sub key (inr there)) all,
  )
