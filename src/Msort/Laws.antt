-- ===== src/Msort/Laws.antt =====
-- internal/util/msort/msort.go: `UniqueByKey` keeps the newest mutation of each key.
mod Tests
use cdc_sink.Base.{
  ℕ, zero, suc, ◌+◌, ◌<◌, ◌≤◌, ◌≡◌, ◌≢◌, refl, ap, sym, ◌∙◌, Bool, true, false, Option, none, some,
  List, [], ◌∷◌, length, get_elem?, Comparable, ◌==◌, All, arith, Option-cases, inl, inr, ◌⊎◌, ◌↔◌,
  if◌then◌else◌, Bool-cases, nat_eq, list_eq, subst, ltb, leb, All-get, list_beq_iff, leb→le, eqb,
  eqb_iff, length-zero, get_elem?-lt,
}
use cdc_sink.Base.Int.{pos, leb_ℤ}
use cdc_sink.Hlc.{Time, compare}
use cdc_sink.Hlc.Order.{IsTime, rank, compare-ge}
use cdc_sink.Types.{Mutation}
use cdc_sink.Msort.{unique_by, key_of, later_of, unique_by_key}
use cdc_sink.Msort.Compact.{find, HasDistinctKeys, compact}
use cdc_sink.Msort.Loop.{unique_by-compact, unique_by-panics}
use cdc_sink.Msort.View.{view, merge, compact-HasDistinctKeys, find-compact}

module _ {Meta : Type 0} where
  -- The choice of `later_of` by the place in the order of the clock.
  later_of-rank :
      (a b : Mutation Meta)
      → IsTime a.time
      → IsTime b.time
      → later_of a b ≡ (if leb (rank b.time) (rank a.time) then a else b)
  unfolding later_of
  later_of-rank a b ha hb = rw (compare-ge a.time b.time ha hb) refl

  later_of-keeps : (a b : Mutation Meta) → a.key ≡ b.key → (later_of a b).key ≡ a.key
  unfolding later_of
  later_of-keeps a b h = ground arith

  -- The mutations of key `k` come at the place `n` in the order of the clock or before it.
  abbrev pub AtMost : List ℕ → ℕ → List (Mutation Meta) → Type 0
  AtMost k n = All (λ m. (m.key ≢ k) ⊎ (rank m.time ≤ n))

  -- `y` is the mutation of key `k` with the greatest time in `x`; without one no key of `x` is `k`.
  abbrev pub IsNewest : List ℕ → List (Mutation Meta) → Option (Mutation Meta) → Type 0
  IsNewest k x none = All (λ m. m.key ≢ k) x
  IsNewest k x (some y) =
      ((i : ℕ) × (get_elem? x i ≡ some y)) × (y.key ≡ k) × AtMost k (rank y.time) x

  abbrev pub HasKeys : List (Mutation Meta) → Type 0
  HasKeys = All (λ m. m.key ≢ [])

  abbrev pub HasTimes : List (Mutation Meta) → Type 0
  HasTimes = All (λ m. IsTime m.time)

  HasTimes-get :
      (x : List (Mutation Meta)) (i : ℕ) (y : Mutation Meta)
      → HasTimes x
      → get_elem? x i ≡ some y
      → IsTime y.time
  HasTimes-get x i y h e = All-get (λ m. IsTime m.time) x i y h e

  AtMost-weaken :
      (k : List ℕ) (n n' : ℕ) (x : List (Mutation Meta)) → n ≤ n' → AtMost k n x → AtMost k n' x
  AtMost-weaken k n n' [] le h = tt
  AtMost-weaken k n n' (m ∷ x) le h = (
    elim h.0 [ inl other ↦ inl other | inr old ↦ inr (omega arith) ],
    AtMost-weaken k n n' x le h.1,
  )

  AtMost-of-none :
      (k : List ℕ) (n : ℕ) (x : List (Mutation Meta)) → All (λ m. m.key ≢ k) x → AtMost k n x
  AtMost-of-none k n [] h = tt
  AtMost-of-none k n (m ∷ x) h = (inl h.0, AtMost-of-none k n x h.1)

  key-ne : (k : List ℕ) (m : Mutation Meta) → (m.key == k) ≡ false → m.key ≢ k
  key-ne k m h e = cc ((list_beq_iff m.key k).1 e)

  -- One more mutation in front.
  IsNewest-step :
      (k : List ℕ) (m : Mutation Meta) (x : List (Mutation Meta)) (o : Option (Mutation Meta))
      → HasTimes (m ∷ x)
      → IsNewest k x o
      → IsNewest k (m ∷ x) (if m.key == k then some (merge later_of m o) else o)
  unfolding merge
  IsNewest-step k m x none h old = elim (Bool-cases (m.key == k)) [
    | inl p ↦ rw p (
      (0, refl),
      (list_beq_iff m.key k).0 p,
      (inr (omega arith), AtMost-of-none k (rank m.time) x old),
    )
    | inr p ↦ rw p (key-ne k m p, old)
  ]
  IsNewest-step k m x (some y) h ((i, at_i), same, most) =
      let hy = HasTimes-get x i y h.1 at_i in
      elim (Bool-cases (m.key == k)) [
        | inl p ↦ rw p (elim (Bool-cases (leb (rank m.time) (rank y.time))) [
          | inl q ↦
              let e : y ≡ later_of y m = sym (later_of-rank y m hy h.0 ∙ rw q refl) in
              subst (λ w. IsNewest k (m ∷ x) (some w)) e
                ((suc i, at_i), same, (inr (leb→le _ _ q), most))
          | inr q ↦
              let e : m ≡ later_of y m = sym (later_of-rank y m hy h.0 ∙ rw q refl) in
              subst (λ w. IsNewest k (m ∷ x) (some w)) e
                (
                  (0, refl),
                  (list_beq_iff m.key k).0 p,
                  (
                    inr (omega arith),
                    AtMost-weaken k (rank y.time) (rank m.time) x (ground arith) most,
                  ),
                )
        ])
        | inr p ↦ rw p ((suc i, at_i), same, (inl (key-ne k m p), most))
      ]

  view-IsNewest :
      (k : List ℕ) (x : List (Mutation Meta))
      → HasTimes x
      → IsNewest k x (view (λ m. m.key) later_of k x)
  unfolding view
  view-IsNewest k [] h = tt
  view-IsNewest k (m ∷ x) h =
      IsNewest-step k m x (view (λ m'. m'.key) later_of k x) h (view-IsNewest k x h.1)

  key_of-some : (m : Mutation Meta) → m.key ≢ [] → key_of m ≡ some m.key
  unfolding key_of
  key_of-some m h = elim (Bool-cases (eqb (length m.key) 0)) [
    | inl e ↦ absurd (h (length-zero m.key ((eqb_iff (length m.key) 0).0 e)))
    | inr e ↦ rw e refl
  ]

  key_of-none : (m : Mutation Meta) → m.key ≡ [] → key_of m ≡ none
  unfolding key_of
  key_of-none m h = rw h refl

  key_or_panic : (m : Mutation Meta) → (key_of m ≡ none) ⊎ (key_of m ≡ some m.key)
  unfolding key_of
  key_or_panic m = elim (Bool-cases (eqb (length m.key) 0)) [
    | inl e ↦ inl (rw e refl)
    | inr e ↦ inr (rw e refl)
  ]

  HasKeys-key_of : (x : List (Mutation Meta)) → HasKeys x → All (λ m. key_of m ≡ some m.key) x
  HasKeys-key_of [] h = tt
  HasKeys-key_of (m ∷ x) h = (key_of-some m h.0, HasKeys-key_of x h.1)

  -- Where every key is nonempty and every time has no negative part, `UniqueByKey` returns a slice
  -- in which no two mutations have one key, and which holds for each key its newest mutation of the
  -- input, and nothing for a key that the input does not have.
  pub unique_by_key-IsNewest :
      (x : List (Mutation Meta))
      → HasKeys x
      → HasTimes x
      → (r : List (Mutation Meta)) × (unique_by_key x ≡ some r)
        × HasDistinctKeys (λ m. m.key) r
        × ((k : List ℕ) → IsNewest k x (find (λ m. m.key) k r))
  unfolding unique_by_key
  unique_by_key-IsNewest x keys times = (
    compact (λ m. m.key) later_of x,
    unique_by-compact (λ m. m.key) later_of key_of later_of-keeps x (HasKeys-key_of x keys),
    compact-HasDistinctKeys (λ m. m.key) later_of later_of-keeps x,
    λ k. rw (find-compact (λ m. m.key) later_of later_of-keeps k x) (view-IsNewest k x times),
  )

  -- A mutation with an empty key makes `UniqueByKey` panic, wherever it stands in the slice.
  pub unique_by_key_panics :
      (x : List (Mutation Meta)) (i : ℕ) (m : Mutation Meta)
      → get_elem? x i ≡ some m
      → m.key ≡ []
      → unique_by_key x ≡ none
  unfolding unique_by_key
  unique_by_key_panics x i m at_i empty =
      unique_by-panics (λ m'. m'.key) later_of key_of later_of-keeps key_or_panic x i m at_i
        (key_of-none m empty) (get_elem?-lt x i m at_i)
