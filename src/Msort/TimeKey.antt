-- ===== src/Msort/TimeKey.antt =====
-- internal/util/msort/msort.go: `UniqueByTimeKey` keeps the last mutation of each time and key.
mod Tests
use cdc_sink.Base.{
  ℕ, ◌≡◌, ◌≢◌, refl, ap, ◌∙◌, Bool, true, false, Option, none, some, List, [], ◌∷◌, ◌++◌, length,
  eqb, eqb_iff, length-zero, All, Option-cases, Bool-cases, inl, inr, ◌⊎◌, ◌==◌, list_eq, nat_eq,
  arith, if◌then◌else◌,
}
use cdc_sink.Hlc.Text.{to_text}
use cdc_sink.Types.{Mutation}
use cdc_sink.Msort.{time_key_of, unique_by_time_key}
use cdc_sink.Msort.Compact.{find, HasDistinctKeys, compact}
use cdc_sink.Msort.Loop.{unique_by-compact}
use cdc_sink.Msort.View.{view, merge, compact-HasDistinctKeys, find-compact}
use cdc_sink.Msort.Laws.{HasKeys}

module _ {Meta : Type 0} where
  -- The time as `String` prints it, a colon and the key.
  pub time_key : Mutation Meta → List ℕ
  time_key m = to_text m.time ++ (b':' ∷ m.key)

  -- The last mutation of a time and key in the slice.
  pub last_of : List ℕ → List (Mutation Meta) → Option (Mutation Meta)
  last_of k [] = none
  last_of k (m ∷ x) = elim (last_of k x) [
    | none ↦ if time_key m == k then some m else none
    | some later ↦ some later
  ]

  time_key_of-some : (m : Mutation Meta) → m.key ≢ [] → time_key_of m ≡ some (time_key m)
  unfolding time_key_of time_key
  time_key_of-some m h = elim (Bool-cases (eqb (length m.key) 0)) [
    | inl e ↦ absurd (h (length-zero m.key ((eqb_iff (length m.key) 0).0 e)))
    | inr e ↦ rw e refl
  ]

  HasKeys-time_key_of :
      (x : List (Mutation Meta)) → HasKeys x → All (λ m. time_key_of m ≡ some (time_key m)) x
  HasKeys-time_key_of [] h = tt
  HasKeys-time_key_of (m ∷ x) h = (time_key_of-some m h.0, HasKeys-time_key_of x h.1)

  view-last_of :
      (k : List ℕ) (x : List (Mutation Meta)) → view time_key (λ a b. a) k x ≡ last_of k x
  unfolding view merge last_of
  view-last_of k [] = refl
  view-last_of k (m ∷ x) =
      ap (λ rest. if time_key m == k then some (merge (λ a b. a) m rest) else rest)
        (view-last_of k x)
      ∙ keep_later (last_of k x)
    where
      keep_later :
          (o : Option (Mutation Meta))
          → (if time_key m == k then some (merge (λ a b. a) m o) else o)
            ≡ (elim o [ none ↦ if time_key m == k then some m else none | some later ↦ some later ])
      keep_later none = refl
      keep_later (some later) = elim (Bool-cases (time_key m == k)) [
        | inl same ↦ rw same refl
        | inr other ↦ rw other refl
      ]

  -- Where every key is nonempty, `UniqueByTimeKey` returns a slice in which no two mutations have one
  -- time and key, and which holds for each time and key the last mutation of the input that has them,
  -- and nothing where the input has none; two times count as one where `String` prints them alike.
  pub unique_by_time_key-last_of :
      (x : List (Mutation Meta))
      → HasKeys x
      → (r : List (Mutation Meta)) × (unique_by_time_key x ≡ some r)
        × HasDistinctKeys time_key r
        × ((k : List ℕ) → find time_key k r ≡ last_of k x)
  unfolding unique_by_time_key
  unique_by_time_key-last_of x keys = (
    compact time_key (λ a b. a) x,
    unique_by-compact time_key (λ a b. a) time_key_of (λ a b same. refl) x
        (HasKeys-time_key_of x keys),
    compact-HasDistinctKeys time_key (λ a b. a) (λ a b same. refl) x,
    λ k. rw (find-compact time_key (λ a b. a) (λ a b same. refl) k x) (view-last_of k x),
  )
