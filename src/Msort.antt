-- ===== src/Msort.antt =====
-- internal/util/msort/msort.go: removing mutations with duplicate keys.
pub mod Compact
pub mod Loop
pub mod View
pub mod Laws
pub mod TimeKey
use cdc_sink.Base.{
  ℕ, zero, suc, ◌-◌, ◌+◌, ◌≡◌, Bool, true, false, Option, none, some, List, [], ◌∷◌, ◌++◌, length,
  get_elem?, set, drop, Comparable, ◌==◌, eqb, nat_eq, list_eq, if◌then◌else◌, map_get, map_put,
}
use cdc_sink.Base.Int.{pos, leb_ℤ}
use cdc_sink.Hlc.{Time, compare}
use cdc_sink.Hlc.Text.{to_text}
use cdc_sink.Types.{Mutation}

-- The slice, the index of each key that was seen, and the start of the result.
pub record Scan {ℓ κ} (C : Type κ) (E : Type ℓ) : Type (ℓ ⊔ κ) where
  pub x : List E
  pub seen_idx : List (C × ℕ)
  pub dest : ℕ

-- `none` is a panic: an index out of range, or one that `key_fn` raises.
infixl 5 ◌>>=◌
abbrev pub ◌>>=◌ {ℓ κ} : {A : Type ℓ} {B : Type κ} → Option A → (A → Option B) → Option B
none >>= f = none
some a >>= f = f a

module _ {ℓ κ} {C : Type κ} {E : Type ℓ} ⦃e : Comparable C⦄ (key_fn : E → Option C)
    (pick_fn : E → E → E) where
  -- The body of the loop at one index `src`.
  unfoldable pub visit : ℕ → Scan C E → Option (Scan C E)
  unfolding map_get
  visit src s = do
    item ← get_elem? s.x src
    key ← key_fn item
    elim (map_get key s.seen_idx) [
      | some cur_idx ↦ (do
        cur ← get_elem? s.x cur_idx
        some (record s { x = set s.x cur_idx (pick_fn cur item) }))
      | none ↦
          let dest = s.dest - 1 in
          some
            (record { x = set s.x dest item; seen_idx = map_put key dest s.seen_idx; dest = dest })
    ]

  -- `for src := len(x) - 1; src >= 0; src--`
  unfoldable pub visit_all : ℕ → Scan C E → Option (Scan C E)
  unfolding visit
  visit_all zero s = some s
  visit_all (suc src) s = visit src s >>= visit_all src

  -- A nil slice gives a nil slice, an empty one an empty one: both are `[]`.
  unfoldable pub unique_by : List E → Option (List E)
  unfolding visit_all
  unique_by x = do
    s ← visit_all (length x) (record { x = x; seen_idx = []; dest = length x })
    some (drop s.dest s.x)

module _ {Meta : Type 0} where
  -- The key as a string, or a panic.
  unfoldable pub key_of : Mutation Meta → Option (List ℕ)
  key_of m = if eqb (length m.key) 0 then none else some m.key

  unfoldable pub later_of : Mutation Meta → Mutation Meta → Mutation Meta
  later_of existing matching =
      if leb_ℤ (pos 0) (compare existing.time matching.time) then existing else matching

  -- `fmt.Sprintf("%s:%s", e.Time, key)`
  unfoldable pub time_key_of : Mutation Meta → Option (List ℕ)
  time_key_of m = if eqb (length m.key) 0 then none else some (to_text m.time ++ (b':' ∷ m.key))

  -- `UniqueByKey`.
  unfoldable pub unique_by_key : List (Mutation Meta) → Option (List (Mutation Meta))
  unfolding key_of later_of
  unique_by_key = unique_by key_of later_of

  -- `UniqueByTimeKey`: the existing mutation is the later one in the slice.
  unfoldable pub unique_by_time_key : List (Mutation Meta) → Option (List (Mutation Meta))
  unfolding time_key_of
  unique_by_time_key = unique_by time_key_of (λ existing _. existing)
