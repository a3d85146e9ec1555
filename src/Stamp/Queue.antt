-- ===== src/Stamp/Queue.antt =====
-- internal/util/stamp/queue.go: a queue of stamped values and of the markers that may become its
-- consistent point.
pub mod Lists
pub mod Invariant
pub mod Advance
pub mod Laws
pub mod Mark
pub mod History
use cdc_sink.Base.{
  ℕ, ◌≡◌, Bool, true, false, Option, none, some, List, [], ◌∷◌, ◌++◌, Comparable, ◌==◌,
  if◌then◌else◌,
}
use cdc_sink.Base.Int.{pos, ltb_ℤ, leb_ℤ}
use cdc_sink.Stamp.{Stamps, compare}
use cdc_sink.Stamp.Queue.Lists.{back, last_pair, set_back}

-- The `Stamped` interface, and the optional `Coalescing`: the tail as the call leaves it, and the
-- remainder, where there is one.
pub record Stamped (S V : Type 0) : Type 0 where
  pub stamp : V → S
  pub coalescing : V → Option (V → V × Option V)

pub record Queue (S V : Type 0) : Type 0 where
  pub consistent : Option S
  pub markers : List S
  pub values : List V

pub data Error : Type 0 where
  values_not_monotonic markers_not_monotonic consistent_past_values consistent_past_markers : Error
  consistent_not_increasing : Error

-- What a call that reports an error leaves behind.
pub record Outcome (S V : Type 0) : Type 0 where
  pub queue : Queue S V
  pub error : Option Error

-- The zero value.
abbrev pub empty : {S V : Type 0} → Queue S V
empty = record { consistent = none; markers = []; values = [] }

head_of : {A : Type 0} → List A → Option A
head_of [] = none
head_of (x ∷ xs) = some x

module _ {S V : Type 0} ⦃e : Comparable S⦄ (stamps : Stamps S) (stamped : Stamped S V) where
  -- Invariants 1 and 2 are tested at the last two elements only.
  check_values : List V → Option Error
  unfolding last_pair
  check_values values = elim (last_pair values) [
    | none ↦ none
    | some (a, b) ↦
        if ltb_ℤ (compare stamps (some (stamped.stamp b)) (some (stamped.stamp a))) (pos 0)
        then some values_not_monotonic
        else none
  ]

  check_markers : List S → Option Error
  unfolding last_pair
  check_markers markers = elim (last_pair markers) [
    | none ↦ none
    | some (a, b) ↦
        if leb_ℤ (compare stamps (some b) (some a)) (pos 0)
        then some markers_not_monotonic
        else none
  ]

  check_first_value : Option S → List V → Option Error
  check_first_value consistent [] = none
  check_first_value consistent (v ∷ vs) =
      if leb_ℤ (pos 0) (compare stamps consistent (some (stamped.stamp v)))
      then some consistent_past_values
      else none

  check_first_marker : Option S → List S → Option Error
  check_first_marker consistent [] = none
  check_first_marker consistent (m ∷ ms) =
      if leb_ℤ (pos 0) (compare stamps consistent (some m))
      then some consistent_past_markers
      else none

  -- The first error of two checks.
  or_else : Option Error → Option Error → Option Error
  or_else none later = later
  or_else (some found) later = some found

  unfoldable pub validate : Queue S V → Option Error
  unfolding check_values check_markers check_first_value check_first_marker or_else
  validate q = or_else (check_values q.values) (
      or_else (check_markers q.markers) (
        or_else (check_first_value q.consistent q.values)
          (check_first_marker q.consistent q.markers)))

  unfoldable pub set_consistent : Queue S V → S → Outcome S V
  unfolding validate
  set_consistent q next =
      if leb_ℤ (compare stamps (some next) q.consistent) (pos 0)
      then record { queue = q; error = some consistent_not_increasing }
      else let moved = record q { consistent = some next } in
        elim (validate moved) [
          | none ↦ record { queue = moved; error = none }
          | some error ↦ record { queue = q; error = some error }
        ]

  -- The loop that removes the markers before a stamp: the last of them, if any, and the rest.
  unfoldable pub pop_markers : S → Option S → List S → Option S × List S
  pop_markers head found [] = (found, [])
  pop_markers head found (m ∷ ms) =
      let later = pop_markers head (some m) ms in
      if stamps.less m head then later else (found, m ∷ ms)

  -- The candidate for the consistent point, and the markers that stay.
  unfoldable pub next_consistent : Queue S V → Option S × List S
  unfolding pop_markers back
  next_consistent q = elim q.values [
    | [] ↦ (back q.markers, [])
    | v ∷ vs ↦ pop_markers (stamped.stamp v) none q.markers
  ]

  unfoldable pub advance_consistent_point : Queue S V → Outcome S V
  unfolding next_consistent set_consistent
  advance_consistent_point q =
      let (next, markers) = next_consistent q in
      let rest = record q { markers = markers } in
      elim next [
        | none ↦ record { queue = rest; error = none }
        | some stamp ↦ set_consistent rest stamp
      ]

  -- `none` is the panic on a failed advance.
  unfoldable pub after_advance : V → Outcome S V → Option (Option V × Queue S V)
  after_advance v advanced = elim advanced.error [
    | none ↦ some (some v, advanced.queue)
    | some error ↦ none
  ]

  -- The value, if there is one, and the queue.
  unfoldable pub dequeue : Queue S V → Option (Option V × Queue S V)
  unfolding advance_consistent_point after_advance
  dequeue q = elim q.values [
    | [] ↦ some (none, q)
    | v ∷ vs ↦ after_advance v (advance_consistent_point (record q { values = vs }))
  ]

  -- A failed check takes the value off the back again.
  unfoldable pub push_value : Queue S V → V → Outcome S V
  unfolding validate
  push_value q next =
      let pushed = record q { values = q.values ++ next ∷ [] } in
      elim (validate pushed) [
        | none ↦ record { queue = pushed; error = none }
        | some error ↦ record { queue = q; error = some error }
      ]

  -- The tail as coalescing leaves it; a remainder is still to be added.
  unfoldable pub after_coalesce : Queue S V → V × Option V → Outcome S V
  unfolding push_value set_back
  after_coalesce q (tail, none) = record {
    queue = record q { values = set_back q.values tail };
    error = none;
  }
  after_coalesce q (tail, some next) =
      push_value (record q { values = set_back q.values tail }) next

  unfoldable pub enqueue : Queue S V → V → Outcome S V
  unfolding push_value back after_coalesce
  enqueue q next = elim (back q.values) [
    | none ↦ push_value q next
    | some tail ↦ elim (stamped.coalescing tail) [
      | none ↦ push_value q next
      | some coalesce ↦ after_coalesce q (coalesce next)
    ]
  ]

  unfoldable pub mark : Queue S V → S → Outcome S V
  unfolding validate advance_consistent_point
  mark q marker =
      let pushed = record q { markers = q.markers ++ marker ∷ [] } in
      elim (validate pushed) [
        | none ↦ advance_consistent_point pushed
        | some error ↦ record { queue = q; error = some error }
      ]

  unfoldable pub peek : Queue S V → Option V
  unfolding head_of
  peek q = head_of q.values

  unfoldable pub peek_marker : Queue S V → Option S
  unfolding head_of
  peek_marker q = head_of q.markers
