-- ===== src/Merge.antt =====
-- internal/util/merge/standard.go: the three-way merge of the properties of a row.

pub mod Bag
pub mod ThreeWay
pub mod Properties
pub mod Laws
pub mod Refinement
pub mod Tests
use cdc_sink.Base.{
  ℕ, ◌≡◌, Bool, true, false, Option, none, some, List, [], ◌∷◌, ◌++◌, length, eqb, if◌then◌else◌,
}

-- What the merge uses of `Bag`, of the identifiers and of `crep.Equal`. A property that a bag does not
-- define is `none`, which stands for `undefined` in comparisons. `range` is the list of the properties
-- in the order in which `Range` of `allProperties` visits them; `crep_equal` is none for an error.
pub record Bags (P V B : Type 0) : Type 0 where
  pub get : P → B → Option V
  pub put : P → V → B → B
  pub delete : P → B → B
  pub len : B → ℕ
  pub new_bag_from : B → B
  pub range : B → B → B → List P
  pub sort : List P → List P
  pub crep_equal : Option V → Option V → Option Bool

-- The bags with no nil among them, and the properties that could not be merged.
pub record Bound (P B : Type 0) : Type 0 where
  pub before : B
  pub proposed : B
  pub target : B
  pub unmerged : List P

pub record Conflict (P B : Type 0) : Type 0 where
  pub before : Option B
  pub proposed : Option B
  pub target : Option B
  pub unmerged : List P

pub record Resolution (B : Type 0) : Type 0 where
  pub apply : Option B
  pub dlq : List ℕ
  pub drop : Bool

infixl 5 ◌>>=◌
abbrev pub ◌>>=◌ : {X Y : Type 0} → Option X → (X → Option Y) → Option Y
◌>>=◌ none step = none
◌>>=◌ (some x) step = step x

unfoldable pub conflict_of : {P B : Type 0} → Bound P B → Conflict P B
conflict_of con = record {
  before = some con.before;
  proposed = some con.proposed;
  target = some con.target;
  unmerged = con.unmerged;
}

module _ {P V B : Type 0} (bags : Bags P V B) where
  -- The test of `isSafe`.
  unfoldable pub is_safe : Option V → Option V → Option Bool
  is_safe before none = some true
  is_safe before (some v) = bags.crep_equal before (some v)

  -- A change that is safe to make.
  unfoldable pub apply : P → Option V → B → B
  apply prop none target = bags.delete prop target
  apply prop (some v) target = bags.put prop v target

  -- The callback for one property, on the three values of it.
  unfoldable pub merge_values : P → Option V → Option V → Option V → Bound P B → Option (Bound P B)
  unfolding is_safe apply
  merge_values prop before target proposed con = bags.crep_equal before proposed >>= λ is_unchanged.
      if is_unchanged
      then some con
      else (bags.crep_equal target proposed >>= λ is_idempotent.
          if is_idempotent
          then some con
          else (is_safe before target >>= λ safe.
              if safe
              then some (record con { target = apply prop proposed con.target })
              else some (record con { unmerged = con.unmerged ++ prop ∷ [] })))

  unfoldable pub merge_property : P → Bound P B → Option (Bound P B)
  unfolding merge_values
  merge_property prop con =
      merge_values prop (bags.get prop con.before) (bags.get prop con.target)
        (bags.get prop con.proposed) con

  -- `Range`: the first error ends it.
  unfoldable pub merge_properties : List P → Bound P B → Option (Bound P B)
  unfolding merge_property
  merge_properties [] con = some con
  merge_properties (prop ∷ props) con = merge_property prop con >>= merge_properties props

  unfoldable pub merge_bound : Bound P B → Option (Bound P B)
  unfolding merge_properties
  merge_bound con = merge_properties (bags.range con.proposed con.before con.target) con

  unfoldable pub merge_target : Conflict P B → B → Option (Conflict P B)
  unfolding merge_bound conflict_of
  merge_target con target = elim con.proposed [
    | none ↦ none
    | some proposed ↦
        (merge_bound (record {
          before = elim con.before [ none ↦ bags.new_bag_from proposed | some b ↦ b ];
          proposed = proposed;
          target = target;
          unmerged = con.unmerged;
        })
          >>= λ merged. some (conflict_of merged))
  ]

  -- The conflict as `merge` leaves it, or none for an error.
  unfoldable pub merge : Conflict P B → Option (Conflict P B)
  unfolding merge_target
  merge con = elim con.target [
    | none ↦ some (record con { target = con.proposed })
    | some target ↦
        let merged = merge_target con target in
        if eqb (bags.len target) 0 then some (record con { target = con.proposed }) else merged
  ]

  unfoldable pub finish :
      Option (Conflict P B → Option (Resolution B)) → Conflict P B → Option (Resolution B)
  finish fallback con =
      if eqb (length con.unmerged) 0
      then some (record { apply = con.target; dlq = []; drop = false })
      else elim fallback [
        | none ↦ none
        | some merger ↦ merger (record con { unmerged = bags.sort con.unmerged })
      ]

  -- `Standard.Merge`; a fallback is optional.
  unfoldable pub standard_merge :
      Option (Conflict P B → Option (Resolution B)) → Conflict P B → Option (Resolution B)
  unfolding merge finish
  standard_merge fallback con = merge con >>= finish fallback
