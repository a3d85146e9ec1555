-- ===== src/Merge/ThreeWay.antt =====
-- internal/util/merge/standard.go: the three-way merge that the loop of `merge` is to compute, and the
-- laws of the bags that it works on.
use cdc_sink.Base.{
  ◌≡◌, Bool, not, ◌&&◌, ◌||◌, Option, none, some, List, [], ◌∷◌, ◌++◌, map, true, false, Comparable,
  ◌==◌, is_seen, if◌then◌else◌,
}
use cdc_sink.Merge.{Bags, Bound}

-- What the merge expects of bags and of `crep.Equal`: a bag is a map by the form of the properties, and
-- `crep.Equal` gives no error; `same` is what it answers, and may be any relation.
pub record IsBags {P C V B : Type 0} ⦃c : Comparable C⦄ (form : P → C)
    (same : Option V → Option V → Bool) (bags : Bags P V B) : Type 0 where
  pub get_same :
      (prop other : P) (b : B) → form prop ≡ form other → bags.get prop b ≡ bags.get other b
  pub get_put :
      (prop other : P) (v : V) (b : B)
      → bags.get other (bags.put prop v b)
        ≡ (if form prop == form other then some v else bags.get other b)
  pub get_delete :
      (prop other : P) (b : B)
      → bags.get other (bags.delete prop b)
        ≡ (if form prop == form other then none else bags.get other b)
  pub equal_answers : (v w : Option V) → bags.crep_equal v w ≡ some (same v w)

module _ {V : Type 0} where
  abbrev pub is_undefined : Option V → Bool
  is_undefined none = true
  is_undefined (some v) = false

module _ {V : Type 0} (same : Option V → Option V → Bool) where
  -- The three-way merge of one value: the side that differs from `before` wins, and a change is also
  -- applied where the target does not define the property. Where the two sides are equal, the target
  -- keeps its own representation of the value.
  unfoldable pub merged_value : Option V → Option V → Option V → Option V
  merged_value before target proposed =
      if same before proposed || same target proposed
      then target
      else if same before target || is_undefined target
      then proposed
      else target

  -- Both sides differ from `before`, and from each other, and the target defines the property.
  unfoldable pub is_conflict : Option V → Option V → Option V → Bool
  is_conflict before target proposed =
      not (same before proposed)
      && (not (same target proposed) && (not (same before target) && not (is_undefined target)))

  -- The values that are written to the target.
  unfoldable pub is_applied : Option V → Option V → Option V → Bool
  is_applied before target proposed =
      not (same before proposed)
      && (not (same target proposed) && (is_undefined target || same before target))

module _ {P V B : Type 0} (same : Option V → Option V → Bool) (bags : Bags P V B) where
  -- The properties that both sides changed, in the order of the loop.
  unfoldable pub conflicts : B → B → B → List P → List P
  unfolding is_conflict
  conflicts before target proposed [] = []
  conflicts before target proposed (p ∷ ps) =
      (if is_conflict same (bags.get p before) (bags.get p target) (bags.get p proposed)
        then p ∷ []
        else [])
      ++ conflicts before target proposed ps

module _ {P C V B : Type 0} ⦃c : Comparable C⦄ (form : P → C) (same : Option V → Option V → Bool)
    (bags : Bags P V B) where
  -- What the loop makes of the whole conflict.
  pub record IsMerged (props : List P) (con con' : Bound P B) : Type 0 where
    pub same_before : con'.before ≡ con.before
    pub same_proposed : con'.proposed ≡ con.proposed
    pub target_values :
        (p : P)
        → bags.get p con'.target ≡ (
            if is_seen (form p) (map form props)
            then merged_value same
                (bags.get p con.before)
                (bags.get p con.target)
                (bags.get p con.proposed)
            else bags.get p con.target)
    pub unmerged_props :
        con'.unmerged ≡ con.unmerged ++ conflicts same bags con.before con.target con.proposed props
