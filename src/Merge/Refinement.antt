-- ===== src/Merge/Refinement.antt =====
-- internal/util/merge: `Bag` as the bags that the merge works on.
pub mod Tests
use cdc_sink.Base.{
  ℕ, ◌≡◌, refl, sym, ap, ◌∙◌, subst, inl, inr, Bool, true, false, ◌||◌, Option, none, some, List,
  [], ◌∷◌, ◌++◌, map, length, eqb, Comparable, nat_eq, list_eq, option_eq, ◌==◌, is_seen,
  HasDistinct, arith, Bool-cases, if◌then◌else◌,
}
use cdc_sink.Types.{ColData}
use cdc_sink.Ident.{Text, Ident}
use cdc_sink.Cmap
use cdc_sink.Cmap.{Cmap, Entry, find, store}
use cdc_sink.Cmap.Laws.{NodupKeys, AreCanonical, store-NodupKeys}
use cdc_sink.Crep.{Value, object, bool, field, empty, equal, crep_equal}
use cdc_sink.Merge.{Bags, Bound, Conflict, Resolution, standard_merge, conflict_of}
use cdc_sink.Merge.Bag.{
  BagSpec, Bag, IdentMap, form, renamed, new_bag, new_bag_from, get, put, delete, len, add_columns,
  add_entries, all_properties,
}
use cdc_sink.Merge.Bag.Laws.{place, get-place, spec-put, spec-delete, get-put, get-delete}
use cdc_sink.Merge.ThreeWay.{IsBags, IsMerged, conflicts}
use cdc_sink.Merge.Laws.{update_of, resolution_of, standard_merge_outcome}

-- The properties that `Range` visits.
unfoldable pub keys_of : {A : Type 0} → IdentMap A → List Ident
keys_of [] = []
keys_of ((k, e) ∷ m) = e.key ∷ keys_of m

-- The value that `undefined` is marshalled to.
abbrev pub undefined_value : Value
undefined_value = object (
    field
      (b'_' ∷ b'_' ∷ b'u' ∷ b'n' ∷ b'd' ∷ b'e' ∷ b'f' ∷ b'i' ∷ b'n' ∷ b'e' ∷ b'd' ∷ b'_' ∷ b'_'
        ∷ [])
      (bool true) empty)

module _ {A : Type 0} where
  -- The representation of a property, of which `undefined` takes the place where it is missing.
  abbrev pub value_form : (A → Value) → Option A → Value
  value_form representation none = undefined_value
  value_form representation (some v) = representation v

  abbrev pub canonical_or_undefined : (A → Option Value) → Option A → Option Value
  canonical_or_undefined canonical none = some undefined_value
  canonical_or_undefined canonical (some v) = canonical v

  -- What `merge` calls with two properties.
  unfoldable pub equal_properties : (A → Option Value) → Option A → Option A → Option Bool
  unfolding crep_equal
  equal_properties canonical = crep_equal (canonical_or_undefined canonical)

module _ (to_lower : Text → Text) where
  -- The bags of one spec.
  abbrev pub SpecBag : BagSpec → Type 0 → Type 0
  SpecBag spec A = (b : Bag A) × (b.bag_spec ≡ spec)

  abbrev pub form_in : BagSpec → Ident → Ident
  form_in spec key = form to_lower (renamed to_lower spec key)

  module _ {A : Type 0} (nil : A) (sort : List Ident → List Ident)
      (crep_equal : Option A → Option A → Option Bool) (spec : BagSpec) where
    pub new_bag_from-spec : (b : Bag A) → (new_bag_from to_lower nil b).bag_spec ≡ b.bag_spec
    unfolding new_bag_from new_bag
    new_bag_from-spec b = refl

    -- What the merge calls of its bags, for the bags of one spec.
    abbrev pub bag_ops : Bags Ident A (SpecBag spec A)
    bag_ops = record {
      get = λ key b. get to_lower key b.0;
      put = λ key v b. (put to_lower key v b.0, spec-put to_lower key v b.0 ∙ b.1);
      delete = λ key b. (delete to_lower nil key b.0, spec-delete to_lower nil key b.0 ∙ b.1);
      len = λ b. len b.0;
      new_bag_from = λ b. (new_bag_from to_lower nil b.0, new_bag_from-spec b.0 ∙ b.1);
      range =
          λ proposed before target. keys_of (all_properties to_lower proposed.0 before.0 target.0);
      sort = sort;
      crep_equal = crep_equal;
    }

    -- `Bag` has the laws that the merge expects, where the form of a property is the canonical form
    -- after the renaming: `Get`, `Put` and `Delete` are those of a map by these forms, if `crep.Equal`
    -- gives no error and answers as `same` does.
    pub bag_ops-IsBags :
        (same : Option A → Option A → Bool)
        → ((v w : Option A) → crep_equal v w ≡ some (same v w))
        → IsBags (form_in spec) same bag_ops
    bag_ops-IsBags same answers = record {
      get_same = λ key other b e.
          get-place to_lower key other b.0
            (subst (λ s. form_in s key ≡ form_in s other) (sym b.1) e);
      get_put = λ key other v b.
          subst
            (λ s.
              get to_lower other (put to_lower key v b.0)
              ≡ (if form_in s key == form_in s other then some v else get to_lower other b.0))
            b.1 (get-put to_lower key other v b.0);
      get_delete = λ key other b.
          subst
            (λ s.
              get to_lower other (delete to_lower nil key b.0)
              ≡ (if form_in s key == form_in s other then none else get to_lower other b.0))
            b.1 (get-delete to_lower key other nil b.0);
      equal_answers = answers;
    }

  -- The map of the properties has each form once, at the form of its key.
  record IsKeyed {A : Type 0} (m : IdentMap A) : Type 0 where
    once : NodupKeys {C = Ident} m
    canonical : AreCanonical {C = Ident} (λ k. form to_lower k) m

  store-AreCanonical :
      {A : Type 0} (k : Ident) (v : A) (m : IdentMap A)
      → AreCanonical {C = Ident} (λ j. form to_lower j) m
      → AreCanonical {C = Ident}
          (λ j. form to_lower j)
          (store (form to_lower k) (record { key = k; value = v }) m)
  unfolding store
  store-AreCanonical k v [] h = (refl, tt)
  store-AreCanonical k v ((j, e) ∷ m) h = elim (Bool-cases (j == form to_lower k)) [
    | inl same ↦ rw same ((option_eq.equals_iff j (form to_lower k)).0 same, h.1)
    | inr other ↦ rw other (h.0, store-AreCanonical k v m h.1)
  ]

  put-IsKeyed :
      (k : Ident) (m : IdentMap Unit) → IsKeyed m → IsKeyed (Cmap.put (λ j. form to_lower j) k tt m)
  unfolding Cmap.put
  put-IsKeyed k m h = record {
    once = store-NodupKeys (form to_lower k) _ m h.once;
    canonical = store-AreCanonical k tt m h.canonical;
  }

  add_columns-IsKeyed :
      (columns : List ColData) (m : IdentMap Unit)
      → IsKeyed m
      → IsKeyed (add_columns to_lower columns m)
  unfolding add_columns
  add_columns-IsKeyed [] m h = h
  add_columns-IsKeyed (col ∷ columns) m h = elim (Bool-cases (col.primary || col.ignored)) [
    | inl left_out ↦ rw left_out (add_columns-IsKeyed columns m h)
    | inr kept ↦ rw kept (add_columns-IsKeyed columns _ (put-IsKeyed col.name m h))
  ]

  add_entries-IsKeyed :
      {A : Type 0} (es : List (Entry Ident A)) (m : IdentMap Unit)
      → IsKeyed m
      → IsKeyed (add_entries to_lower es m)
  unfolding add_entries
  add_entries-IsKeyed [] m h = h
  add_entries-IsKeyed (e ∷ es) m h = add_entries-IsKeyed es _ (put-IsKeyed e.key m h)

  all_properties-IsKeyed :
      {A : Type 0} (proposed before target : Bag A)
      → IsKeyed (all_properties to_lower proposed before target)
  unfolding all_properties
  all_properties-IsKeyed proposed before target =
      add_entries-IsKeyed (Cmap.entries target.unmapped) _ (
        add_entries-IsKeyed (Cmap.entries before.unmapped) _ (
          add_entries-IsKeyed (Cmap.entries proposed.unmapped) _ (
            add_columns-IsKeyed proposed.bag_spec.columns []
              (record { once = tt; canonical = tt }))))

  abbrev forms_of : {A : Type 0} → IdentMap A → List Ident
  forms_of m = map (λ k. form to_lower k) (keys_of m)

  is_seen-forms :
      {A : Type 0} (k : Ident) (m : IdentMap A)
      → AreCanonical {C = Ident} (λ j. form to_lower j) m
      → find k m ≡ none
      → is_seen k (forms_of m) ≡ false
  unfolding is_seen keys_of find
  is_seen-forms k [] h absent = refl
  is_seen-forms k ((j, e) ∷ m) h absent = elim (Bool-cases (j == k)) [
    | inl same ↦ absurd (ground (arith, same, absent))
    | inr other ↦
        let here : (form to_lower e.key == k) ≡ false = ap (λ i. i == k) (sym h.0) ∙ other in
        rw here (is_seen-forms k m h.1 (ground (arith, other, absent)))
  ]

  forms-HasDistinct :
      {A : Type 0} (m : IdentMap A)
      → NodupKeys {C = Ident} m
      → AreCanonical {C = Ident} (λ j. form to_lower j) m
      → HasDistinct (forms_of m)
  unfolding keys_of
  forms-HasDistinct [] once canonical = tt
  forms-HasDistinct ((k, e) ∷ m) once canonical = (
    ap (λ i. is_seen i (forms_of m)) (sym canonical.0) ∙ is_seen-forms k m canonical.1 once.0,
    forms-HasDistinct m once.1 canonical.1,
  )

  -- A spec without renames.
  abbrev pub plain : List ColData → BagSpec
  plain columns = record { columns = columns; rename = none }

  module _ {A : Type 0} (nil : A) (sort : List Ident → List Ident) (canonical : A → Option Value)
      (representation : A → Value) (columns : List ColData) where
    abbrev pub ops : Bags Ident A (SpecBag (plain columns) A)
    ops = bag_ops nil sort (equal_properties canonical) (plain columns)

    -- Two properties have canonically equal values.
    abbrev pub same_value : Option A → Option A → Bool
    same_value v w = equal (value_form representation v) (value_form representation w)

    pub equal_properties-same :
        ((v : A) → canonical v ≡ some (representation v))
        → (v w : Option A) → equal_properties canonical v w ≡ some (same_value v w)
    unfolding equal_properties crep_equal
    equal_properties-same has none none = refl
    equal_properties-same has none (some w) = rw (has w, crep_equal) refl
    equal_properties-same has (some v) none = rw (has v, crep_equal) refl
    equal_properties-same has (some v) (some w) = rw (has v, has w, crep_equal) refl

    range-HasDistinct :
        (proposed before target : SpecBag (plain columns) A)
        → HasDistinct (map (form_in (plain columns)) (ops.range proposed before target))
    unfolding renamed
    range-HasDistinct proposed before target =
        let keyed = all_properties-IsKeyed proposed.0 before.0 target.0 in
        forms-HasDistinct (all_properties to_lower proposed.0 before.0 target.0) keyed.once
          keyed.canonical

    -- On bags of one spec without renames, with all three sides of the conflict and properties in the
    -- target, where `Canonical` gives each value a representation without an error: `Standard.Merge`
    -- resolves to the target with the three-way merge of each property of `allProperties`, by `crep.Equal`,
    -- if there is no conflict. A property is in conflict where the proposed value differs from the one
    -- before and the target has a value that differs from both. If there are such properties, it hands
    -- them to the fallback, sorted, or reports an error where there is none.
    pub bag_merge_outcome :
        (fallback : Option (
          Conflict Ident (SpecBag (plain columns) A)
          → Option (Resolution (SpecBag (plain columns) A))))
        (before proposed target : SpecBag (plain columns) A)
        → ((v : A) → canonical v ≡ some (representation v))
        → eqb (len target.0) 0 ≡ false
        → (con' : Bound Ident (SpecBag (plain columns) A)) × IsMerged
            (form_in (plain columns))
            same_value
            ops
            (keys_of (all_properties to_lower proposed.0 before.0 target.0))
            (update_of ops before proposed target)
            con'
          × (standard_merge ops fallback (conflict_of (update_of ops before proposed target))
              ≡ resolution_of ops fallback con' (
                  conflicts same_value ops before target proposed
                    (keys_of (all_properties to_lower proposed.0 before.0 target.0))))
    bag_merge_outcome fallback before proposed target has filled =
        standard_merge_outcome (form_in (plain columns)) same_value ops
          (bag_ops-IsBags nil sort (equal_properties canonical) (plain columns) same_value
            (equal_properties-same has))
          fallback before proposed target filled (range-HasDistinct proposed before target)
