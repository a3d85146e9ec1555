-- ===== src/Merge/Bag/Laws.antt =====
-- internal/util/merge/bag.go: what a change of a bag does to each of its properties.
use cdc_sink.Base.{
  ◌≡◌, sym, ap, ◌∙◌, inl, inr, Bool, true, false, Option, none, some, nat_eq, list_eq, option_eq,
  ◌==◌, arith, Bool-cases, Option-cases, if◌then◌else◌,
}
use cdc_sink.Ident.{Text, Ident}
use cdc_sink.Cmap
use cdc_sink.Cmap.{Cmap, Entry, value_of, find, store, erase}
use cdc_sink.Cmap.Laws.{find-store, find-erase}
use cdc_sink.Merge.Bag.{BagEntry, IdentMap, Bag, shown, form, renamed, get, update, put, delete}

-- What the methods show of the property with a canonical form.
unfoldable pub look : {V : Type 0} → Ident → Bag V → Option V
unfolding shown
look k b = elim (find k b.mapped) [ some e ↦ shown e.value | none ↦ value_of (find k b.unmapped) ]

abbrev pub new_value : {V : Type 0} → Bool → V → Option V
new_value valid v = if valid then some v else none

module _ (to_lower : Text → Text) where
  -- The canonical form under which a bag keeps a property.
  abbrev pub place : {V : Type 0} → Ident → Bag V → Ident
  place key b = form to_lower (renamed to_lower b.bag_spec key)

  get_look : {V : Type 0} (key : Ident) (b : Bag V) → get to_lower key b ≡ look (place key b) b
  unfolding get look Cmap.get
  get_look key b = ground arith

  module _ {A : Type 0} (key : Ident) (b : Bag A) (k : Ident) where
    -- A value that is written through an entry of a column.
    look-update :
        (valid : Bool) (v : A) (e : Entry Ident (BagEntry A))
        → find (place key b) b.mapped ≡ some e
        → (b' : Bag A) × (update to_lower (renamed to_lower b.bag_spec key) valid v b ≡ some b')
          × (look k b' ≡ (if place key b == k then new_value valid v else look k b))
    unfolding update look shown
    look-update valid v e there =
        let changed : Entry Ident (BagEntry A) = record e {
          value = record e.value { valid = valid; value = v };
        } in
        (
          record b { mapped = store (place key b) changed b.mapped },
          ground (arith, there),
          ground (arith, find-store (place key b) k changed b.mapped),
        )

    update-none :
        (valid : Bool) (v : A)
        → find (place key b) b.mapped ≡ none
        → update to_lower (renamed to_lower b.bag_spec key) valid v b ≡ none
    unfolding update
    update-none valid v absent = ground (arith, absent)

    look-absent :
        (o : Option A) (m : IdentMap A)
        → (place key b == k) ≡ true
        → value_of (find k m) ≡ (if place key b == k then o else value_of (find k b.unmapped))
        → find k b.mapped ≡ none
        → look k (record b { unmapped = m }) ≡ (if place key b == k then o else look k b)
    unfolding look
    look-absent o m same h gone = ground (arith, same, gone, h)

    -- A value that is kept beside the columns.
    look-unmapped :
        (o : Option A) (m : IdentMap A)
        → find (place key b) b.mapped ≡ none
        → value_of (find k m) ≡ (if place key b == k then o else value_of (find k b.unmapped))
        → look k (record b { unmapped = m }) ≡ (if place key b == k then o else look k b)
    unfolding look
    look-unmapped o m absent h = elim (Bool-cases (place key b == k)) [
      | inl same ↦
          look-absent o m same h (
            ap (λ j. find j b.mapped) (sym ((option_eq.equals_iff (place key b) k).0 same))
            ∙ absent)
      | inr other ↦ ground (arith, other, h)
    ]

    look-put :
        (v : A) → look k (put to_lower key v b) ≡ (if place key b == k then some v else look k b)
    unfolding put Cmap.put
    look-put v = elim (Option-cases (find (place key b) b.mapped)) [
      | inr (e, there) ↦ let (b', run, shows) = look-update true v e there in rw (run, put) shows
      | inl absent ↦
          let new : Entry Ident A = record { key = renamed to_lower b.bag_spec key; value = v } in
          let m = store (place key b) new b.unmapped in
          let same : value_of (find k m)
              ≡ (if place key b == k then some v else value_of (find k b.unmapped)) =
            ground (arith, find-store (place key b) k new b.unmapped) in
          rw (update-none true v absent, put) (look-unmapped (some v) m absent same)
    ]

    look-delete :
        (nil : A)
        → look k (delete to_lower nil key b) ≡ (if place key b == k then none else look k b)
    unfolding delete Cmap.delete
    look-delete nil = elim (Option-cases (find (place key b) b.mapped)) [
      | inr (e, there) ↦
          let (b', run, shows) = look-update false nil e there in rw (run, delete) shows
      | inl absent ↦
          let m = erase (place key b) b.unmapped in
          let same : value_of (find k m)
              ≡ (if place key b == k then none else value_of (find k b.unmapped)) =
            ground (arith, find-erase (place key b) k b.unmapped) in
          rw (update-none false nil absent, delete) (look-unmapped none m absent same)
    ]

  module _ {A : Type 0} where
    pub spec-put : (key : Ident) (v : A) (b : Bag A) → (put to_lower key v b).bag_spec ≡ b.bag_spec
    unfolding put update
    spec-put key v b = ground arith

    pub spec-delete :
        (nil : A) (key : Ident) (b : Bag A) → (delete to_lower nil key b).bag_spec ≡ b.bag_spec
    unfolding delete update
    spec-delete nil key b = ground arith

    -- A value that is put under a key is the value of each key with the same canonical form after the
    -- renaming, whether the bag has a column for it or not, and no other key changes.
    pub get-put :
        (j k : Ident) (v : A) (b : Bag A)
        → get to_lower k (put to_lower j v b)
          ≡ (if place j b == place k b then some v else get to_lower k b)
    get-put j k v b =
        get_look k (put to_lower j v b)
        ∙ ap (λ spec. look (form to_lower (renamed to_lower spec k)) (put to_lower j v b))
            (spec-put j v b)
        ∙ look-put j b (place k b) v
        ∙ ap (λ o. if place j b == place k b then some v else o) (sym (get_look k b))

    -- A key that is deleted has no value, nor has any key with the same canonical form after the
    -- renaming, even if the bag has a column for it, and no other key changes.
    pub get-delete :
        (j k : Ident) (nil : A) (b : Bag A)
        → get to_lower k (delete to_lower nil j b)
          ≡ (if place j b == place k b then none else get to_lower k b)
    get-delete j k nil b =
        get_look k (delete to_lower nil j b)
        ∙ ap (λ spec. look (form to_lower (renamed to_lower spec k)) (delete to_lower nil j b))
            (spec-delete nil j b)
        ∙ look-delete j b (place k b) nil
        ∙ ap (λ o. if place j b == place k b then none else o) (sym (get_look k b))

    -- Keys with one place have one value.
    pub get-place :
        (j k : Ident) (b : Bag A) → place j b ≡ place k b → get to_lower j b ≡ get to_lower k b
    get-place j k b e = get_look j b ∙ ap (λ p. look p b) e ∙ sym (get_look k b)
