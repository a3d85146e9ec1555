-- ===== src/Merge/Bag/Invariant.antt =====
-- internal/util/merge/bag.go: the state of a bag under its operations.
use cdc_sink.Base.{
  ◌≡◌, refl, sym, ap, ◌∙◌, inl, inr, Bool, true, false, none, some, List, [], ◌∷◌, nat_eq, list_eq,
  option_eq, ◌==◌, arith, Bool-cases, Option-cases,
}
use cdc_sink.Types.{ColData}
use cdc_sink.Ident.{Text, Ident}
use cdc_sink.Cmap
use cdc_sink.Cmap.{Cmap, Entry, find, store, erase}
use cdc_sink.Cmap.Laws.{NodupKeys, find-store, find-erase, store-NodupKeys, erase-NodupKeys}
use cdc_sink.Merge.Bag.{
  BagEntry, IdentMap, BagSpec, Bag, form, renamed, seed, new_bag, update, put, delete,
}
use cdc_sink.Merge.Bag.Laws.{place}

-- Each map has a form once, and no form is both a column and beside the columns.
pub record IsBag {A : Type 0} (b : Bag A) : Type 0 where
  pub mapped_once : NodupKeys {C = Ident} b.mapped
  pub unmapped_once : NodupKeys {C = Ident} b.unmapped
  pub apart :
      (k : Ident) (e : Entry Ident (BagEntry A))
      → find k b.mapped ≡ some e
      → find k b.unmapped ≡ none

module _ (to_lower : Text → Text) {A : Type 0} where
  seed-NodupKeys :
      (nil : A) (columns : List ColData) (m : IdentMap (BagEntry A))
      → NodupKeys {C = Ident} m
      → NodupKeys {C = Ident} (seed to_lower nil columns m)
  unfolding seed Cmap.put
  seed-NodupKeys nil [] m u = u
  seed-NodupKeys nil (col ∷ columns) m u = seed-NodupKeys nil columns _ (store-NodupKeys _ _ m u)

  new_bag-IsBag : (nil : A) (spec : BagSpec) → IsBag (new_bag to_lower nil spec)
  unfolding new_bag find
  new_bag-IsBag nil spec = record {
    mapped_once = seed-NodupKeys nil spec.columns [] tt;
    unmapped_once = tt;
    apart = λ k e there. refl;
  }

  -- A column stays a column when its entry is changed.
  update-IsBag :
      (key : Ident) (valid : Bool) (v : A) (b : Bag A) (e : Entry Ident (BagEntry A))
      → find (form to_lower key) b.mapped ≡ some e
      → IsBag b
      → (b' : Bag A) × (update to_lower key valid v b ≡ some b') × IsBag b'
  unfolding update
  update-IsBag key valid v b e there h =
      let k = form to_lower key in
      let changed : Entry Ident (BagEntry A) = record e {
        value = record e.value { valid = valid; value = v };
      } in
      (
        record b { mapped = store k changed b.mapped },
        ground (arith, there),
        record {
          mapped_once = store-NodupKeys k changed b.mapped h.mapped_once;
          unmapped_once = h.unmapped_once;
          apart = λ j x found. elim (Bool-cases (k == j)) [
            | inl same ↦
                let p : k ≡ j = (option_eq.equals_iff k j).0 same in
                h.apart j e (ap (λ i. find i b.mapped) (sym p) ∙ there)
            | inr other ↦
                h.apart j x (ground (arith, other, found, find-store k j changed b.mapped))
          ];
        },
      )

  update-none :
      (key : Ident) (valid : Bool) (v : A) (b : Bag A)
      → find (form to_lower key) b.mapped ≡ none
      → update to_lower key valid v b ≡ none
  unfolding update
  update-none key valid v b absent = ground (arith, absent)

  put-apart :
      (k j key : Ident) (v : A) (x : Entry Ident (BagEntry A)) (b : Bag A)
      → find k b.mapped ≡ none
      → find j b.mapped ≡ some x
      → find j b.unmapped ≡ none
      → find j (store k (record { key = key; value = v }) b.unmapped) ≡ none
  put-apart k j key v x b absent found none_there = elim (Bool-cases (k == j)) [
    | inl same ↦
        let p : k ≡ j = (option_eq.equals_iff k j).0 same in
        absurd (cc (sym found ∙ ap (λ i. find i b.mapped) (sym p) ∙ absent))
    | inr other ↦ find-store k j (record { key = key; value = v }) b.unmapped ∙ rw other none_there
  ]

  put-IsBag : (key : Ident) (v : A) (b : Bag A) → IsBag b → IsBag (put to_lower key v b)
  unfolding put Cmap.put
  put-IsBag key v b h =
      let k = place to_lower key b in
      elim (Option-cases (find k b.mapped)) [
        | inr (e, there) ↦
            let (b', run, good) = update-IsBag _ true v b e there h in rw (run, put) good
        | inl absent ↦
            rw (update-none _ true v b absent, put)
              (record {
                mapped_once = h.mapped_once;
                unmapped_once = store-NodupKeys k _ b.unmapped h.unmapped_once;
                apart = λ j x found.
                    put-apart k j (renamed to_lower b.bag_spec key) v x b absent found
                      (h.apart j x found);
              })
      ]

  delete-IsBag : (nil : A) (key : Ident) (b : Bag A) → IsBag b → IsBag (delete to_lower nil key b)
  unfolding delete Cmap.delete
  delete-IsBag nil key b h =
      let k = place to_lower key b in
      elim (Option-cases (find k b.mapped)) [
        | inr (e, there) ↦
            let (b', run, good) = update-IsBag _ false nil b e there h in rw (run, delete) good
        | inl absent ↦
            rw (update-none _ false nil b absent, delete)
              (record {
                mapped_once = h.mapped_once;
                unmapped_once = erase-NodupKeys k b.unmapped h.unmapped_once;
                apart = λ j x found. ground (arith, h.apart j x found, find-erase k j b.unmapped);
              })
      ]

-- A call that changes a bag.
pub data Change (A : Type 0) : Type 0 where
  putting : Ident → A → Change A
  deleting : Ident → Change A

unfoldable pub run_changes : {A : Type 0} → (Text → Text) → A → List (Change A) → Bag A → Bag A
unfolding put delete
run_changes to_lower nil [] b = b
run_changes to_lower nil (putting key v ∷ changes) b =
    run_changes to_lower nil changes (put to_lower key v b)
run_changes to_lower nil (deleting key ∷ changes) b =
    run_changes to_lower nil changes (delete to_lower nil key b)

module _ (to_lower : Text → Text) {A : Type 0} (nil : A) where
  run_changes-step :
      (changes : List (Change A)) (b : Bag A) → IsBag b → IsBag (run_changes to_lower nil changes b)
  unfolding run_changes
  run_changes-step [] b h = h
  run_changes-step (putting key v ∷ changes) b h =
      run_changes-step changes (put to_lower key v b) (put-IsBag to_lower key v b h)
  run_changes-step (deleting key ∷ changes) b h =
      run_changes-step changes (delete to_lower nil key b) (delete-IsBag to_lower nil key b h)

  -- However a new bag is changed by `Put` and `Delete`, it has each canonical form at most once among
  -- its columns and at most once beside them, and none in both places.
  pub run_changes-IsBag :
      (spec : BagSpec) (changes : List (Change A))
      → IsBag (run_changes to_lower nil changes (new_bag to_lower nil spec))
  run_changes-IsBag spec changes =
      run_changes-step changes (new_bag to_lower nil spec) (new_bag-IsBag to_lower nil spec)
