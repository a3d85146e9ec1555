-- ===== src/Merge/Bag/Visit.antt =====
-- internal/util/merge/bag.go: the ways to visit the properties of a bag.
use cdc_sink.Base.{◌≡◌, refl, Option, none, some, List, [], ◌∷◌, ◌++◌, length, length-append, arith}
use cdc_sink.Ident.{Ident}
use cdc_sink.Cmap
use cdc_sink.Cmap.{Cmap, Entry}
use cdc_sink.Merge.Bag.{
  BagEntry, IdentMap, Bag, valid_entries, count_valid, len, entries, range, range_valid,
}

-- A loop over a list of entries, which an error ends.
unfoldable pub each_entry :
    {A S F : Type 0} → (Ident → A → S → S × Option F) → List (Entry Ident A) → S → S × Option F
each_entry fn [] s = (s, none)
each_entry fn (e ∷ rest) s =
    let here = fn e.key e.value s in
    let further = each_entry fn rest here.0 in
    elim here.1 [ none ↦ further | some error ↦ (here.0, some error) ]

module _ {A S F : Type 0} (fn : Ident → A → S → S × Option F) where
  each_entry-unmapped :
      (m : IdentMap A) (s : S) → each_entry fn (Cmap.entries m) s ≡ Cmap.range fn m s
  unfolding each_entry Cmap.entries Cmap.range
  each_entry-unmapped [] s = refl
  each_entry-unmapped ((k, e) ∷ m) s = ground (arith, each_entry-unmapped m (fn e.key e.value s).0)

  each_entry-append :
      (es rest : List (Entry Ident A)) (s : S)
      → each_entry fn (es ++ rest) s ≡ (elim (each_entry fn es s).1 [
        | none ↦ each_entry fn rest (each_entry fn es s).0
        | some error ↦ each_entry fn es s
      ])
  unfolding each_entry
  each_entry-append [] rest s = refl
  each_entry-append (e ∷ es) rest s =
      ground (arith, each_entry-append es rest (fn e.key e.value s).0)

  each_entry-valid :
      (m : IdentMap (BagEntry A)) (s : S)
      → each_entry fn (valid_entries m) s ≡ Cmap.range (range_valid fn) m s
  unfolding each_entry valid_entries Cmap.range range_valid
  each_entry-valid [] s = refl
  each_entry-valid ((k, e) ∷ m) s =
      ground (arith, each_entry-valid m s, each_entry-valid m (fn e.key e.value.value s).0)

  range_each : (b : Bag A) (s : S) → range fn b s ≡ each_entry fn (entries b) s
  unfolding range entries
  range_each b s =
      let both = each_entry-append (valid_entries b.mapped) (Cmap.entries b.unmapped) s in
      let first = each_entry-valid b.mapped s in
      let second = each_entry-unmapped b.unmapped (each_entry fn (valid_entries b.mapped) s).0 in
      ground (arith, both, first, second)

length-valid_entries :
    {A : Type 0} (m : IdentMap (BagEntry A)) → length (valid_entries m) ≡ count_valid m
unfolding valid_entries count_valid
length-valid_entries [] = refl
length-valid_entries ((k, e) ∷ m) = ground (arith, length-valid_entries m)

length-entries : {A : Type 0} (m : IdentMap A) → length (Cmap.entries m) ≡ length m
unfolding Cmap.entries
length-entries [] = refl
length-entries ((k, e) ∷ m) = omega (arith, length-entries m)

-- `Range` visits the properties that `Entries` lists, in that order and with the first error as the
-- last call, and `Len` is the number of them.
pub range-entries :
    {A S F : Type 0} (fn : Ident → A → S → S × Option F) (b : Bag A) (s : S)
    → (range fn b s ≡ each_entry fn (entries b) s) × (len b ≡ length (entries b))
unfolding len entries
range-entries fn b s = (
  range_each fn b s,
  omega (
    arith,
    length-append (valid_entries b.mapped) (Cmap.entries b.unmapped),
    length-valid_entries b.mapped,
    length-entries b.unmapped,
  ),
)
