-- ===== src/Types/Batch/Counted.antt =====
-- internal/types/batches.go: `Accumulate` adds one mutation.
use cdc_sink.Base.{
  ℕ, ◌+◌, ◌≡◌, ◌≢◌, refl, sym, ap, ◌∙◌, inl, inr, false, none, some, List, [], ◌∷◌, ◌++◌, get_elem?,
  set, nat_eq, list_eq, option_eq, map_get, ◌==◌, ==_refl, equals-false, arith, Bool-cases,
}
use cdc_sink.Base.Int.{int_eq}
use cdc_sink.Hlc.{Time, time_eq}
use cdc_sink.Ident.{Table}
use cdc_sink.Ident.Keys.{array_key_eq, qualified_key_eq}
use cdc_sink.Cmap.{Entry, find, store}
use cdc_sink.Types.Batch.{
  TableBatch, TemporalBatch, TableMap, table_count, count_tables, temporal_count, count_at,
  count_all,
}
use cdc_sink.Types.Batch.Index.{total, pointers, IsIndex, get_elem?-append, get_elem?-set}

module _ {Meta : Type 0} where
  pub count_tables-store :
      (k : Table) (e : Entry Table (TableBatch Meta)) (m : TableMap (TableBatch Meta))
      → count_tables (store k e m)
          + (elim (find k m) [ none ↦ 0 | some old ↦ table_count old.value ])
        ≡ count_tables m + table_count e.value
  unfolding count_tables store find
  count_tables-store k e [] = omega arith
  count_tables-store k e ((j, x) ∷ m) = ground (arith, count_tables-store k e m)

  pub count_all-total :
      (heap : List (TemporalBatch Meta)) (ps : List ℕ)
      → count_all heap ps ≡ total (count_at heap) ps
  unfolding count_all total
  count_all-total heap [] = refl
  count_all-total heap (p ∷ ps) = omega (arith, count_all-total heap ps)

  pub count_at-some :
      (heap : List (TemporalBatch Meta)) (p : ℕ) (b : TemporalBatch Meta)
      → get_elem? heap p ≡ some b
      → count_at heap p ≡ temporal_count b
  unfolding count_at
  count_at-some heap p b there = rw (there, count_at) refl

  -- A batch at the end of the heap adds nothing to those of the index.
  pub total-append_heap :
      (heap : List (TemporalBatch Meta)) (x : TemporalBatch Meta) (m : List (Time × ℕ))
      → IsIndex heap m
      → total (count_at (heap ++ x ∷ [])) (pointers m) ≡ total (count_at heap) (pointers m)
  unfolding total pointers
  total-append_heap heap x [] h = refl
  total-append_heap heap x ((t, p) ∷ m) ((b, there, at), fresh, rest) = omega (
    arith,
    total-append_heap heap x m rest,
    count_at-some heap p b there,
    count_at-some (heap ++ x ∷ []) p b (get_elem?-append heap x b p there),
  )

  module _ (heap : List (TemporalBatch Meta)) (p : ℕ) (old x : TemporalBatch Meta)
      (at_p : get_elem? heap p ≡ some old) where
    -- A batch at another time is another batch.
    count_at-other :
        (q : ℕ) (b : TemporalBatch Meta)
        → get_elem? heap q ≡ some b
        → b.time ≢ old.time
        → count_at (set heap p x) q ≡ count_at heap q
    count_at-other q b there differs =
        let other : (p == q) ≡ false = equals-false p q (λ e.
          let one : old ≡ b = ground (arith, e, there, at_p) in
          differs (ap (λ (y : TemporalBatch Meta). y.time) (sym one))) in
        count_at-some (set heap p x) q b (get_elem?-set heap old x b p q at_p there ∙ rw other refl)
        ∙ sym (count_at-some heap q b there)

    total-set_other :
        (m : List (Time × ℕ))
        → IsIndex heap m
        → map_get old.time m ≡ none
        → total (count_at (set heap p x)) (pointers m) ≡ total (count_at heap) (pointers m)
    unfolding total pointers map_get
    total-set_other [] h absent = refl
    total-set_other ((t, q) ∷ m) ((b, there, at), fresh, rest) absent =
        elim (Bool-cases (t == old.time)) [
          | inl same ↦ absurd (ground (arith, same, absent))
          | inr other ↦
              let differs : b.time ≢ old.time =
                λ e. ground (arith, other, (time_eq.equals_iff t old.time).1 (sym at ∙ e)) in
              omega (
                arith,
                count_at-other q b there differs,
                total-set_other m rest (ground (arith, other, absent)),
              )
        ]

    -- A batch of the index that grows by one makes the sum grow by one.
    pub total-set :
        (m : List (Time × ℕ))
        → IsIndex heap m
        → map_get old.time m ≡ some p
        → temporal_count x ≡ temporal_count old + 1
        → total (count_at (set heap p x)) (pointers m) ≡ total (count_at heap) (pointers m) + 1
    unfolding total pointers map_get
    total-set [] h found grown = cc
    total-set ((t, q) ∷ m) ((b, there, at), fresh, rest) found grown =
        elim (Bool-cases (t == old.time)) [
          | inl same ↦
              let e : t ≡ old.time = (time_eq.equals_iff t old.time).0 same in
              let one : q ≡ p = ground (arith, same, found) in
              let now =
                count_at-some (set heap p x) p x
                  (get_elem?-set heap old x old p p at_p at_p ∙ rw (==_refl p) refl) in
              let before = count_at-some heap p old at_p in
              let kept = total-set_other m rest (ap (λ u. map_get u m) (sym e) ∙ fresh) in
              ap (λ i. count_at (set heap p x) i + total (count_at (set heap p x)) (pointers m)) one
              ∙ omega (arith, now, before, kept, grown)
              ∙ ap (λ i. count_at heap i + total (count_at heap) (pointers m) + 1) (sym one)
          | inr other ↦
              let differs : b.time ≢ old.time =
                λ e. ground (arith, other, (time_eq.equals_iff t old.time).1 (sym at ∙ e)) in
              omega (
                arith,
                count_at-other q b there differs,
                total-set m rest (ground (arith, other, found)) grown,
              )
        ]
