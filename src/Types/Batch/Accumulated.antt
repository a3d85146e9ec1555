-- ===== src/Types/Batch/Accumulated.antt =====
-- internal/types/batches.go: what `MultiBatch.Accumulate` does to the index of the batches.
use cdc_sink.Base.{
  ℕ, ◌+◌, ◌≡◌, refl, sym, ap, ◌∙◌, subst, ◌⊎◌, inl, inr, Bool, none, some, List, [], ◌∷◌, ◌++◌,
  length, get_elem?, set, ltb, nat_eq, list_eq, option_eq, map_get, ◌==◌, arith, Bool-cases,
  Option-cases, get_elem?-append_last, All, All-append, All-get,
}
use cdc_sink.Base.Int.{int_eq}
use cdc_sink.Hlc.{zero_time, time_eq}
use cdc_sink.Ident.{Text, Table, qualified_empty}
use cdc_sink.Ident.Keys.{array_key_eq, qualified_key_eq}
use cdc_sink.Types.{Mutation}
use cdc_sink.Types.Batch.{
  TemporalBatch, MultiBatch, temporal_accumulate, insert_batch, multi_accumulate, less,
}
use cdc_sink.Types.Batch.Index.{
  total, total-append, KeepsElements, pointers, IsIndex, IsIndex-append, IsIndex-set, All-set,
}
use cdc_sink.Types.Batch.Dated.{IsDated, temporal_accumulate-time, temporal_accumulate-IsDated}

module _ {Meta : Type 0} where
  -- The invariant of a multi-batch: `Data` has just the pointers of `ByTime`, in some order.
  pub record IsMulti (b : MultiBatch Meta) : Type 0 where
    pub index : IsIndex b.heap b.by_time
    pub dated : All IsDated b.heap
    pub listed : (f : ℕ → ℕ) → total f b.contents ≡ total f (pointers b.by_time)

module _ {Meta : Type 0} (sort : (ℕ → ℕ → Bool) → List ℕ → List ℕ) where
  -- The new pointer is listed once more, before and after the sort.
  pub total-insert :
      (batch : TemporalBatch Meta) (b : MultiBatch Meta) (f : ℕ → ℕ)
      → KeepsElements sort
      → total f (insert_batch sort batch b).contents ≡ total f b.contents + f (length b.heap)
  unfolding insert_batch
  total-insert batch b f keeps =
      let p = length b.heap in
      let after = b.contents ++ p ∷ [] in
      let order = less (b.heap ++ batch ∷ []) in
      let sorted = keeps order after f in
      let last = total-append f b.contents p in
      elim (Bool-cases (ltb 1 (length after))) [
        | inl many ↦ rw many (sorted ∙ last)
        | inr one ↦ rw one last
      ]

  insert_batch-IsMulti :
      (batch : TemporalBatch Meta) (b : MultiBatch Meta)
      → KeepsElements sort
      → IsDated batch
      → map_get batch.time b.by_time ≡ none
      → IsMulti b
      → IsMulti (insert_batch sort batch b)
  unfolding insert_batch pointers total
  insert_batch-IsMulti batch b keeps dated fresh h = record {
    dated = All-append IsDated b.heap (batch ∷ []) h.dated (dated, tt);
    index = (
      (batch, get_elem?-append_last b.heap (length b.heap) batch refl, refl),
      fresh,
      IsIndex-append b.heap batch b.by_time h.index,
    );
    listed = λ f. omega (arith, total-insert batch b f keeps, h.listed f);
  }

module _ {Meta : Type 0} (to_lower : Text → Text) (sort : (ℕ → ℕ → Bool) → List ℕ → List ℕ) where
  -- The three ways in which the state changes.
  abbrev pub Changes : Table → Mutation Meta → MultiBatch Meta → Type 0
  Changes tbl mut b =
      let b' = (multi_accumulate to_lower sort tbl mut b).0 in
      (b' ≡ b)
      ⊎ (((p : ℕ) × (old : TemporalBatch Meta) × (map_get mut.time b.by_time ≡ some p)
            × (get_elem? b.heap p ≡ some old)
            × (b' ≡ record b { heap = set b.heap p (temporal_accumulate to_lower tbl mut old).0 }))
          ⊎ ((map_get mut.time b.by_time ≡ none)
              × (b'
                  ≡ insert_batch sort
                      (temporal_accumulate to_lower tbl mut
                        (record { time = mut.time; contents = [] })).0
                      b)))

  pub multi_accumulate-Changes :
      (tbl : Table) (mut : Mutation Meta) (b : MultiBatch Meta) → Changes tbl mut b
  unfolding multi_accumulate
  multi_accumulate-Changes tbl mut b = elim (Bool-cases (qualified_empty tbl)) [
    | inl blank ↦ inl (ground (arith, blank))
    | inr named ↦ elim (Bool-cases (mut.time == zero_time)) [
      | inl timeless ↦ inl (ground (arith, named, timeless))
      | inr timed ↦ elim (Option-cases (map_get mut.time b.by_time)) [
        | inr (p, at_time) ↦ elim (Option-cases (get_elem? b.heap p)) [
          | inl lost ↦ inl (ground (arith, named, timed, at_time, lost))
          | inr (old, there) ↦
              inr (inl (p, old, at_time, there, ground (arith, named, timed, at_time, there)))
        ]
        | inl fresh ↦
            let new : TemporalBatch Meta = record { time = mut.time; contents = [] } in
            elim (Option-cases (temporal_accumulate to_lower tbl mut new).1) [
              | inl fine ↦ inr (inr (fresh, ground (arith, named, timed, fresh, fine)))
              | inr (failure, bad) ↦ inl (ground (arith, named, timed, fresh, bad))
            ]
      ]
    ]
  ]

  -- `MultiBatch.Accumulate` keeps the index right, whether it fails or not: each entry of `ByTime` is a
  -- pointer to a batch at its time, no time is there twice, and `Data` has the same pointers as
  -- `ByTime`, each as often. Sorting is to keep the elements.
  pub multi_accumulate-IsMulti :
      (tbl : Table) (mut : Mutation Meta) (b : MultiBatch Meta)
      → KeepsElements sort
      → IsMulti b
      → IsMulti (multi_accumulate to_lower sort tbl mut b).0
  multi_accumulate-IsMulti tbl mut b keeps h = elim (multi_accumulate-Changes tbl mut b) [
    | inl same ↦ subst IsMulti (sym same) h
    | inr (inl (p, old, at_time, there, changed)) ↦
        let batch = (temporal_accumulate to_lower tbl mut old).0 in
        subst IsMulti (sym changed) (record {
          index =
              IsIndex-set b.heap p old batch b.by_time there
                (temporal_accumulate-time to_lower tbl mut old) h.index;
          dated = All-set IsDated b.heap p batch h.dated (
              temporal_accumulate-IsDated to_lower tbl mut old
                (All-get IsDated b.heap p old h.dated there));
          listed = h.listed;
        })
    | inr (inr (fresh, changed)) ↦
        let new : TemporalBatch Meta = record { time = mut.time; contents = [] } in
        let batch = (temporal_accumulate to_lower tbl mut new).0 in
        let at : batch.time ≡ mut.time = temporal_accumulate-time to_lower tbl mut new in
        let dated = temporal_accumulate-IsDated to_lower tbl mut new tt in
        subst IsMulti (sym changed) (
          insert_batch-IsMulti sort batch b keeps dated (ap (λ t. map_get t b.by_time) at ∙ fresh)
            h)
  ]
