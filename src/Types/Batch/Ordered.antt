-- ===== src/Types/Batch/Ordered.antt =====
-- internal/types/batches.go: `Data` is in the order of time.
use cdc_sink.Base.{
  ℕ, ◌+◌, ◌≤◌, ◌<◌, ◌≡◌, refl, sym, ap, ◌∙◌, subst, inl, inr, Bool, false, none, some, List, [],
  ◌∷◌, ◌++◌, length, length-append, length-set, get_elem?, get_elem?-some, set, ltb, arith, nat_eq,
  ◌==◌, Bool-cases, All, All-append, All-get, if◌then◌else◌,
}
use cdc_sink.Hlc.Order.{IsTime, rank, compare-lt}
use cdc_sink.Ident.{Text, Table}
use cdc_sink.Types.{Mutation}
use cdc_sink.Types.Batch.{
  TemporalBatch, MultiBatch, less, temporal_accumulate, insert_batch, multi_accumulate,
}
use cdc_sink.Types.Batch.Index.{total, KeepsElements, get_elem?-set, All-set}
use cdc_sink.Types.Batch.Dated.{temporal_accumulate-time}
use cdc_sink.Types.Batch.Accumulated.{total-insert, multi_accumulate-Changes}

-- No pointer stands in front of one with a lower place.
abbrev pub IsSortedBy : (ℕ → ℕ) → List ℕ → Type 0
IsSortedBy place [] = Unit
IsSortedBy place (p ∷ ps) = All (λ q. place p ≤ place q) ps × IsSortedBy place ps

-- `sort.Sort` sorts: where `Less` is the order of some places of the elements, they come out by place.
abbrev pub SortsByPlace : ((ℕ → ℕ → Bool) → List ℕ → List ℕ) → Type 0
SortsByPlace sort =
    (less : ℕ → ℕ → Bool) (xs : List ℕ) (place : ℕ → ℕ)
    → All (λ x. All (λ y. less x y ≡ ltb (place x) (place y)) xs) xs
    → IsSortedBy place (sort less xs)

unfoldable pub beyond : ℕ → ℕ → ℕ
beyond n p = if ltb p n then 0 else 1

beyond-total : (n : ℕ) (ps : List ℕ) → All (λ p. p < n) ps → total (beyond n) ps ≡ 0
unfolding total beyond
beyond-total n [] h = refl
beyond-total n (p ∷ ps) h = ground (arith, h.0, beyond-total n ps h.1)

All-beyond : (n : ℕ) (ps : List ℕ) → total (beyond n) ps ≡ 0 → All (λ p. p < n) ps
unfolding total beyond
All-beyond n [] h = tt
All-beyond n (p ∷ ps) h = (ground (arith, h), All-beyond n ps (ground (arith, h)))

module _ {A : Type 0} {P Q : A → Type 0} where
  pub All-map : (xs : List A) → ((x : A) → P x → Q x) → All P xs → All Q xs
  All-map [] f h = tt
  All-map (x ∷ xs) f h = (f x h.0, All-map xs f h.1)

module _ {Meta : Type 0} where
  -- The place of a pointer's batch in the order of the clock.
  unfoldable pub place_at : List (TemporalBatch Meta) → ℕ → ℕ
  place_at heap p = elim (get_elem? heap p) [ none ↦ 0 | some b ↦ rank b.time ]

  place_at-some :
      (heap : List (TemporalBatch Meta)) (p : ℕ) (b : TemporalBatch Meta)
      → get_elem? heap p ≡ some b
      → place_at heap p ≡ rank b.time
  unfolding place_at
  place_at-some heap p b there = ground (arith, there)

  -- The batches are at times of the source, `Data` has pointers to them, and is in their order.
  pub record IsOrdered (b : MultiBatch Meta) : Type 0 where
    pub timed : All (λ (x : TemporalBatch Meta). IsTime x.time) b.heap
    pub known : All (λ p. p < length b.heap) b.contents
    pub sorted : IsSortedBy (place_at b.heap) b.contents

  less_place :
      (heap : List (TemporalBatch Meta)) (p q : ℕ)
      → All (λ (x : TemporalBatch Meta). IsTime x.time) heap
      → p < length heap
      → q < length heap
      → less heap p q ≡ ltb (place_at heap p) (place_at heap q)
  unfolding less place_at
  less_place heap p q timed small small' =
      let (a, at_p) = get_elem?-some heap p small in
      let (b, at_q) = get_elem?-some heap q small' in
      let timed_a = All-get (λ (x : TemporalBatch Meta). IsTime x.time) heap p a timed at_p in
      let timed_b = All-get (λ (x : TemporalBatch Meta). IsTime x.time) heap q b timed at_q in
      ground (arith, at_p, at_q, compare-lt a.time b.time timed_a timed_b)

  -- A change of a batch that keeps its time moves no pointer.
  place_at-set :
      (heap : List (TemporalBatch Meta)) (p q : ℕ) (old x : TemporalBatch Meta)
      → get_elem? heap p ≡ some old
      → x.time ≡ old.time
      → q < length heap
      → place_at (set heap p x) q ≡ place_at heap q
  place_at-set heap p q old x there same small =
      let (b, at_q) = get_elem?-some heap q small in
      let after = get_elem?-set heap old x b p q there at_q in
      elim (Bool-cases (p == q)) [
        | inl here ↦
            let eq : p ≡ q = (nat_eq.equals_iff p q).0 here in
            place_at-some (set heap p x) q x (after ∙ rw here refl)
            ∙ ap rank same
            ∙ sym (place_at-some heap p old there)
            ∙ ap (place_at heap) eq
        | inr other ↦
            place_at-some (set heap p x) q b (after ∙ rw other refl)
            ∙ sym (place_at-some heap q b at_q)
      ]

  IsSortedBy-set :
      (heap : List (TemporalBatch Meta)) (p : ℕ) (old x : TemporalBatch Meta) (ps : List ℕ)
      → get_elem? heap p ≡ some old
      → x.time ≡ old.time
      → All (λ q. q < length heap) ps
      → IsSortedBy (place_at heap) ps
      → IsSortedBy (place_at (set heap p x)) ps
  IsSortedBy-set heap p old x [] there same known h = tt
  IsSortedBy-set heap p old x (q ∷ ps) there same known h =
      (kept ps known.1 h.0, IsSortedBy-set heap p old x ps there same known.1 h.1)
    where
      kept :
          (qs : List ℕ)
          → All (λ r. r < length heap) qs
          → All (λ r. place_at heap q ≤ place_at heap r) qs
          → All (λ r. place_at (set heap p x) q ≤ place_at (set heap p x) r) qs
      kept [] in_heap le = tt
      kept (r ∷ qs) in_heap le = (
        omega (
          arith,
          le.0,
          place_at-set heap p q old x there same known.0,
          place_at-set heap p r old x there same in_heap.0,
        ),
        kept qs in_heap.1 le.1,
      )

  less-All :
      (heap : List (TemporalBatch Meta)) (ps : List ℕ)
      → All (λ (x : TemporalBatch Meta). IsTime x.time) heap
      → All (λ p. p < length heap) ps
      → All (λ p. All (λ q. less heap p q ≡ ltb (place_at heap p) (place_at heap q)) ps) ps
  less-All heap ps timed known =
      All-map ps (λ p small. All-map ps (λ q small'. less_place heap p q timed small small') known)
        known

module _ {Meta : Type 0} (sort : (ℕ → ℕ → Bool) → List ℕ → List ℕ) where
  insert-known :
      (batch : TemporalBatch Meta) (b : MultiBatch Meta)
      → KeepsElements sort
      → All (λ p. p < length b.heap) b.contents
      → All (λ p. p < length (b.heap ++ batch ∷ [])) (insert_batch sort batch b).contents
  insert-known batch b keeps known =
      let n = length (b.heap ++ batch ∷ []) in
      let more : n ≡ length b.heap + 1 = length-append b.heap (batch ∷ []) in
      let old : All (λ p. p < n) b.contents =
        All-map b.contents (λ p small. omega (arith, small, more)) known in
      let last : beyond n (length b.heap) ≡ 0 = unfold beyond in ground (arith, more) in
      All-beyond n (insert_batch sort batch b).contents (
        omega
          (arith, total-insert sort batch b (beyond n) keeps, beyond-total n b.contents old, last))

  insert-sorted :
      (batch : TemporalBatch Meta) (b : MultiBatch Meta)
      → SortsByPlace sort
      → All (λ (x : TemporalBatch Meta). IsTime x.time) (b.heap ++ batch ∷ [])
      → All (λ p. p < length b.heap) b.contents
      → IsSortedBy (place_at (b.heap ++ batch ∷ [])) (insert_batch sort batch b).contents
  unfolding insert_batch
  insert-sorted batch b sorts timed known =
      let heap = b.heap ++ batch ∷ [] in
      let p = length b.heap in
      let after = b.contents ++ p ∷ [] in
      let more : length heap ≡ p + 1 = length-append b.heap (batch ∷ []) in
      let old : All (λ q. q < length heap) b.contents =
        All-map b.contents (λ q small. omega (arith, small, more)) known in
      let all =
        All-append (λ q. q < length heap) b.contents (p ∷ []) old (omega (arith, more), tt) in
      elim (Bool-cases (ltb 1 (length after))) [
        | inl many ↦
            rw many (sorts (less heap) after (place_at heap) (less-All heap after timed all))
        | inr few ↦ rw few (single b.contents p few)
      ]
    where
      single :
          (ps : List ℕ) (p : ℕ)
          → ltb 1 (length (ps ++ p ∷ [])) ≡ false
          → IsSortedBy (place_at (b.heap ++ batch ∷ [])) (ps ++ p ∷ [])
      single [] p h = (tt, tt)
      single (q ∷ ps) p h = absurd (ground (arith, h, length-append ps (p ∷ [])))

module _ {Meta : Type 0} (sort : (ℕ → ℕ → Bool) → List ℕ → List ℕ) where
  insert_batch-IsOrdered :
      (x : TemporalBatch Meta) (b : MultiBatch Meta)
      → KeepsElements sort
      → SortsByPlace sort
      → IsOrdered b
      → IsTime x.time
      → IsOrdered (insert_batch sort x b)
  unfolding insert_batch
  insert_batch-IsOrdered x b keeps sorts h timed_x =
      let timed =
        All-append (λ (y : TemporalBatch Meta). IsTime y.time) b.heap (x ∷ []) h.timed
          (timed_x, tt) in
      record {
        timed = timed;
        known = insert-known sort x b keeps h.known;
        sorted = insert-sorted sort x b sorts timed h.known;
      }

module _ {Meta : Type 0} (to_lower : Text → Text) (sort : (ℕ → ℕ → Bool) → List ℕ → List ℕ) where
  -- `MultiBatch.Accumulate` keeps `Data` in the order of time, whether it fails or not, where the times
  -- of the batches and of the mutation have no negative part. Sorting is to keep the elements, and to
  -- bring them in order where the test that it is given is that of an order.
  pub multi_accumulate-IsOrdered :
      (tbl : Table) (mut : Mutation Meta) (b : MultiBatch Meta)
      → KeepsElements sort
      → SortsByPlace sort
      → IsTime mut.time
      → IsOrdered b
      → IsOrdered (multi_accumulate to_lower sort tbl mut b).0
  multi_accumulate-IsOrdered tbl mut b keeps sorts timed h =
      elim (multi_accumulate-Changes to_lower sort tbl mut b) [
        | inl same ↦ subst IsOrdered (sym same) h
        | inr (inl (p, old, at_time, there, changed)) ↦
            let x = (temporal_accumulate to_lower tbl mut old).0 in
            let same : x.time ≡ old.time = temporal_accumulate-time to_lower tbl mut old in
            let timed_old =
              All-get (λ (y : TemporalBatch Meta). IsTime y.time) b.heap p old h.timed there in
            subst IsOrdered (sym changed) (record {
              timed =
                  All-set (λ (y : TemporalBatch Meta). IsTime y.time) b.heap p x h.timed
                    (subst IsTime (sym same) timed_old);
              known =
                  subst (λ n. All (λ q. q < n) b.contents) (sym (length-set b.heap p x)) h.known;
              sorted = IsSortedBy-set b.heap p old x b.contents there same h.known h.sorted;
            })
        | inr (inr (fresh, changed)) ↦
            let new : TemporalBatch Meta = record { time = mut.time; contents = [] } in
            let x = (temporal_accumulate to_lower tbl mut new).0 in
            let same : x.time ≡ mut.time = temporal_accumulate-time to_lower tbl mut new in
            subst IsOrdered (sym changed)
              (insert_batch-IsOrdered sort x b keeps sorts h (subst IsTime (sym same) timed))
      ]
