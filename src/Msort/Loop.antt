-- ===== src/Msort/Loop.antt =====
-- internal/util/msort/msort.go: the loop of `uniqueBy` computes the fold that keeps one element for
-- each key.
use mathlib.Core.Option
use native.Mathlib.Decide.{dec_lt}
use cdc_sink.Base.{
  ℕ, zero, suc, ◌-◌, ◌+◌, ◌<◌, ◌≤◌, ◌≡◌, refl, ap, sym, ◌∙◌, Option, none, some, List, [], ◌∷◌,
  length, get_elem?, set, drop, Comparable, ◌==◌, All, All-get, ◌⊎◌, arith, Option-cases, inl, inr,
  length-set, get_elem?-some, get_elem?-set_lt, get_elem?-drop, drop-set, drop-set_self, drop-cons,
  drop-length, Bool-cases,
}
use cdc_sink.Base.{map_get}
use cdc_sink.Msort.{Scan, visit, visit_all, unique_by}
use cdc_sink.Msort.Compact.{
  index_of, index_of-get, index_of-set, absorb, compact, update_at-set, absorb-fresh, absorb-seen,
}

module _ {ℓ κ} {C : Type κ} {E : Type ℓ} ⦃e : Comparable C⦄ (key : E → C) (pick : E → E → E) where
  shift : ℕ → Option ℕ → Option ℕ
  shift d none = none
  shift d (some j) = some (d + j)

  shift-suc : (d : ℕ) (o : Option ℕ) → shift d (Option.map suc o) ≡ shift (suc d) o
  unfolding shift
  shift-suc d none = refl
  shift-suc d (some j) = ap some (omega arith)

  -- The state before the elements under `n` of the slice `x₀` are visited.
  record Visited (n : ℕ) (whole : List E) (s : Scan C E) : Type (ℓ ⊔ κ) where
    same_length : length s.x ≡ length whole
    bounds : (n ≤ s.dest) × (s.dest ≤ length whole)
    front : (i : ℕ) → i < n → get_elem? s.x i ≡ get_elem? whole i
    rear : drop s.dest s.x ≡ compact key pick (drop n whole)
    index : (k : C) → map_get k s.seen_idx ≡ shift s.dest (index_of key k (drop s.dest s.x))

  module _ (key_fn : E → Option C) (pick_keeps : (a b : E) → key a ≡ key b → key (pick a b) ≡ key a)
      (n : ℕ) (whole : List E) (s : Scan C E) (v : Visited (suc n) whole s) (item : E)
      (at_n : get_elem? whole n ≡ some item) (keyed : key_fn item ≡ some (key item)) where
    compact-next : compact key pick (drop n whole) ≡ absorb key pick item (drop s.dest s.x)
    compact-next = rw (drop-cons whole n item at_n, v.rear) (unfold compact in refl)

    index-fresh :
        (k : C)
        → map_get k s.seen_idx ≡ shift s.dest (index_of key k (drop s.dest s.x))
        → 0 < s.dest
        → map_get k ((key item, s.dest - 1) ∷ s.seen_idx)
          ≡ shift (s.dest - 1) (index_of key k (item ∷ drop s.dest s.x))
    unfolding map_get index_of
    index-fresh k old pos_dest =
        let d = s.dest - 1 in
        let here : d + 0 ≡ d = omega arith in
        let back : suc d ≡ s.dest = omega arith in
        elim (Bool-cases (key item == k)) [
          | inl same ↦ rw same (unfold shift in ap some (sym here))
          | inr other ↦ rw (other, shift-suc, back) old
        ]

    -- A key that was not seen yet: its element is put in front of the result.
    visit-fresh :
        index_of key (key item) (drop s.dest s.x) ≡ none
        → (s' : Scan C E) × (visit key_fn pick n s ≡ some s') × Visited n whole s'
    unfolding visit
    visit-fresh fresh =
        let there : get_elem? s.x n ≡ some item = v.front n (omega arith) ∙ at_n in
        let unseen : map_get (key item) s.seen_idx ≡ none =
          v.index (key item) ∙ (rw fresh (unfold shift in refl)) in
        let dest = s.dest - 1 in
        let back : suc dest ≡ s.dest = omega (arith, v.bounds) in
        let placed : drop dest (set s.x dest item) ≡ item ∷ drop s.dest s.x =
          drop-set_self s.x dest item (omega (arith, v.bounds, v.same_length))
          ∙ ap (λ d. item ∷ drop d s.x) back in
        (
          record { x = set s.x dest item; seen_idx = (key item, dest) ∷ s.seen_idx; dest = dest },
          ground (arith, there, keyed, unseen),
          record {
            same_length = rw length-set v.same_length;
            bounds = (omega (arith, v.bounds), omega (arith, v.bounds));
            front = λ i h.
                get_elem?-set_lt s.x dest i item (omega (arith, v.bounds))
                ∙ v.front i (omega arith);
            rear = placed ∙ sym (compact-next ∙ absorb-fresh key pick item (drop s.dest s.x) fresh);
            index = λ k. rw placed (index-fresh k (v.index k) (omega (arith, v.bounds)));
          },
        )

    -- A key that was seen: the element kept for it is replaced in its place.
    visit-seen :
        (j : ℕ)
        → index_of key (key item) (drop s.dest s.x) ≡ some j
        → (s' : Scan C E) × (visit key_fn pick n s ≡ some s') × Visited n whole s'
    unfolding visit
    visit-seen j seen =
        let there : get_elem? s.x n ≡ some item = v.front n (omega arith) ∙ at_n in
        let found : map_get (key item) s.seen_idx ≡ some (s.dest + j) =
          v.index (key item) ∙ (rw seen (unfold shift in refl)) in
        let (y, at_j, same, _) = index_of-get key (key item) (drop s.dest s.x) j seen in
        let cur : get_elem? s.x (s.dest + j) ≡ some y = sym (get_elem?-drop s.x s.dest j) ∙ at_j in
        let next = pick y item in
        let placed = drop-set s.x s.dest j next in
        (
          record s { x = set s.x (s.dest + j) next },
          ground (arith, there, keyed, found, cur),
          record {
            same_length = rw length-set v.same_length;
            bounds = (omega (arith, v.bounds), v.bounds.1);
            front = λ i h.
                get_elem?-set_lt s.x (s.dest + j) i next (omega (arith, v.bounds))
                ∙ v.front i (omega arith);
            rear =
                placed
                ∙ sym (
                    compact-next
                    ∙ absorb-seen key pick item (drop s.dest s.x) j seen
                    ∙ update_at-set j (λ y'. pick y' item) y (drop s.dest s.x) at_j);
            index = λ k.
                rw
                  (
                    placed,
                    index_of-set key k (drop s.dest s.x) j y next at_j (pick_keeps y item same),
                  )
                  (v.index k);
          },
        )

    visit-Visited : (s' : Scan C E) × (visit key_fn pick n s ≡ some s') × Visited n whole s'
    visit-Visited = elim (Option-cases (index_of key (key item) (drop s.dest s.x))) [
      | inl fresh ↦ visit-fresh fresh
      | inr (j, seen) ↦ visit-seen j seen
    ]

module _ {ℓ κ} {C : Type κ} {E : Type ℓ} ⦃e : Comparable C⦄ (key : E → C) (pick : E → E → E)
    (whole : List E) where
  Visited-start :
      Visited key pick
        (length whole)
        whole
        (record { x = whole; seen_idx = []; dest = length whole })
  Visited-start = record {
    same_length = refl;
    bounds = (omega arith, omega arith);
    front = λ i h. refl;
    rear = rw drop-length (unfold compact in refl);
    index = λ k. rw drop-length (unfold index_of map_get shift in refl);
  }

module _ {ℓ κ} {C : Type κ} {E : Type ℓ} ⦃e : Comparable C⦄ (key : E → C) (pick : E → E → E)
    (key_fn : E → Option C) (pick_keeps : (a b : E) → key a ≡ key b → key (pick a b) ≡ key a)
    (whole : List E) (keyed : All (λ x. key_fn x ≡ some (key x)) whole) where
  visit_all-Visited :
      (n : ℕ) (s : Scan C E)
      → Visited key pick n whole s
      → (s' : Scan C E) × (visit_all key_fn pick n s ≡ some s') × Visited key pick 0 whole s'
  unfolding visit_all
  visit_all-Visited zero s v = (s, refl, v)
  visit_all-Visited (suc n) s v =
      let (item, at_n) = get_elem?-some whole n (omega (arith, v.bounds)) in
      let (t, run, w) =
        visit-Visited key pick key_fn pick_keeps n whole s v item at_n
          (All-get (λ x. key_fn x ≡ some (key x)) whole n item keyed at_n) in
      let (u, rest, z) = visit_all-Visited n t w in (u, rw run rest, z)

  -- Where every element has a key, `uniqueBy` does not panic, and returns the fold.
  pub unique_by-compact : unique_by key_fn pick whole ≡ some (compact key pick whole)
  unfolding unique_by
  unique_by-compact =
      let (s, run, v) = visit_all-Visited (length whole) _ (Visited-start key pick whole) in
      rw run (ap some v.rear)

module _ {ℓ κ} {C : Type κ} {E : Type ℓ} ⦃e : Comparable C⦄ (key : E → C) (pick : E → E → E)
    (key_fn : E → Option C) (pick_keeps : (a b : E) → key a ≡ key b → key (pick a b) ≡ key a)
    (key_or_panic : (x : E) → (key_fn x ≡ none) ⊎ (key_fn x ≡ some (key x))) (whole : List E)
    (i : ℕ) (bad : E) (at_i : get_elem? whole i ≡ some bad) (keyless : key_fn bad ≡ none) where
  visit-panics :
      (n : ℕ) (s : Scan C E) (item : E)
      → get_elem? s.x n ≡ some item
      → key_fn item ≡ none
      → visit key_fn pick n s ≡ none
  unfolding visit
  visit-panics n s item there h = rw (there, h) refl

  visit_all-panics :
      (n : ℕ) (s : Scan C E) → i < n → Visited key pick n whole s → visit_all key_fn pick n s ≡ none
  unfolding visit_all
  visit_all-panics zero s h v = absurd (omega arith)
  visit_all-panics (suc n) s h v =
      let (item, at_n) = get_elem?-some whole n (omega (arith, v.bounds)) in
      let there : get_elem? s.x n ≡ some item = v.front n (omega arith) ∙ at_n in
      elim (key_or_panic item) [
        | inl panics ↦ rw (visit-panics n s item there panics) refl
        | inr keyed ↦
            let (t, run, w) =
              visit-Visited key pick key_fn pick_keeps n whole s v item at_n keyed in
            let below : i < n = elim (dec_lt i n) [
              | yes p ↦ p
              | no p ↦
                  let here : i ≡ n = omega arith in
                  let same : some bad ≡ some item = sym at_i ∙ ap (get_elem? whole) here ∙ at_n in
                  let clash : some (key bad) ≡ none = cc in cc
            ] in
            rw run (visit_all-panics n t below w)
      ]

  -- Where an element has no key, `uniqueBy` panics.
  pub unique_by-panics : i < length whole → unique_by key_fn pick whole ≡ none
  unfolding unique_by
  unique_by-panics h = rw (visit_all-panics (length whole) _ h (Visited-start key pick whole)) refl
