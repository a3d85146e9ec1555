-- ===== src/Stamp/Queue/Advance.antt =====
-- internal/util/stamp/queue.go: `advanceConsistentPoint` moves the consistent point over just the
-- markers that no queued value is waiting for.
use cdc_sink.Base.{
  ◌≡◌, refl, sym, ap, ◌∙◌, true, false, Option, none, some, List, [], ◌∷◌, ◌++◌, Comparable,
  Option-cases, Bool-cases, inl, inr, subst, All, append_nil,
}
use cdc_sink.Stamp.{Stamps}
use cdc_sink.Stamp.Order.{IsOrder, is_before, compare-after}
use cdc_sink.Stamp.Queue.Lists.{back, Chain, Chain-tail}
use cdc_sink.Stamp.Queue.{
  Stamped, Queue, set_consistent, pop_markers, next_consistent, advance_consistent_point,
}
use cdc_sink.Stamp.Queue.Invariant.{IsOrdered, StartsAfter, StampsAfter, validate-none}

-- The last of some markers, or the point there was.
abbrev pub latest : {S : Type 0} → Option S → List S → Option S
latest c [] = c
latest c (m ∷ ms) = latest (some m) ms

module _ {S V : Type 0} ⦃e : Comparable S⦄ (stamps : Stamps S) (stamped : Stamped S V) where
  -- The first of the markers that stay is not before the stamp.
  abbrev pub StopsAt : S → List S → Type 0
  StopsAt head [] = Unit
  StopsAt head (m ∷ ms) = stamps.less m head ≡ false

  -- The markers that are passed: all of them where nothing is queued, else those before the first
  -- value.
  abbrev pub Covers : List V → List S → List S → Type 0
  Covers [] popped rest = rest ≡ []
  Covers (v ∷ vs) popped rest =
      All (λ m. stamps.less m (stamped.stamp v) ≡ true) popped × StopsAt (stamped.stamp v) rest

  -- `q'` is `q` with the consistent point moved over the markers `popped`.
  pub record Advanced (q q' : Queue S V) : Type 0 where
    pub popped : List S
    pub same_values : q'.values ≡ q.values
    pub split : q.markers ≡ popped ++ q'.markers
    pub moved : q'.consistent ≡ latest q.consistent popped
    pub covers : Covers q.values popped q'.markers

  pop_markers-split :
      (head : S) (found : Option S) (ms : List S)
      → (popped : List S) × (ms ≡ popped ++ (pop_markers stamps stamped head found ms).1)
        × ((pop_markers stamps stamped head found ms).0 ≡ latest found popped)
        × All (λ m. stamps.less m head ≡ true) popped
        × StopsAt head (pop_markers stamps stamped head found ms).1
  unfolding pop_markers
  pop_markers-split head found [] = ([], refl, refl, tt, tt)
  pop_markers-split head found (m ∷ ms) = elim (Bool-cases (stamps.less m head)) [
    | inl p ↦
        let (popped, split, last, all, stop) = pop_markers-split head (some m) ms in
        (m ∷ popped, rw p (ap (◌∷◌ m) split), rw p last, (p, all), rw p stop)
    | inr p ↦ ([], rw p refl, rw p refl, tt, rw p p)
  ]

  back-latest : (ms : List S) → back ms ≡ latest none ms
  unfolding back
  back-latest [] = refl
  back-latest (m ∷ []) = refl
  back-latest (m ∷ n ∷ ms) = back-latest (n ∷ ms) ∙ sym (latest-cons n ms)
    where
      latest-cons : (n : S) (ms : List S) → latest (some n) ms ≡ latest none (n ∷ ms)
      latest-cons n ms = refl

  next_consistent-split :
      (q : Queue S V)
      → (popped : List S) × (q.markers ≡ popped ++ (next_consistent stamps stamped q).1)
        × ((next_consistent stamps stamped q).0 ≡ latest none popped)
        × Covers q.values popped (next_consistent stamps stamped q).1
  unfolding next_consistent
  next_consistent-split q = go q.values
    where
      go :
          (vs : List V)
          → (popped : List S) × (q.markers
              ≡ popped ++ (next_consistent stamps stamped (record q { values = vs })).1)
            × ((next_consistent stamps stamped (record q { values = vs })).0 ≡ latest none popped)
            × Covers vs popped (next_consistent stamps stamped (record q { values = vs })).1
      go [] = (q.markers, sym (append_nil q.markers), back-latest q.markers, refl)
      go (v ∷ vs) =
          let (popped, split, last, all, stop) =
            pop_markers-split (stamped.stamp v) none q.markers in
          (popped, split, last, (all, stop))

  module _ (o : IsOrder stamps) where
    latest-StartsAfter :
        (c : Option S) (popped rest : List S)
        → StartsAfter stamps stamped c (popped ++ rest)
        → Chain stamps.less (popped ++ rest)
        → StartsAfter stamps stamped (latest c popped) rest × Chain stamps.less rest
    latest-StartsAfter c [] rest h k = (h, k)
    latest-StartsAfter c (m ∷ ms) rest h k =
        latest-StartsAfter (some m) ms rest (chain-after m (ms ++ rest) k)
          (Chain-tail stamps.less m (ms ++ rest) k)
      where
        chain-after :
            (m : S) (ns : List S)
            → Chain stamps.less (m ∷ ns)
            → StartsAfter stamps stamped (some m) ns
        chain-after m [] k = tt
        chain-after m (n ∷ ns) k = unfold is_before in k.0

    latest-before :
        (c : Option S) (s : S) (popped : List S)
        → is_before stamps c s ≡ true
        → All (λ m. stamps.less m s ≡ true) popped
        → is_before stamps (latest c popped) s ≡ true
    latest-before c s [] h all = h
    latest-before c s (m ∷ ms) h all = latest-before (some m) s ms (unfold is_before in all.0) all.1

    pub before_trans :
        (c : Option S) (a b : S)
        → is_before stamps c a ≡ true
        → stamps.less a b ≡ true
        → is_before stamps c b ≡ true
    unfolding is_before
    before_trans none a b h k = refl
    before_trans (some c) a b h k = o.transitive c a b h k

    latest-grows_from :
        (c : Option S) (a n : S) (ms rest : List S)
        → is_before stamps c a ≡ true
        → Chain stamps.less (a ∷ (ms ++ rest))
        → latest (some a) ms ≡ some n
        → is_before stamps c n ≡ true
    latest-grows_from c a n [] rest h k l =
        let here : a ≡ n = cc in subst (λ s. is_before stamps c s ≡ true) here h
    latest-grows_from c a n (m ∷ ms) rest h k l =
        latest-grows_from c m n ms rest (before_trans c a m h k.0) k.1 l

    -- Over at least one marker the point grows.
    pub latest-grows :
        (c : Option S) (n : S) (popped rest : List S)
        → StartsAfter stamps stamped c (popped ++ rest)
        → Chain stamps.less (popped ++ rest)
        → latest none popped ≡ some n
        → is_before stamps c n ≡ true
    latest-grows c n [] rest h k l = cc
    latest-grows c n (m ∷ ms) rest h k l = latest-grows_from c m n ms rest h k l

    pub latest-some :
        (c : Option S) (n : S) (popped : List S)
        → latest none popped ≡ some n
        → latest c popped ≡ some n
    latest-some c n [] l = cc
    latest-some c n (m ∷ ms) l = l

    pub latest-none : (c : Option S) (popped : List S) → latest none popped ≡ none → popped ≡ []
    latest-none c [] l = refl
    latest-none c (m ∷ ms) l = absurd (some-latest m ms l)
      where
        some-latest : (m : S) (ms : List S) → latest (some m) ms ≡ none → ⊥
        some-latest m [] l = cc
        some-latest m (n ∷ ms) l = some-latest n ms l

    set_consistent-ok :
        (q : Queue S V) (n : S)
        → is_before stamps q.consistent n ≡ true
        → IsOrdered stamps stamped (record q { consistent = some n })
        → set_consistent stamps stamped q n
          ≡ record { queue = record q { consistent = some n }; error = none }
    unfolding set_consistent
    set_consistent-ok q n up h =
        rw
          (
            compare-after stamps o n q.consistent,
            up,
            validate-none stamps stamped o (record q { consistent = some n }) h,
          )
          refl

    -- The queue after an advance keeps the invariants.
    advanced-IsOrdered :
        (q : Queue S V) (popped rest : List S)
        → IsOrdered stamps stamped q
        → q.markers ≡ popped ++ rest
        → Covers q.values popped rest
        → IsOrdered stamps stamped
            (record { consistent = latest q.consistent popped; markers = rest; values = q.values })
    advanced-IsOrdered q popped rest h split covers =
        let start =
          subst (λ ms. StartsAfter stamps stamped q.consistent ms) split h.before_markers in
        let chain = subst (λ ms. Chain stamps.less ms) split h.markers_monotonic in
        let (after, kept) = latest-StartsAfter q.consistent popped rest start chain in
        record {
          values_monotonic = h.values_monotonic;
          markers_monotonic = kept;
          before_values = values-after q.values h.before_values covers;
          before_markers = after;
        }
      where
        values-after :
            (vs : List V)
            → StampsAfter stamps stamped q.consistent vs
            → Covers vs popped rest
            → StampsAfter stamps stamped (latest q.consistent popped) vs
        values-after [] b c = tt
        values-after (v ∷ vs) b c = latest-before q.consistent (stamped.stamp v) popped b c.0

    advance-none :
        (q : Queue S V)
        → (next_consistent stamps stamped q).0 ≡ none
        → advance_consistent_point stamps stamped q ≡ record {
          queue = record q { markers = (next_consistent stamps stamped q).1 };
          error = none;
        }
    unfolding advance_consistent_point
    advance-none q h = rw (h, advance_consistent_point) refl

    advance-some :
        (q : Queue S V) (n : S)
        → (next_consistent stamps stamped q).0 ≡ some n
        → advance_consistent_point stamps stamped q
          ≡ set_consistent stamps stamped
              (record q { markers = (next_consistent stamps stamped q).1 })
              n
    unfolding advance_consistent_point
    advance-some q n h = rw (h, advance_consistent_point) refl

    -- Where the invariants hold, the advance reports no error, keeps them, and moves the point.
    pub advance_lem :
        (q : Queue S V)
        → IsOrdered stamps stamped q
        → (q' : Queue S V) × (advance_consistent_point stamps stamped q
            ≡ record { queue = q'; error = none })
          × IsOrdered stamps stamped q'
          × Advanced q q'
    advance_lem q h =
        let (popped, split, last, covers) = next_consistent-split q in
        let rest = (next_consistent stamps stamped q).1 in
        let ordered = advanced-IsOrdered q popped rest h split covers in
        let q' : Queue S V = record {
          consistent = latest q.consistent popped;
          markers = rest;
          values = q.values;
        } in
        let how : Advanced q q' = record {
          popped = popped;
          same_values = refl;
          split = split;
          moved = refl;
          covers = covers;
        } in
        let start =
          subst (λ ms. StartsAfter stamps stamped q.consistent ms) split h.before_markers in
        let chain = subst (λ ms. Chain stamps.less ms) split h.markers_monotonic in
        elim (Option-cases (next_consistent stamps stamped q).0) [
          | inl e ↦
              let same : latest q.consistent popped ≡ q.consistent =
                ap (latest q.consistent) (latest-none q.consistent popped (sym last ∙ e)) in
              (q', advance-none q e ∙ rw same refl, ordered, how)
          | inr (n, e) ↦
              let found = sym last ∙ e in
              let same : latest q.consistent popped ≡ some n =
                latest-some q.consistent n popped found in
              let up = latest-grows q.consistent n popped rest start chain found in
              let moved =
                subst
                  (λ c.
                    IsOrdered stamps stamped
                      (record { consistent = c; markers = rest; values = q.values }))
                  same ordered in
              (
                q',
                advance-some q n e
                    ∙ set_consistent-ok (record q { markers = rest }) n up moved
                    ∙ rw same refl,
                ordered,
                how,
              )
        ]
