-- ===== src/Batches/Cover.antt =====
-- internal/util/batches/batches.go: the windows cover each index once, in order.
use cdc_sink.Base.{
  ℕ, zero, suc, ◌+◌, ◌-◌, ◌<◌, ◌≡◌, refl, sym, ap, ◌∙◌, inl, inr, false, Option, none, some, ltb,
  eqb, arith, Bool-cases, if◌then◌else◌,
}
use cdc_sink.Batches.{Callback, window_loop, window}

module _ {S F : Type 0} (step : ℕ → S → S × Option F) where
  -- A step for each of the next indices, up to the first error.
  unfoldable pub visit : ℕ → ℕ → S → S × Option F
  visit zero idx s = (s, none)
  visit (suc n) idx s =
      let (s', error) = step idx s in
      let further = visit n (idx + 1) s' in
      elim error [ some failure ↦ (s', some failure) | none ↦ further ]

  -- A callback that takes the step at each index of its range.
  abbrev pub each_index : Callback S F
  each_index begin end s = visit (end - begin) begin s

  -- The rest of a run that has not failed.
  abbrev and_then : S × Option F → (S → S × Option F) → S × Option F
  and_then r rest = elim r.1 [ some failure ↦ r | none ↦ rest r.0 ]

  visit-suc :
      (m n idx : ℕ) (s : S)
      → visit (m + n) (idx + 1) (step idx s).0
        ≡ and_then (visit m (idx + 1) (step idx s).0) (λ s'. visit n (idx + suc m) s')
      → visit (suc (m + n)) idx s ≡ and_then (visit (suc m) idx s) (λ s'. visit n (idx + suc m) s')
  unfolding visit
  visit-suc m n idx s rest = ground (arith, rest)

  visit-add :
      (m n idx : ℕ) (s : S)
      → visit (m + n) idx s ≡ and_then (visit m idx s) (λ s'. visit n (idx + m) s')
  unfolding visit
  visit-add zero n idx s =
      ap (λ k. visit k idx s) (omega arith) ∙ ap (λ i. visit n i s) (omega arith)
  visit-add (suc m) n idx s =
      let s' = (step idx s).0 in
      let same : idx + 1 + m ≡ idx + suc m = omega arith in
      let rest =
        visit-add m n (idx + 1) s'
        ∙ ap (λ i. and_then (visit m (idx + 1) s') (λ u. visit n i u)) same in
      let size : suc m + n ≡ suc (m + n) = omega arith in
      ap (λ k. visit k idx s) size ∙ visit-suc m n idx s rest

  -- The outcome of the loop after a window.
  abbrev after_window : ℕ → ℕ → ℕ → ℕ → S × Option F → Option (S × Option F)
  after_window fuel idx size count r = elim r.1 [
    | some failure ↦ some (r.0, some failure)
    | none ↦
        (if eqb size count
          then some (r.0, none)
          else window_loop each_index fuel (idx + size) size (count - size) r.0)
  ]

  all_done :
      (count : ℕ) (r : S × Option F) (fuel idx : ℕ) → after_window fuel idx count count r ≡ some r
  all_done count r fuel idx = ground arith

  after_more :
      (fuel idx size count : ℕ) (r : S × Option F)
      → eqb size count ≡ false
      → window_loop each_index fuel (idx + size) size (count - size) r.0
        ≡ some (visit (count - size) (idx + size) r.0)
      → after_window fuel idx size count r
        ≡ some (and_then r (λ s'. visit (count - size) (idx + size) s'))
  after_more fuel idx size count r other rest = ground (arith, other, rest)

  window_loop-step :
      (fuel idx batch_size count size : ℕ) (s : S)
      → (if ltb count batch_size then count else batch_size) ≡ size
      → window_loop each_index (suc fuel) idx batch_size count s
        ≡ after_window fuel idx size count (visit size idx s)
  unfolding window_loop
  window_loop-step fuel idx batch_size count size s is_size =
      ap (λ k. after_window fuel idx k count (visit (idx + k - idx) idx s)) is_size
      ∙ ap (λ k. after_window fuel idx size count (visit k idx s)) (omega arith)

  window_loop-visit :
      (fuel idx batch_size count : ℕ) (s : S)
      → count < fuel
      → 0 < batch_size
      → window_loop each_index fuel idx batch_size count s ≡ some (visit count idx s)
  window_loop-visit zero idx batch_size count s enough positive = absurd (omega (arith, enough))
  window_loop-visit (suc fuel) idx batch_size count s enough positive =
      elim (Bool-cases (ltb count batch_size)) [
        | inl short ↦
            window_loop-step fuel idx batch_size count count s (rw short refl)
            ∙ all_done count (visit count idx s) fuel idx
        | inr long ↦ elim (Bool-cases (eqb batch_size count)) [
          | inl exact ↦
              let same : batch_size ≡ count = ground (arith, exact) in
              window_loop-step fuel idx batch_size count count s (rw long same)
              ∙ all_done count (visit count idx s) fuel idx
          | inr more ↦
              let whole : batch_size + (count - batch_size) ≡ count = ground (arith, long) in
              let fits : count - batch_size < fuel = omega (arith, enough, positive, whole) in
              window_loop-step fuel idx batch_size count batch_size s (rw long refl)
              ∙ after_more fuel idx batch_size count (visit batch_size idx s) more (
                  window_loop-visit fuel (idx + batch_size) batch_size (count - batch_size)
                    (visit batch_size idx s).0 fits positive)
              ∙ ap some (
                  sym (visit-add batch_size (count - batch_size) idx s)
                  ∙ ap (λ k. visit k idx s) whole)
        ]
      ]

  -- A callback that takes a step at each index of its range has, over all the windows, the same outcome
  -- as the steps at the indices below the count in order, up to the first error, whatever the size of
  -- the windows is, if it is positive. The loop ends: as much fuel as the count and one is enough.
  pub window-visit :
      (batch_size count : ℕ) (s : S)
      → 0 < batch_size
      → window each_index (count + 1) batch_size count s ≡ some (visit count 0 s)
  unfolding window
  window-visit batch_size count s positive =
      window_loop-visit (count + 1) 0 batch_size count s (omega arith) positive
