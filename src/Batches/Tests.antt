-- ===== src/Batches/Tests.antt =====
-- internal/util/batches/batches.go: windows of two over five values.
use cdc_sink.Base.{ℕ, ◌+◌, ◌≡◌, refl, Option, none, some, List, [], ◌∷◌, ◌++◌, arith}
use cdc_sink.Batches.{window}
use cdc_sink.Batches.Cover.{visit, each_index, window-visit}

abbrev ranges : ℕ → ℕ → List (ℕ × ℕ) → List (ℕ × ℕ) × Option ℕ
ranges begin end s = (s ++ (begin, end) ∷ [], none)

five_by_two : window ranges 6 2 5 [] ≡ some ((0, 2) ∷ (2, 4) ∷ (4, 5) ∷ [], none)
unfolding window
five_by_two = refl

-- Nothing to do is one empty window.
no_values : window ranges 1 2 0 [] ≡ some ((0, 0) ∷ [], none)
unfolding window
no_values = refl

abbrev indices : ℕ → List ℕ → List ℕ × Option ℕ
indices i s = (s ++ i ∷ [], none)

window-visit_example : window (each_index indices) (5 + 1) 2 5 [] ≡ some (visit indices 5 0 [])
window-visit_example = window-visit indices 2 5 [] (omega arith)

-- Windows of no size do not get on: a hundred of them are not enough.
no_size : window ranges 100 0 5 [] ≡ none
unfolding window
no_size = refl
