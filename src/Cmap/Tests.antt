-- ===== src/Cmap/Tests.antt =====
-- internal/util/cmap on a small map of which the keys are the same when they are off by an even number.
use cdc_sink.Base.{ℕ, ◌%◌, ◌≡◌, refl, true, false, none, some, [], ◌∷◌, nat_eq, eqb}
use cdc_sink.Cmap.{Cmap, get, put, delete, copy_into, equal}

abbrev parity : ℕ → ℕ
parity k = k % 2

abbrev first_map : Cmap ℕ ℕ ℕ
first_map = (1, record { key = 3; value = 30 }) ∷ (0, record { key = 4; value = 40 }) ∷ []

abbrev second_map : Cmap ℕ ℕ ℕ
second_map = (0, record { key = 2; value = 40 }) ∷ (1, record { key = 7; value = 30 }) ∷ []

same_maps : equal parity (some (0, first_map)) (some (1, second_map)) eqb ≡ true
unfolding equal
same_maps = refl

-- A map equals itself whatever the comparator, and nil equals nil only.
equal_refs :
    (equal parity (some (0, first_map)) (some (0, first_map)) (λ v w. false) ≡ true)
    × (equal parity none (some (0, first_map)) eqb ≡ false)
unfolding equal
equal_refs = (refl, refl)

-- A key is replaced along with the value.
replaced :
    put parity 5 50 first_map
    ≡ (1, record { key = 5; value = 50 }) ∷ (0, record { key = 4; value = 40 }) ∷ []
unfolding put
replaced = refl

deleted : get parity 9 (delete parity 7 first_map) ≡ none
unfolding get delete
deleted = refl

copied : get parity 8 (copy_into parity first_map []) ≡ some 40
unfolding copy_into get
copied = refl
