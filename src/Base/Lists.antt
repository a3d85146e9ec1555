-- ===== src/Base/Lists.antt =====
-- Lists measured and indexed by native numbers, and predicates on all their elements.
use Prim.Native.Nat.{ℕ, zero, suc, ◌+◌, ◌<◌}
use mathlib.Core.Path.{◌≡◌, refl, ap, subst}
use mathlib.Core.List.{List, [], ◌∷◌, ◌++◌}
use mathlib.Core.Option.{Option, none, some}
use native.Mathlib.Omega.{arith}
use Prim.Native.Nat.add

module _ {ℓ} {A : Type ℓ} where
  abbrev pub length : List A → ℕ
  length [] = 0
  length (x ∷ xs) = suc (length xs)

  abbrev pub get_elem? : List A → ℕ → Option A
  get_elem? [] i = none
  get_elem? (x ∷ xs) zero = some x
  get_elem? (x ∷ xs) (suc i) = get_elem? xs i

  -- A write out of bounds changes nothing.
  abbrev pub set : List A → ℕ → A → List A
  set [] i v = []
  set (x ∷ xs) zero v = v ∷ xs
  set (x ∷ xs) (suc i) v = x ∷ set xs i v

  abbrev pub drop : ℕ → List A → List A
  drop zero xs = xs
  drop (suc n) [] = []
  drop (suc n) (x ∷ xs) = drop n xs

  abbrev pub take : ℕ → List A → List A
  take zero xs = []
  take (suc n) [] = []
  take (suc n) (x ∷ xs) = x ∷ take n xs

  pub take-length : (xs ys : List A) (n : ℕ) → n ≡ length xs → take n (xs ++ ys) ≡ xs
  take-length [] ys n at_end = rw at_end refl
  take-length (x ∷ xs) ys zero at_end = absurd (omega (arith, at_end))
  take-length (x ∷ xs) ys (suc n) at_end = ap (◌∷◌ x) (take-length xs ys n (omega (arith, at_end)))

  pub drop-append : (xs ys : List A) (n : ℕ) → n ≡ length xs → drop n (xs ++ ys) ≡ ys
  drop-append [] ys n at_end = rw at_end refl
  drop-append (x ∷ xs) ys zero at_end = absurd (omega (arith, at_end))
  drop-append (x ∷ xs) ys (suc n) at_end = drop-append xs ys n (omega (arith, at_end))

  pub length-append : (xs ys : List A) → length (xs ++ ys) ≡ length xs + length ys
  length-append [] ys = omega arith
  length-append (x ∷ xs) ys = omega (arith, length-append xs ys)

  pub length-set : (xs : List A) (i : ℕ) (v : A) → length (set xs i v) ≡ length xs
  length-set [] i v = refl
  length-set (x ∷ xs) zero v = refl
  length-set (x ∷ xs) (suc i) v = ap suc (length-set xs i v)

  pub get_elem?-append_last :
      (xs : List A) (i : ℕ) (x : A) → i ≡ length xs → get_elem? (xs ++ x ∷ []) i ≡ some x
  get_elem?-append_last [] i x at_end = rw at_end refl
  get_elem?-append_last (y ∷ ys) zero x at_end = absurd (omega (arith, at_end))
  get_elem?-append_last (y ∷ ys) (suc i) x at_end =
      get_elem?-append_last ys i x (omega (arith, at_end))

  pub append_assoc : (front mid rest : List A) → (front ++ mid) ++ rest ≡ front ++ (mid ++ rest)
  append_assoc [] mid rest = refl
  append_assoc (x ∷ front) mid rest = ap (◌∷◌ x) (append_assoc front mid rest)

  pub append_nil : (xs : List A) → xs ++ [] ≡ xs
  append_nil [] = refl
  append_nil (x ∷ xs) = ap (◌∷◌ x) (append_nil xs)

module _ {ℓ κ} {A : Type ℓ} where
  -- Every element satisfies the predicate.
  abbrev pub All : (A → Type κ) → List A → Type κ
  All P [] = Unit
  All P (x ∷ xs) = P x × All P xs

  pub All-append :
      (P : A → Type κ) (front rest : List A) → All P front → All P rest → All P (front ++ rest)
  All-append P [] rest all_front all_rest = all_rest
  All-append P (a ∷ front) rest (here, later) all_rest =
      (here, All-append P front rest later all_rest)

module _ {ℓ κ} {A : Type ℓ} (P : A → Type κ) where
  pub All-get : (xs : List A) (i : ℕ) (x : A) → All P xs → get_elem? xs i ≡ some x → P x
  All-get [] i x h e = cc
  All-get (y ∷ ys) zero x h e = let here : y ≡ x = cc in subst P here h.0
  All-get (y ∷ ys) (suc i) x h e = All-get ys i x h.1 e

module _ {ℓ} {A : Type ℓ} where
  pub get_elem?-some : (xs : List A) (i : ℕ) → i < length xs → (x : A) × (get_elem? xs i ≡ some x)
  get_elem?-some [] i h = absurd (omega arith)
  get_elem?-some (x ∷ xs) zero h = (x, refl)
  get_elem?-some (x ∷ xs) (suc i) h = get_elem?-some xs i (omega arith)

  pub get_elem?-set_lt :
      (xs : List A) (i j : ℕ) (v : A) → j < i → get_elem? (set xs i v) j ≡ get_elem? xs j
  get_elem?-set_lt [] i j v h = refl
  get_elem?-set_lt (x ∷ xs) zero j v h = absurd (omega arith)
  get_elem?-set_lt (x ∷ xs) (suc i) zero v h = refl
  get_elem?-set_lt (x ∷ xs) (suc i) (suc j) v h = get_elem?-set_lt xs i j v (omega arith)

  pub get_elem?-drop : (xs : List A) (d j : ℕ) → get_elem? (drop d xs) j ≡ get_elem? xs (d + j)
  get_elem?-drop xs zero j = rw add.zero
  get_elem?-drop [] (suc d) j = refl
  get_elem?-drop (x ∷ xs) (suc d) j = rw add.suc (get_elem?-drop xs d j)

  pub drop-set : (xs : List A) (d j : ℕ) (v : A) → drop d (set xs (d + j) v) ≡ set (drop d xs) j v
  drop-set xs zero j v = rw add.zero
  drop-set [] (suc d) j v = refl
  drop-set (x ∷ xs) (suc d) j v = rw add.suc (drop-set xs d j v)

  pub drop-set_self :
      (xs : List A) (d : ℕ) (v : A) → d < length xs → drop d (set xs d v) ≡ v ∷ drop (suc d) xs
  drop-set_self [] d v h = absurd (omega arith)
  drop-set_self (x ∷ xs) zero v h = refl
  drop-set_self (x ∷ xs) (suc d) v h = drop-set_self xs d v (omega arith)

  pub drop-cons :
      (xs : List A) (d : ℕ) (v : A) → get_elem? xs d ≡ some v → drop d xs ≡ v ∷ drop (suc d) xs
  drop-cons [] d v h = cc
  drop-cons (x ∷ xs) zero v h = cc
  drop-cons (x ∷ xs) (suc d) v h = drop-cons xs d v h

  pub drop-length : (xs : List A) → drop (length xs) xs ≡ []
  drop-length [] = refl
  drop-length (x ∷ xs) = drop-length xs

  pub length-zero : (xs : List A) → length xs ≡ 0 → xs ≡ []
  length-zero [] h = refl
  length-zero (x ∷ xs) h = absurd (omega arith)

  pub get_elem?-lt : (xs : List A) (i : ℕ) (x : A) → get_elem? xs i ≡ some x → i < length xs
  get_elem?-lt [] i x h = cc
  get_elem?-lt (y ∷ ys) zero x h = omega arith
  get_elem?-lt (y ∷ ys) (suc i) x h = omega (arith, get_elem?-lt ys i x h)

module _ {ℓ κ} {A : Type ℓ} (P Q : A → Type κ) where
  pub All-map : (xs : List A) → ((x : A) → P x → Q x) → All P xs → All Q xs
  All-map [] each all = tt
  All-map (x ∷ xs) each all = (each x all.0, All-map xs each all.1)
