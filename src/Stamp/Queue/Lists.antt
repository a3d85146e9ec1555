-- ===== src/Stamp/Queue/Lists.antt =====
-- The ends of a doubly linked list.
use mathlib.Core.Option.{get_or}
use cdc_sink.Base.{◌≡◌, refl, ap, Bool, true, Option, none, some, List, [], ◌∷◌, ◌++◌}

module _ {ℓ} {A : Type ℓ} where
  unfoldable pub back : List A → Option A
  back [] = none
  back (x ∷ []) = some x
  back (x ∷ y ∷ xs) = back (y ∷ xs)

  -- The last element with the one before it.
  unfoldable pub last_pair : List A → Option (A × A)
  last_pair [] = none
  last_pair (x ∷ []) = none
  last_pair (x ∷ y ∷ []) = some (x, y)
  last_pair (x ∷ y ∷ z ∷ xs) = last_pair (y ∷ z ∷ xs)

  -- The last element in a new state.
  unfoldable pub set_back : List A → A → List A
  set_back [] v = []
  set_back (x ∷ []) v = v ∷ []
  set_back (x ∷ y ∷ xs) v = x ∷ set_back (y ∷ xs) v

  -- Every two neighbours are in the relation.
  abbrev pub Chain : (A → A → Bool) → List A → Type 0
  Chain r [] = Unit
  Chain r (x ∷ []) = Unit
  Chain r (x ∷ y ∷ xs) = (r x y ≡ true) × Chain r (y ∷ xs)

  -- The relation holds between the last element, if there is one, and `v`.
  abbrev pub fits_back : (A → A → Bool) → List A → A → Bool
  fits_back r xs v = elim (back xs) [ none ↦ true | some t ↦ r t v ]

  pub Chain-tail : (r : A → A → Bool) (x : A) (xs : List A) → Chain r (x ∷ xs) → Chain r xs
  Chain-tail r x [] h = tt
  Chain-tail r x (y ∷ xs) h = h.1

  pub Chain-append :
      (r : A → A → Bool) (xs : List A) (v : A)
      → Chain r xs
      → fits_back r xs v ≡ true
      → Chain r (xs ++ v ∷ [])
  unfolding back
  Chain-append r [] v h fits = tt
  Chain-append r (x ∷ []) v h fits = (fits, tt)
  Chain-append r (x ∷ y ∷ xs) v h fits = (h.0, Chain-append r (y ∷ xs) v h.1 fits)

  pub Chain-last_pair :
      (r : A → A → Bool) (xs : List A) (a b : A)
      → Chain r xs
      → last_pair xs ≡ some (a, b)
      → r a b ≡ true
  unfolding last_pair
  Chain-last_pair r [] a b h e = cc
  Chain-last_pair r (x ∷ []) a b h e = cc
  Chain-last_pair r (x ∷ y ∷ []) a b h e =
      let ex : x ≡ a = ap (λ (o : Option (A × A)). (get_or o (x, y)).0) e in
      let ey : y ≡ b = ap (λ (o : Option (A × A)). (get_or o (x, y)).1) e in rw (← ex, ← ey) h.0
  Chain-last_pair r (x ∷ y ∷ z ∷ xs) a b h e = Chain-last_pair r (y ∷ z ∷ xs) a b h.1 e

  pub last_pair-append :
      (xs : List A) (t v : A) → back xs ≡ some t → last_pair (xs ++ v ∷ []) ≡ some (t, v)
  unfolding back last_pair
  last_pair-append [] t v h = cc
  last_pair-append (x ∷ []) t v h = ap (λ o. some (get_or o x, v)) h
  last_pair-append (x ∷ y ∷ []) t v h = ap (λ o. some (get_or o y, v)) h
  last_pair-append (x ∷ y ∷ z ∷ xs) t v h = last_pair-append (y ∷ z ∷ xs) t v h

  pub back-none : (xs : List A) → back xs ≡ none → xs ≡ []
  unfolding back
  back-none [] h = refl
  back-none (x ∷ []) h = cc
  back-none (x ∷ y ∷ xs) h = let e = back-none (y ∷ xs) h in cc

  -- A new last element that is no lower keeps the chain.
  pub Chain-set_back :
      (r : A → A → Bool) (xs : List A) (t v : A)
      → back xs ≡ some t
      → Chain r xs
      → ((a : A) → r a t ≡ true → r a v ≡ true)
      → Chain r (set_back xs v)
  unfolding back set_back
  Chain-set_back r [] t v e h up = tt
  Chain-set_back r (x ∷ []) t v e h up = tt
  Chain-set_back r (x ∷ y ∷ []) t v e h up =
      let here : y ≡ t = ap (λ o. get_or o y) e in (up x (rw (← here) h.0), tt)
  Chain-set_back r (x ∷ y ∷ z ∷ xs) t v e h up = (h.0, Chain-set_back r (y ∷ z ∷ xs) t v e h.1 up)
