-- ===== src/Lockset/Queue/Views.antt =====
-- internal/util/lockset/queue.go: what stands at an address of the heap.
use cdc_sink.Base.{
  ℕ, zero, suc, ◌≡◌, ◌≢◌, refl, sym, ap, ◌∙◌, Option, none, some, List, [], ◌∷◌, ◌++◌, length,
  get_elem?, set, if◌then◌else◌,
}
use cdc_sink.Lockset.Queue.{QueueEntry}

module _ {A X : Type 0} (missing : X) (f : A → X) where
  -- What `f` gives of the element at an index, and `missing` out of range.
  abbrev pub view : List A → ℕ → X
  view [] i = missing
  view (a ∷ rest) zero = f a
  view (a ∷ rest) (suc i) = view rest i

  pub view-get : (xs : List A) (i : ℕ) (a : A) → get_elem? xs i ≡ some a → view xs i ≡ f a
  view-get [] i a at_i = cc
  view-get (x ∷ xs) zero a at_i = let here : x ≡ a = cc in ap f here
  view-get (x ∷ xs) (suc i) a at_i = view-get xs i a at_i

  pub view-some : (xs : List A) (i : ℕ) → view xs i ≢ missing → (a : A) × (get_elem? xs i ≡ some a)
  view-some [] i found = absurd (found refl)
  view-some (x ∷ xs) zero found = (x, refl)
  view-some (x ∷ xs) (suc i) found = view-some xs i found

  pub view-set_same :
      (xs : List A) (i : ℕ) (a b : A) → get_elem? xs i ≡ some a → view (set xs i b) i ≡ f b
  view-set_same [] i a b at_i = cc
  view-set_same (x ∷ xs) zero a b at_i = refl
  view-set_same (x ∷ xs) (suc i) a b at_i = view-set_same xs i a b at_i

  pub view-set_other : (xs : List A) (i j : ℕ) (b : A) → i ≢ j → view (set xs i b) j ≡ view xs j
  view-set_other [] i j b ne = refl
  view-set_other (x ∷ xs) zero zero b ne = absurd (ne refl)
  view-set_other (x ∷ xs) zero (suc j) b ne = refl
  view-set_other (x ∷ xs) (suc i) zero b ne = refl
  view-set_other (x ∷ xs) (suc i) (suc j) b ne = view-set_other xs i j b (λ p. ne (ap suc p))

  -- A write that leaves what `f` reads.
  pub view-set_keeps :
      (xs : List A) (i j : ℕ) (a b : A)
      → get_elem? xs i ≡ some a
      → f b ≡ f a
      → view (set xs i b) j ≡ view xs j
  view-set_keeps [] i j a b at_i same = refl
  view-set_keeps (x ∷ xs) zero zero a b at_i same = let here : x ≡ a = cc in same ∙ ap f (sym here)
  view-set_keeps (x ∷ xs) zero (suc j) a b at_i same = refl
  view-set_keeps (x ∷ xs) (suc i) zero a b at_i same = refl
  view-set_keeps (x ∷ xs) (suc i) (suc j) a b at_i same = view-set_keeps xs i j a b at_i same

  pub view-append_last : (xs : List A) (a : A) → view (xs ++ a ∷ []) (length xs) ≡ f a
  view-append_last [] a = refl
  view-append_last (x ∷ xs) a = view-append_last xs a

  pub view-append_other :
      (xs : List A) (a : A) (i : ℕ) → i ≢ length xs → view (xs ++ a ∷ []) i ≡ view xs i
  view-append_other [] a zero ne = absurd (ne refl)
  view-append_other [] a (suc i) ne = refl
  view-append_other (x ∷ xs) a zero ne = refl
  view-append_other (x ∷ xs) a (suc i) ne = view-append_other xs a i (λ p. ne (ap suc p))

module _ {K V : Type 0} where
  abbrev pub keys_at : List (QueueEntry K V) → ℕ → List K
  keys_at = view [] (λ (e : QueueEntry K V). e.keys)

  abbrev pub count_at : List (QueueEntry K V) → ℕ → ℕ
  count_at = view 0 (λ (e : QueueEntry K V). e.head_count)

  -- The element of a waiter that is valid.
  abbrev pub live : QueueEntry K V → Option V
  live e = if e.valid then some e.elt else none

  abbrev pub live_at : List (QueueEntry K V) → ℕ → Option V
  live_at = view none live

  abbrev pub next_at : List (QueueEntry K V) → ℕ → Option ℕ
  next_at = view none (λ (e : QueueEntry K V). e.next)
