-- ===== src/Lockset/Queue/Tail.antt =====
-- internal/util/lockset/queue.go: the end of `Dequeue`, given the head that its loop finds.
use cdc_sink.Base.{
  ℕ, zero, suc, ◌≡◌, refl, Option, none, some, List, [], ◌∷◌, length, get_elem?, set, Comparable,
}
use cdc_sink.Lockset.Queue.{QueueEntry, Queue, invalidate, skip_invalid, clean_up, update}

pub get_elem?-set {ℓ} :
    {A : Type ℓ} (xs : List A) (i : ℕ) (x y : A)
    → get_elem? xs i ≡ some x
    → get_elem? (set xs i y) i ≡ some y
get_elem?-set [] i x y h = cc
get_elem?-set (a ∷ xs) zero x y h = refl
get_elem?-set (a ∷ xs) (suc i) x y h = get_elem?-set xs i x y h

module _ {K V : Type 0} ⦃c : Comparable K⦄ ⦃d : Comparable V⦄ (zero_value : V) where
  -- What `clean_up` makes of a queue, given the heap and the head that it found.
  abbrev pub swept : Queue K V → List (QueueEntry K V) → Option ℕ → Queue K V
  swept q heap found = record q {
    heap = heap;
    head = found;
    tail = elim found [ none ↦ none | some h ↦ q.tail ];
  }

  pub clean_up-run :
      (q : Queue K V) (w : ℕ) (e : QueueEntry K V) (found : Option ℕ)
      → get_elem? q.heap w ≡ some e
      → skip_invalid
          (length (set q.heap w (invalidate zero_value e)))
          (set q.heap w (invalidate zero_value e))
          q.head
        ≡ some found
      → clean_up zero_value w q ≡ some (swept q (set q.heap w (invalidate zero_value e)) found)
  unfolding clean_up
  clean_up-run q w e found at_w run = rw (at_w, update) (rw run refl)
