-- ===== src/Stamp/Queue/History/Tests.antt =====
-- A queue of counts stamped by numbers, where a count is added to a tail of its own stamp.
use cdc_sink.Base.{
  ℕ, ◌≡◌, ◌+◌, ◌↔◌, refl, true, false, Option, none, some, [], ◌∷◌, ◌++◌, nat_eq, arith, ltb, eqb,
  if◌then◌else◌, subst,
}
use cdc_sink.Stamp.{Stamps, compare}
use cdc_sink.Stamp.Order.{IsOrder, is_before}
use cdc_sink.Stamp.Queue.Lists.{back}
use cdc_sink.Stamp.Queue.{Stamped, Queue, Error, empty, enqueue, mark, dequeue}
use cdc_sink.Stamp.Queue.Invariant.{IsOrdered}
use cdc_sink.Stamp.Queue.Advance.{Advanced}
use cdc_sink.Stamp.Queue.Laws.{dequeue_advances, enqueue_outcome, accepts_value}
use cdc_sink.Stamp.Queue.Mark.{KeepsStamps, mark_accepted, mark_rejected}
use cdc_sink.Stamp.Queue.History.{here, next, enqueued, marked, NotLower, history}

abbrev numbers : Stamps ℕ
numbers = record { less = ltb }

numbers-IsOrder : IsOrder numbers
numbers-IsOrder = record {
  irreflexive = λ a. ground arith;
  transitive = λ a b c p r. ground arith;
  before_later = λ a b c p r. ground arith;
}

abbrev Count : Type 0
Count = ℕ × ℕ

abbrev add : Count → Count → Count × Option Count
add (s, n) (t, m) = if eqb s t then ((s, n + m), none) else ((s, n), some (t, m))

abbrev counts : Stamped ℕ Count
counts = record { stamp = λ c. c.0; coalescing = λ c. some (add c) }

abbrev plain : Stamped ℕ Count
plain = record { stamp = λ c. c.0; coalescing = λ c. none }

add-stamp : (t n : Count) → ltb (add t n).0.0 t.0 ≡ false
add-stamp (s, n) (t, m) = ground arith

counts-KeepsStamps : KeepsStamps numbers counts numbers-IsOrder
counts-KeepsStamps = record {
  not_lower = λ t next f e.
      let same : add t ≡ f = cc in
      subst (λ (g : Count → Count × Option Count). ltb (g next).0.0 t.0 ≡ false) same
        (add-stamp t next);
}

abbrev Counts : Type 0
Counts = Queue ℕ Count

abbrev sample : Counts
sample = record { consistent = some 1; markers = 4 ∷ 6 ∷ []; values = (3, 1) ∷ (5, 1) ∷ [] }

enqueue_runs :
    ((enqueue numbers counts sample (5, 2)).queue.values ≡ (3, 1) ∷ (5, 3) ∷ [])
    × ((enqueue numbers counts sample (7, 2)).queue.values ≡ (3, 1) ∷ (5, 1) ∷ (7, 2) ∷ [])
    × ((enqueue numbers counts sample (4, 2)).queue ≡ sample)
unfolding enqueue compare
enqueue_runs = (refl, refl, refl)

dequeue_run :
    dequeue numbers plain sample
    ≡ some (some (3, 1), record { consistent = some 4; markers = 6 ∷ []; values = (5, 1) ∷ [] })
unfolding dequeue compare
dequeue_run = refl

sample-IsOrdered : IsOrdered numbers plain sample
unfolding is_before
sample-IsOrdered = record {
  values_monotonic = (refl, tt);
  markers_monotonic = (refl, tt);
  before_values = refl;
  before_markers = refl;
}

dequeue_advances_example :
    (q' : Counts) × (dequeue numbers plain sample ≡ some (some (3, 1), q'))
    × IsOrdered numbers plain q'
    × Advanced numbers plain (record sample { values = (5, 1) ∷ [] }) q'
dequeue_advances_example =
    dequeue_advances numbers plain numbers-IsOrder sample (3, 1) ((5, 1) ∷ []) sample-IsOrdered refl

enqueue_outcome_example :
    IsOrdered numbers plain (enqueue numbers plain sample (4, 2)).queue
    × ((enqueue numbers plain sample (4, 2)).queue ≡ (
        if accepts_value numbers plain sample (4, 2)
        then record sample { values = sample.values ++ (4, 2) ∷ [] }
        else sample))
    × (((enqueue numbers plain sample (4, 2)).error ≡ none)
        ↔ (accepts_value numbers plain sample (4, 2) ≡ true))
unfolding back
enqueue_outcome_example =
    enqueue_outcome numbers plain numbers-IsOrder sample (4, 2) sample-IsOrdered refl

mark_accepted_example :
    (q' : Counts) × (mark numbers plain sample 8 ≡ record { queue = q'; error = none })
    × IsOrdered numbers plain q'
    × Advanced numbers plain (record sample { markers = sample.markers ++ 8 ∷ [] }) q'
unfolding back
mark_accepted_example = mark_accepted numbers plain numbers-IsOrder sample 8 sample-IsOrdered refl

mark_rejected_example :
    (error : Error) × (mark numbers plain sample 6 ≡ record { queue = sample; error = some error })
unfolding back
mark_rejected_example = mark_rejected numbers plain numbers-IsOrder sample 6 sample-IsOrdered refl

-- The run of `enqueue (3, 1)`, `mark 4`, and then `enqueue (3, 2)`.
abbrev first : Counts
first = (enqueue numbers counts empty (3, 1)).queue

abbrev second : Counts
second = (mark numbers counts first 4).queue

abbrev third : Counts
third = (enqueue numbers counts second (3, 2)).queue

history_example :
    IsOrdered numbers counts second
    × ((r : Option Count) × (p : Counts) × (dequeue numbers counts second ≡ some (r, p)))
    × NotLower numbers counts second.consistent third.consistent
history_example =
    history numbers counts numbers-IsOrder counts-KeepsStamps
      (next (next here (enqueued empty (3, 1))) (marked first 4))
      (next here (enqueued second (3, 2)))
