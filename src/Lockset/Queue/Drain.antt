-- ===== src/Lockset/Queue/Drain.antt =====
-- internal/util/lockset/queue.go: no set of waiters blocks itself.
use cdc_sink.Base.{
  ℕ, zero, suc, ◌+◌, ◌≤◌, ◌<◌, ◌≡◌, ◌≢◌, sym, ap, ◌∙◌, inl, inr, true, false, none, some, List,
  ◌++◌, length, Comparable, ltb, arith, Bool-cases,
}
use cdc_sink.Lockset.Queue.{Queue, dequeue, is_empty}
use cdc_sink.Lockset.Queue.Admitted.{reach-IsGranted, some_apart}
use cdc_sink.Lockset.Queue.Dedup.{IsIn}
use cdc_sink.Lockset.Queue.Dequeue.{dequeue_releases}
use cdc_sink.Lockset.Queue.Grants.{dropped, Reach, dequeued}
use cdc_sink.Lockset.Queue.Invariant.{IsQueue}
use cdc_sink.Lockset.Queue.Line.{line-cases}
use cdc_sink.Lockset.Queue.Progress.{oldest-IsReady}
use cdc_sink.Lockset.Queue.Views.{live_at}

-- Calls of `Dequeue` only, each for a value that may run.
pub data Serving {K V : Type 0} ⦃c : Comparable K⦄ ⦃d : Comparable V⦄ (zero_value : V)
    : Queue K V → List V → Queue K V → List V → Type 0 where
  served : {q : Queue K V} {granted : List V} → Serving zero_value q granted q granted
  serve :
      {q next last : Queue K V} {granted after : List V} (v : V) (ret : List V)
      → IsIn v granted
      → dequeue zero_value q v ≡ some (ret, true, next)
      → Serving zero_value next (dropped v granted ++ ret) last after
      → Serving zero_value q granted last after

module _ {K V : Type 0} ⦃c : Comparable K⦄ ⦃d : Comparable V⦄ where
  -- When the oldest waiter leaves, the head moves on.
  head_later :
      (old new : Queue K V) (h : ℕ)
      → IsQueue new
      → ((i : ℕ) → i < h → live_at old.heap i ≡ none)
      → live_at new.heap h ≡ none
      → ((i : ℕ) → i ≢ h → live_at new.heap i ≡ live_at old.heap i)
      → (g : ℕ) → new.head ≡ some g
      → h < g
  head_later old new h inv older gone others g at_head =
      elim (line-cases new.heap new.head new.tail inv.line) [
        | inl (no_head, _, _) ↦ absurd (some_apart new.head g at_head no_head)
        | inr (g', t, v, at_head', _, _, alive) ↦
            let both : some g' ≡ some g = sym at_head' ∙ at_head in
            let same : g' ≡ g = cc in
            let there : live_at new.heap g ≡ some v = ap (live_at new.heap) (sym same) ∙ alive in
            let ne : g ≢ h =
              λ p. some_apart (live_at new.heap g) v there (ap (live_at new.heap) p ∙ gone) in
            elim (Bool-cases (ltb g h)) [
              | inl before ↦
                  let none_there = older g (ground (arith, before)) in
                  absurd (some_apart (live_at new.heap g) v there (others g ne ∙ none_there))
              | inr behind ↦ ground (arith, behind, ne)
            ]
      ]

  at_nobody : (q : Queue K V) → q.head ≡ none → is_empty q ≡ true
  at_nobody q no_head = ap (λ o. elim o [ none ↦ true | some h ↦ false ]) no_head

  drain_from :
      (n : ℕ) (zero_value : V) (q : Queue K V) (granted : List V)
      → Reach zero_value q granted
      → ((h : ℕ) → q.head ≡ some h → length q.heap ≤ n + h)
      → (last : Queue K V) × (after : List V) × Serving zero_value q granted last after
        × (is_empty last ≡ true)
  drain_from zero zero_value q granted reach bound =
      let (inv, grants) = reach-IsGranted zero_value q granted reach in
      elim (line-cases q.heap q.head q.tail inv.line) [
        | inl (no_head, _, _) ↦ (q, granted, served, at_nobody q no_head)
        | inr (h, t, v, at_head, at_tail, trail, alive) ↦
            let enough = bound h at_head in
            let within = trail.inside in
            let ends = trail.at_end in absurd (omega (arith, within, ends, enough))
      ]
  drain_from (suc n) zero_value q granted reach bound =
      let (inv, grants) = reach-IsGranted zero_value q granted reach in
      elim (line-cases q.heap q.head q.tail inv.line) [
        | inl (no_head, _, _) ↦ (q, granted, served, at_nobody q no_head)
        | inr (h, t, v, at_head, at_tail, trail, alive) ↦
            let may = (grants v).1 (h, alive, oldest-IsReady q h inv trail.older) in
            let (ret, next, run, inv', shorter, size, gone, others, released) =
              dequeue_releases zero_value q v h inv ((inv.refs v h).1 alive) in
            let (last, after, rest, empty) =
              drain_from n zero_value next (dropped v granted ++ ret) (dequeued v ret reach run)
                (λ g at_next.
                  let enough = bound h at_head in
                  let later =
                    head_later q next h inv' trail.older gone (λ i ne. (others i ne).0) g at_next in
                  omega (arith, enough, later, size)) in
            (last, after, serve v ret may run rest, empty)
      ]

  -- After any sequence of calls, dequeuing values that may run, one after the other, empties the
  -- queue: no waiters block each other, whatever their keys are.
  pub reach-drains :
      (zero_value : V) (q : Queue K V) (granted : List V)
      → Reach zero_value q granted
      → (last : Queue K V) × (after : List V) × Serving zero_value q granted last after
        × (is_empty last ≡ true)
  reach-drains zero_value q granted reach =
      drain_from (length q.heap) zero_value q granted reach (λ h at_head. omega arith)
