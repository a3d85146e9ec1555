-- ===== src/Lockset/Set/Heads.antt =====
-- internal/util/lockset/queue.go: the head of the list is the oldest waiter.
use cdc_sink.Base.{
  ℕ, ◌≡◌, ap, ◌∙◌, inl, inr, none, some, length, Comparable, arith, same_or_not, Bool-cases, ltb,
  get_elem?-lt, ◌<◌,
}
use cdc_sink.Lockset.Queue.{Queue, elt_of, peek_head}
use cdc_sink.Lockset.Queue.Admitted.{same_result, some_apart}
use cdc_sink.Lockset.Queue.Invariant.{IsQueue}
use cdc_sink.Lockset.Queue.Line.{line-cases}
use cdc_sink.Lockset.Queue.Progress.{peek_head-live}
use cdc_sink.Lockset.Queue.Views.{view-some, live, live_at}

module _ {K V : Type 0} ⦃c : Comparable K⦄ ⦃d : Comparable V⦄ where
  pub live-below : (q : Queue K V) (h : ℕ) (u : V) → live_at q.heap h ≡ some u → h < length q.heap
  live-below q h u at_h =
      let (e, got) = view-some none live q.heap h (λ p. some_apart (live_at q.heap h) u at_h p) in
      get_elem?-lt q.heap h e got

  -- The head is the oldest waiter.
  pub peek_head-oldest :
      (q : Queue K V) (u : V)
      → IsQueue q
      → peek_head q ≡ some u
      → (h : ℕ) × (live_at q.heap h ≡ some u) × ((i : ℕ) → i < h → live_at q.heap i ≡ none)
  unfolding elt_of
  peek_head-oldest q u inv at_head = elim (line-cases q.heap q.head q.tail inv.line) [
    | inl (nil, _, _) ↦ absurd (some_apart (peek_head q) u at_head (ap (elt_of q) nil))
    | inr (h, t, v, head, _, trail, alive) ↦
        let same = same_result (peek_head q) v u (peek_head-live q h v head alive) at_head in
        (h, alive ∙ ap some same, trail.older)
  ]

  pub oldest-peek_head :
      (q : Queue K V) (h : ℕ) (u : V)
      → IsQueue q
      → live_at q.heap h ≡ some u
      → ((i : ℕ) → i < h → live_at q.heap i ≡ none)
      → peek_head q ≡ some u
  oldest-peek_head q h u inv at_h older = elim (line-cases q.heap q.head q.tail inv.line) [
    | inl (_, _, nobody) ↦ absurd (some_apart (live_at q.heap h) u at_h (nobody h))
    | inr (g, t, v, head, _, trail, alive) ↦
        let not_before : (g < h) → ⊥ = λ p. some_apart (live_at q.heap g) v alive (older g p) in
        let not_after : (h < g) → ⊥ = λ p. some_apart (live_at q.heap h) u at_h (trail.older h p) in
        let same : g ≡ h = elim (same_or_not g h) [
          | inl p ↦ p
          | inr ne ↦ elim (Bool-cases (ltb g h)) [
            | inl before ↦ absurd (not_before (ground (arith, before)))
            | inr behind ↦ absurd (not_after (ground (arith, behind, ne)))
          ]
        ] in
        peek_head-live q g u head (ap (live_at q.heap) same ∙ at_h)
  ]
