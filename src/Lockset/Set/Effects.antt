-- ===== src/Lockset/Set/Effects.antt =====
-- internal/util/lockset/queue.go: what a caller of `Enqueue`, `Dequeue` and `PeekHead` has to know.
use cdc_sink.Base.{
  ℕ, ◌≡◌, ◌≢◌, refl, sym, ap, ◌∙◌, subst, ◌⊎◌, inl, inr, ◌↔◌, Bool, true, false, none, some, List,
  [], ◌∷◌, ◌++◌, length, Comparable, arith, Option-cases, same_or_not, map_get, if◌then◌else◌,
}
use cdc_sink.Lockset.Queue.{Queue, enqueue, dequeue, elt_of, peek_head, is_empty, is_queued_value}
use cdc_sink.Lockset.Queue.Admitted.{
  reach-IsGranted, same_result, some_apart, enqueue-dup, dequeue-absent, IsIn-if,
}
use cdc_sink.Lockset.Queue.Arrival.{enqueue-IsQueue}
use cdc_sink.Lockset.Queue.Dedup.{IsIn}
use cdc_sink.Lockset.Queue.Dequeue.{dequeue_releases}
use cdc_sink.Lockset.Queue.Grants.{
  Reach, enqueued, dequeued, dropped, IsIn-append, IsIn-dropped, live_unique,
}
use cdc_sink.Lockset.Queue.Invariant.{IsQueue}
use cdc_sink.Lockset.Queue.Line.{view-beyond}
use cdc_sink.Lockset.Queue.Progress.{head_granted}
use cdc_sink.Lockset.Queue.Views.{live, live_at}
use cdc_sink.Lockset.Set.Heads.{live-below, peek_head-oldest, oldest-peek_head}

module _ {K V : Type 0} ⦃c : Comparable K⦄ ⦃d : Comparable V⦄ where
  abbrev pub IsQueued : Queue K V → V → Type 0
  IsQueued q v = is_queued_value q v ≡ true

  -- A value is in the queue where a waiter has it.
  pub IsQueued-live :
      (q : Queue K V) (v : V) → IsQueue q → IsQueued q v ↔ ((i : ℕ) × (live_at q.heap i ≡ some v))
  unfolding is_queued_value
  IsQueued-live q v inv = elim (Option-cases (map_get v q.ref)) [
    | inl absent ↦ (
      λ p. absurd (ground (arith, p, absent)),
      λ (i, at_i). absurd (some_apart (map_get v q.ref) i ((inv.refs v i).1 at_i) absent),
    )
    | inr (i, found) ↦ (λ p. (i, (inv.refs v i).0 found), λ p. rw (found, is_queued_value) refl)
  ]

  pub granted-IsQueued :
      (zero_value : V) (q : Queue K V) (granted : List V) (v : V)
      → Reach zero_value q granted
      → IsIn v granted
      → IsQueued q v
  granted-IsQueued zero_value q granted v reach there =
      let (inv, grants) = reach-IsGranted zero_value q granted reach in
      let (i, at_i, first) = (grants v).0 there in (IsQueued-live q v inv).1 (i, at_i)

  pub record IsEnqueued (zero_value : V) (q q' : Queue K V) (granted : List V) (v : V)
      (ready : Bool) : Type 0 where
    pub after : List V
    pub reach : Reach zero_value q' after
    pub new : IsQueued q v → ⊥
    pub told : ready ≡ true → IsIn v after
    pub kept : (u : V) → IsIn u granted → IsIn u after
    pub there : (u : V) → IsQueued q' u ↔ (IsQueued q u ⊎ (u ≡ v))
    pub from : (u : V) → IsIn u after → ((ready ≡ true) × (v ≡ u)) ⊎ IsIn u granted
    pub head_kept : (u : V) → u ≢ v → peek_head q' ≡ some u → peek_head q ≡ some u

  pub enqueue-effect :
      (zero_value : V) (q : Queue K V) (granted : List V) (keys : List K) (v : V)
      → Reach zero_value q granted
      → (IsQueued q v × (enqueue q keys v ≡ some (none, q)))
        ⊎ ((ready : Bool) × (q' : Queue K V) × (enqueue q keys v ≡ some (some ready, q'))
            × IsEnqueued zero_value q q' granted v ready)
  unfolding is_queued_value
  enqueue-effect zero_value q granted keys v reach =
      let (inv, grants) = reach-IsGranted zero_value q granted reach in
      elim (Option-cases (map_get v q.ref)) [
        | inr (w, found) ↦
            inl
              ((IsQueued-live q v inv).1 (w, (inv.refs v w).0 found), enqueue-dup q keys v w found)
        | inl absent ↦
            let (ready, q', run, inv', live_new, keys_new, first, others) =
              enqueue-IsQueue q keys v inv absent in
            let unborn : live_at q.heap (length q.heap) ≡ none =
              view-beyond none live q.heap (length q.heap) (omega arith) in
            inr (
              ready,
              q',
              run,
              record {
                after = if ready then v ∷ granted else granted;
                reach = enqueued keys v ready reach run;
                new = λ p. absurd (ground (arith, p, absent));
                told = λ p. (IsIn-if ready v v granted).1 (inl (p, refl));
                kept = λ u there. (IsIn-if ready v u granted).1 (inr there);
                from = λ u there. (IsIn-if ready v u granted).0 there;
                head_kept = λ u ne at_head.
                    let (h, at_h, older) = peek_head-oldest q' u inv' at_head in
                    let old : h ≢ length q.heap = λ r. ne (
                      same_result (live_at q'.heap h) u v at_h
                        (ap (live_at q'.heap) r ∙ live_new)) in
                    let before : live_at q.heap h ≡ some u = sym (others h old).0 ∙ at_h in
                    let size = live-below q h u before in
                    oldest-peek_head q h u inv before (λ i below.
                      sym (others i (λ r. omega (arith, below, size, r))).0 ∙ older i below);
                there = λ u. (
                  λ p.
                      let (i, at_i) = (IsQueued-live q' u inv').0 p in
                      elim (same_or_not i (length q.heap)) [
                        | inl same ↦ inr (
                            same_result (live_at q'.heap i) u v at_i
                              (ap (live_at q'.heap) same ∙ live_new))
                        | inr old ↦ inl ((IsQueued-live q u inv).1 (i, sym (others i old).0 ∙ at_i))
                      ],
                  λ p. elim p [
                    | inl before ↦
                        let (i, at_i) = (IsQueued-live q u inv).0 before in
                        let old : i ≢ length q.heap = λ r.
                          some_apart (live_at q.heap i) u at_i (ap (live_at q.heap) r ∙ unborn) in
                        (IsQueued-live q' u inv').1 (i, (others i old).0 ∙ at_i)
                    | inr same ↦
                        (IsQueued-live q' u inv').1 (length q.heap, live_new ∙ ap some (sym same))
                  ],
                );
              },
            )
      ]

  pub record IsDequeued (zero_value : V) (q q' : Queue K V) (granted : List V) (v : V)
      (ret : List V) : Type 0 where
    pub after : List V
    pub reach : Reach zero_value q' after
    pub told : (u : V) → IsIn u ret → IsIn u after
    pub kept : (u : V) → IsIn u granted → u ≢ v → IsIn u after
    pub there : (u : V) → IsQueued q' u ↔ (IsQueued q u × (u ≢ v))
    pub from : (u : V) → IsIn u after → IsIn u granted ⊎ IsIn u ret

  pub dequeue-effect :
      (zero_value : V) (q : Queue K V) (granted : List V) (v : V)
      → Reach zero_value q granted
      → (ret : List V) × (found : Bool) × (q' : Queue K V) × (dequeue zero_value q v
          ≡ some (ret, found, q'))
        × IsDequeued zero_value q q' granted v ret
  unfolding is_queued_value
  dequeue-effect zero_value q granted v reach =
      let (inv, grants) = reach-IsGranted zero_value q granted reach in
      elim (Option-cases (map_get v q.ref)) [
        | inl absent ↦ (
          [],
          false,
          q,
          dequeue-absent zero_value q v absent,
          record {
            after = granted;
            reach = reach;
            told = λ u there. absurd there;
            kept = λ u there ne. there;
            from = λ u there. inl there;
            there = λ u. (
              λ p. (p, λ same. absurd (ground (arith, p, ap (λ x. map_get x q.ref) same ∙ absent))),
              λ p. p.0,
            );
          },
        )
        | inr (w, found) ↦
            let (ret, q', run, inv', shorter, size, gone, others, released) =
              dequeue_releases zero_value q v w inv found in
            let live_w = (inv.refs v w).0 found in
            (
              ret,
              true,
              q',
              run,
              record {
                after = dropped v granted ++ ret;
                reach = dequeued v ret reach run;
                told = λ u there. (IsIn-append u (dropped v granted) ret).1 (inr there);
                from = λ u there. elim ((IsIn-append u (dropped v granted) ret).0 there) [
                  | inl p ↦ inl ((IsIn-dropped v u granted).0 p).0
                  | inr p ↦ inr p
                ];
                kept = λ u there ne.
                    (IsIn-append u (dropped v granted) ret).1
                      (inl ((IsIn-dropped v u granted).1 (there, ne)));
                there = λ u. (
                  λ p.
                      let (i, at_i) = (IsQueued-live q' u inv').0 p in
                      let ne : i ≢ w = λ r.
                        some_apart (live_at q'.heap i) u at_i (ap (live_at q'.heap) r ∙ gone) in
                      let before : live_at q.heap i ≡ some u = sym (others i ne).0 ∙ at_i in
                      (
                        (IsQueued-live q u inv).1 (i, before),
                        λ same. ne (live_unique q i w v inv (before ∙ ap some same) live_w),
                      ),
                  λ (p, ne).
                      let (i, at_i) = (IsQueued-live q u inv).0 p in
                      let away : i ≢ w = λ r. ne (
                        same_result (live_at q.heap i) u v at_i (ap (live_at q.heap) r ∙ live_w)) in
                      (IsQueued-live q' u inv').1 (i, (others i away).0 ∙ at_i),
                );
              },
            )
      ]

  no_head : (q : Queue K V) (v : V) → is_empty q ≡ true → peek_head q ≡ some v → ⊥
  unfolding elt_of
  no_head q v empty at_head = elim (Option-cases q.head) [
    | inl nil ↦ some_apart (peek_head q) v at_head (ap (elt_of q) nil)
    | inr (h, p) ↦
        let filled : is_empty q ≡ false = ap (λ o. elim o [ none ↦ true | some i ↦ false ]) p in
        absurd (ground (arith, empty, filled))
  ]

  pub peek_head-granted :
      (zero_value : V) (q : Queue K V) (granted : List V) (v : V)
      → Reach zero_value q granted
      → peek_head q ≡ some v
      → IsIn v granted
  peek_head-granted zero_value q granted v reach at_head =
      elim (head_granted zero_value q granted reach) [
        | inl (empty, nobody) ↦ absurd (no_head q v empty at_head)
        | inr (u, peeked, may) ↦
            subst (λ x. IsIn x granted) (same_result (peek_head q) u v peeked at_head) may
      ]
