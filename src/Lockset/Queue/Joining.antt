-- ===== src/Lockset/Queue/Joining.antt =====
-- internal/util/lockset/queue.go: the list of all waiters, and the counts, when `Enqueue` adds one.
use cdc_sink.Base.{
  ℕ, suc, ◌≡◌, ◌≢◌, refl, sym, ap, ◌∙◌, subst, inl, inr, Option, none, some, List, [], ◌∷◌, ◌++◌,
  length, length-append, get_elem?, get_elem?-some, set, length-set, arith, same_or_not,
}
use cdc_sink.Lockset.Queue.{QueueEntry, link, update, set_next}
use cdc_sink.Lockset.Queue.Line.{IsTrail, IsLine, from_oldest, line-cases}
use cdc_sink.Lockset.Queue.Views.{
  view, view-set_same, view-set_other, view-set_keeps, view-append_last, view-append_other, keys_at,
  count_at, live, live_at,
}

module _ {K V : Type 0} where
  -- The heap with one more waiter; nothing but pointers have changed in the others.
  pub record IsJoined (old new : List (QueueEntry K V)) (e : QueueEntry K V) : Type 0 where
    pub live_new : live_at new (length old) ≡ live e
    pub keys_new : keys_at new (length old) ≡ e.keys
    pub count_new : count_at new (length old) ≡ e.head_count
    pub live_old : (i : ℕ) → i ≢ length old → live_at new i ≡ live_at old i
    pub keys_old : (i : ℕ) → i ≢ length old → keys_at new i ≡ keys_at old i
    pub count_old : (i : ℕ) → i ≢ length old → count_at new i ≡ count_at old i

  abbrev behind : List (QueueEntry K V) → ℕ → QueueEntry K V → List (QueueEntry K V)
  unfolding set_next
  behind heap t last = set heap t (set_next (some (length heap)) last)

  module _ {X : Type 0} (missing : X) (f : QueueEntry K V → X) where
    view_new :
        (heap mid : List (QueueEntry K V)) (e : QueueEntry K V)
        → length mid ≡ length heap
        → view missing f (mid ++ e ∷ []) (length heap) ≡ f e
    view_new heap mid e size =
        ap (view missing f (mid ++ e ∷ [])) (sym size) ∙ view-append_last missing f mid e

    view_old :
        (heap mid : List (QueueEntry K V)) (e : QueueEntry K V) (i : ℕ)
        → length mid ≡ length heap
        → i ≢ length heap
        → view missing f (mid ++ e ∷ []) i ≡ view missing f mid i
    view_old heap mid e i size ne = view-append_other missing f mid e i (λ p. ne (p ∙ size))

  append-IsJoined :
      (heap mid : List (QueueEntry K V)) (e : QueueEntry K V)
      → length mid ≡ length heap
      → ((i : ℕ) → live_at mid i ≡ live_at heap i)
      → ((i : ℕ) → keys_at mid i ≡ keys_at heap i)
      → ((i : ℕ) → count_at mid i ≡ count_at heap i)
      → IsJoined heap (mid ++ e ∷ []) e
  append-IsJoined heap mid e size lives keys counts = record {
    live_new = view_new none live heap mid e size;
    keys_new = view_new [] (λ (x : QueueEntry K V). x.keys) heap mid e size;
    count_new = view_new 0 (λ (x : QueueEntry K V). x.head_count) heap mid e size;
    live_old = λ i ne. view_old none live heap mid e i size ne ∙ lives i;
    keys_old = λ i ne. view_old [] (λ (x : QueueEntry K V). x.keys) heap mid e i size ne ∙ keys i;
    count_old =
        λ i ne. view_old 0 (λ (x : QueueEntry K V). x.head_count) heap mid e i size ne ∙ counts i;
  }

  -- The trail reaches the new waiter.
  IsTrail-join :
      (heap : List (QueueEntry K V)) (h t : ℕ) (last e : QueueEntry K V)
      → IsTrail heap h t
      → get_elem? heap t ≡ some last
      → e.next ≡ none
      → IsTrail (behind heap t last ++ e ∷ []) h (length heap)
  unfolding set_next
  IsTrail-join heap h t last e trail at_t nil =
      let changed = set_next (some (length heap)) last in
      let mid = behind heap t last in
      let size : length mid ≡ length heap = length-set heap t changed in
      let ends = trail.at_end in
      let within = trail.inside in
      let next : QueueEntry K V → Option ℕ = λ x. x.next in
      record {
        older = λ i below.
            view_old none live heap mid e i size (λ p. omega (arith, p, below, ends, within))
            ∙ view-set_keeps none live heap t i last changed at_t refl
            ∙ trail.older i below;
        linked = λ i above below.
            view_old none next heap mid e i size (λ p. omega (arith, p, below))
            ∙ elim (same_or_not t i) [
              | inl p ↦
                  ap (view none next mid) (sym p)
                  ∙ view-set_same none next heap t last changed at_t
                  ∙ ap some (sym ends ∙ ap suc p)
              | inr ne ↦
                  view-set_other none next heap t i changed ne
                  ∙ trail.linked i above (omega (arith, below, ne, ends))
            ];
        last = view_new none next heap mid e size ∙ nil;
        at_end = sym (length-append mid (e ∷ []) ∙ omega (arith, size));
        inside = omega (arith, within, ends);
      }

  link-behind :
      (heap : List (QueueEntry K V)) (head : Option ℕ) (t : ℕ) (last e : QueueEntry K V)
      → get_elem? heap t ≡ some last
      → link heap head (some t) e ≡ some (behind heap t last ++ e ∷ [], head)
  unfolding link set_next
  link-behind heap head t last e at_t = rw (at_t, update) refl

  -- `Enqueue` links the new waiter behind the last one.
  pub link-IsLine :
      (heap : List (QueueEntry K V)) (head tail : Option ℕ) (e : QueueEntry K V) (v : V)
      → IsLine heap head tail
      → e.next ≡ none
      → live e ≡ some v
      → (new : List (QueueEntry K V)) × (head' : Option ℕ) × (link heap head tail e
          ≡ some (new, head'))
        × IsJoined heap new e
        × IsLine new head' (some (length heap))
  unfolding link update set_next
  link-IsLine heap head tail e v line nil alive = elim (line-cases heap head tail line) [
    | inl (no_head, no_tail, gone) ↦
        let joined = append-IsJoined heap heap e refl (λ i. refl) (λ i. refl) (λ i. refl) in
        (
          heap ++ e ∷ [],
          some (length heap),
          ap (λ o. link heap head o e) no_tail,
          joined,
          from_oldest (length heap) (length heap) v
              (record {
                older = λ i below. joined.live_old i (λ p. omega (arith, p, below)) ∙ gone i;
                linked = λ i above below. absurd (omega (arith, above, below));
                last = view_new none (λ (x : QueueEntry K V). x.next) heap heap e refl ∙ nil;
                at_end = sym (length-append heap (e ∷ []) ∙ omega arith);
                inside = omega arith;
              })
              (joined.live_new ∙ alive),
        )
    | inr (h, t, first, at_head, at_tail, trail, there) ↦
        let ends = trail.at_end in
        let within = trail.inside in
        let (last, at_t) = get_elem?-some heap t (omega (arith, ends)) in
        let changed = set_next (some (length heap)) last in
        let joined =
          append-IsJoined heap (behind heap t last) e (length-set heap t changed)
            (λ i. view-set_keeps none live heap t i last changed at_t refl)
            (λ i.
              view-set_keeps [] (λ (x : QueueEntry K V). x.keys) heap t i last changed at_t refl)
            (λ i.
              view-set_keeps 0 (λ (x : QueueEntry K V). x.head_count) heap t i last changed at_t
                refl) in
        (
          behind heap t last ++ e ∷ [],
          head,
          ap (λ o. link heap head o e) at_tail ∙ link-behind heap head t last e at_t,
          joined,
          subst (λ o. IsLine (behind heap t last ++ e ∷ []) o (some (length heap))) (sym at_head)
              (from_oldest h (length heap) first (IsTrail-join heap h t last e trail at_t nil)
                (joined.live_old h (λ p. omega (arith, p, within, ends)) ∙ there)),
        )
  ]
