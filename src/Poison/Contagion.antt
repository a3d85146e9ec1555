-- ===== src/Poison/Contagion.antt =====
-- internal/sequencer/core/poison.go: poison is contagious.
use cdc_sink.Base.{
  ◌≡◌, refl, sym, ap, ◌∙◌, subst, inl, inr, Bool, true, false, ◌||◌, List, [], ◌∷◌, length,
  length-zero, eqb, is_seen, nat_eq, list_eq, ◌==◌, arith, Bool-cases,
}
use cdc_sink.Ident.{Text}
use cdc_sink.Types.Batch.{MultiBatch}
use cdc_sink.Poison.{
  PoisonSet, poison_key, insert_key, check_key, insert_all, contaminate, copied, to_poison,
  is_poisoned,
}
use cdc_sink.Poison.Pairs.{Row, run_rows, rows_of, copied-rows_of}

-- A row has a key of the list, and a key is that of a row.
unfoldable pub any_seen : {Meta : Type 0} → List Text → List (Row Meta) → Bool
unfolding poison_key
any_seen keys [] = false
any_seen keys ((tbl, mut) ∷ rows) =
    let rest = any_seen keys rows in is_seen (poison_key tbl mut) keys || rest

unfoldable pub has_key : {Meta : Type 0} → Text → List (Row Meta) → Bool
unfolding poison_key
has_key key [] = false
has_key key ((tbl, mut) ∷ rows) = let rest = has_key key rows in (poison_key tbl mut == key) || rest

is_seen-insert_key :
    (key new : Text) (keys : List Text)
    → is_seen key (insert_key new keys) ≡ ((new == key) || is_seen key keys)
unfolding insert_key is_seen
is_seen-insert_key key new keys = elim (Bool-cases (is_seen new keys)) [
  | inr fresh ↦ ground (arith, fresh)
  | inl old ↦ elim (Bool-cases (new == key)) [
    | inr other ↦ ground (arith, old, other)
    | inl same ↦
        let there : is_seen key keys ≡ true =
          subst (λ k. is_seen k keys ≡ true) ((list_eq.equals_iff new key).0 same) old in
        ground (arith, old, same, there)
  ]
]

is_seen-insert_all :
    (key : Text) (new keys : List Text)
    → is_seen key (insert_all new keys) ≡ (is_seen key new || is_seen key keys)
unfolding insert_all is_seen
is_seen-insert_all key [] keys = refl
is_seen-insert_all key (k ∷ new) keys =
    ground (arith, is_seen-insert_all key new (insert_key k keys), is_seen-insert_key key k keys)

module _ {Meta : Type 0} where
  check-any_seen :
      (keys : List Text) (rows : List (Row Meta)) (to : List Text) (found : Bool)
      → (run_rows (check_key keys) rows (to, found)).1 ≡ (found || any_seen keys rows)
  unfolding run_rows check_key any_seen
  check-any_seen keys [] to found = ground arith
  check-any_seen keys ((tbl, mut) ∷ rows) to found =
      elim (Bool-cases (is_seen (poison_key tbl mut) keys)) [
        | inl seen ↦ ground (arith, seen, check-any_seen keys rows to true)
        | inr new ↦
            ground (arith, new, check-any_seen keys rows (insert_key (poison_key tbl mut) to) found)
      ]

  -- A key of the rows is poisoned already, or is to be.
  check-is_seen :
      (keys : List Text) (key : Text) (rows : List (Row Meta)) (to : List Text) (found : Bool)
      → is_seen key keys ≡ false
      → is_seen key (run_rows (check_key keys) rows (to, found)).0
        ≡ (has_key key rows || is_seen key to)
  unfolding run_rows check_key has_key
  check-is_seen keys key [] to found h = refl
  check-is_seen keys key ((tbl, mut) ∷ rows) to found h =
      let k = poison_key tbl mut in
      elim (Bool-cases (is_seen k keys)) [
        | inl seen ↦ elim (Bool-cases (k == key)) [
          | inl same ↦
              let there : is_seen key keys ≡ true =
                subst (λ j. is_seen j keys ≡ true) ((list_eq.equals_iff k key).0 same) seen in
              absurd (ground (arith, h, there))
          | inr other ↦ ground (arith, seen, other, check-is_seen keys key rows to true h)
        ]
        | inr new ↦ ground (
          arith,
          new,
          check-is_seen keys key rows (insert_key k to) found h,
          is_seen-insert_key key k to,
        )
      ]

any_seen-has_key :
    {Meta : Type 0} (key : Text) (keys : List Text) (rows : List (Row Meta))
    → is_seen key keys ≡ true
    → has_key key rows ≡ true
    → any_seen keys rows ≡ true
unfolding any_seen has_key
any_seen-has_key key keys [] there h = cc
any_seen-has_key key keys ((tbl, mut) ∷ rows) there h =
    let k = poison_key tbl mut in
    elim (Bool-cases (k == key)) [
      | inl same ↦
          let seen : is_seen k keys ≡ true =
            subst (λ j. is_seen j keys ≡ true) (sym ((list_eq.equals_iff k key).0 same)) there in
          ground (arith, seen)
      | inr other ↦ ground (arith, any_seen-has_key key keys rows there (ground (arith, other, h)))
    ]

any_seen_nil : {Meta : Type 0} (rows : List (Row Meta)) → any_seen [] rows ≡ false
unfolding any_seen is_seen
any_seen_nil [] = refl
any_seen_nil ((tbl, mut) ∷ rows) = any_seen_nil rows

contaminate-is_seen :
    (key : Text) (to : List Text) (p : PoisonSet)
    → (is_seen key to || is_seen key p.keys) ≡ true
    → ((contaminate to p).full || is_seen key (contaminate to p).keys) ≡ true
unfolding contaminate is_seen
contaminate-is_seen key [] p h = ground (arith, h)
contaminate-is_seen key (k ∷ to) p h = ground (arith, h, is_seen-insert_all key (k ∷ to) p.keys)

module _ (to_lower : Text → Text) (sort : (A : Type 0) → (A → A → Bool) → List A → List A)
    {Meta : Type 0} where
  abbrev pub rows_in : MultiBatch Meta → List (Row Meta)
  rows_in batch = rows_of to_lower sort batch

  -- What `toPoison` finds in a set that is neither full nor empty.
  checked :
      (batch : MultiBatch Meta) (keys : List Text)
      → (copied to_lower sort (check_key keys) batch ([], false))
        ≡ run_rows (check_key keys) (rows_in batch) ([], false)
  checked batch keys = copied-rows_of to_lower sort (check_key keys) batch ([], false)

  -- A batch is poisoned exactly if the set is full, or has the key of a mutation that `CopyInto` hands
  -- over from the batch.
  pub is_poisoned_exact :
      (batch : MultiBatch Meta) (p : PoisonSet)
      → (is_poisoned to_lower sort batch p).1 ≡ (p.full || any_seen p.keys (rows_in batch))
  unfolding is_poisoned to_poison
  is_poisoned_exact batch p =
      let any =
        ap (λ r. r.1) (checked batch p.keys) ∙ check-any_seen p.keys (rows_in batch) [] false in
      elim (Bool-cases p.full) [
        | inl full ↦ ground (arith, full)
        | inr room ↦ elim (Bool-cases (eqb (length p.keys) 0)) [
          | inl empty ↦
              let none_left : p.keys ≡ [] = length-zero p.keys (ground (arith, empty)) in
              let clean : any_seen p.keys (rows_in batch) ≡ false =
                ap (λ ks. any_seen ks (rows_in batch)) none_left ∙ any_seen_nil (rows_in batch) in
              ground (arith, room, empty, clean)
          | inr some_left ↦ ground (arith, room, some_left, any)
        ]
      ]

  -- Nothing is left to contaminate, or the state is that of the second part.
  is_poisoned-contaminate :
      (batch : MultiBatch Meta) (p : PoisonSet)
      → p.full ≡ false
      → (is_poisoned to_lower sort batch p).1 ≡ true
      → (is_poisoned to_lower sort batch p).0
        ≡ contaminate (run_rows (check_key p.keys) (rows_in batch) ([], false)).0 p
  unfolding is_poisoned to_poison
  is_poisoned-contaminate batch p room poisoned =
      let found = ap (λ r. contaminate r.0 p) (checked batch p.keys) in
      ground (arith, room, poisoned) ∙ found

  -- A full set stays as it is.
  is_poisoned-full :
      (batch : MultiBatch Meta) (p : PoisonSet)
      → p.full ≡ true
      → (is_poisoned to_lower sort batch p).0.full ≡ true
  unfolding is_poisoned to_poison contaminate
  is_poisoned-full batch p full = ground (arith, full)

  -- A key of a poisoned batch is poisoned afterwards, or the set is full.
  is_poisoned-is_seen :
      (batch : MultiBatch Meta) (p : PoisonSet) (key : Text)
      → (is_poisoned to_lower sort batch p).1 ≡ true
      → has_key key (rows_in batch) ≡ true
      → ((is_poisoned to_lower sort batch p).0.full
          || is_seen key (is_poisoned to_lower sort batch p).0.keys)
        ≡ true
  is_poisoned-is_seen batch p key poisoned h = elim (Bool-cases p.full) [
    | inl full ↦ rw (is_poisoned-full batch p full) refl
    | inr room ↦
        let to = (run_rows (check_key p.keys) (rows_in batch) ([], false)).0 in
        let there : (is_seen key to || is_seen key p.keys) ≡ true =
          elim (Bool-cases (is_seen key p.keys)) [
            | inl old ↦ ground (arith, old)
            | inr fresh ↦ ground (arith, h, check-is_seen p.keys key (rows_in batch) [] false fresh)
          ] in
        subst (λ (q : PoisonSet). (q.full || is_seen key q.keys) ≡ true)
          (sym (is_poisoned-contaminate batch p room poisoned)) (contaminate-is_seen key to p there)
  ]

  -- Poison is contagious: if a batch is found to be poisoned, each batch after it with the key of a
  -- mutation of the first one is poisoned too, whether that key was poisoned before or not.
  pub is_poisoned-contagious :
      (batch later : MultiBatch Meta) (p : PoisonSet) (key : Text)
      → (is_poisoned to_lower sort batch p).1 ≡ true
      → has_key key (rows_in batch) ≡ true
      → has_key key (rows_in later) ≡ true
      → (is_poisoned to_lower sort later (is_poisoned to_lower sort batch p).0).1 ≡ true
  is_poisoned-contagious batch later p key poisoned h h' =
      let q = (is_poisoned to_lower sort batch p).0 in
      is_poisoned_exact later q ∙ (elim (Bool-cases (is_seen key q.keys)) [
        | inl there ↦ rw (any_seen-has_key key q.keys (rows_in later) there h') (ground arith)
        | inr absent ↦
            let full : q.full ≡ true =
              ground (arith, absent, is_poisoned-is_seen batch p key poisoned h) in
            rw full refl
      ])
