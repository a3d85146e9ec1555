-- ===== src/Hlc/Decimal/Laws.antt =====
-- Decimal text read back: the digits that are printed, after any number of zeros, parse to the
-- number that was printed.
use native.Mathlib.Nat.{pow-suc}
use native.Mathlib.Decide.{dec_lt}
use cdc_sink.Base.{
  ℕ, zero, suc, ◌+◌, ◌-◌, ◌*◌, ◌/◌, ◌%◌, ◌^◌, ◌≤◌, ◌<◌, ◌≡◌, ◌≢◌, refl, Bool, true, false, Option,
  some, List, [], ◌∷◌, ◌++◌, length, length-append, ltb, All, All-append, arith, Bool-cases,
  Option-cases, inl, inr, sym, ap, ◌∙◌,
}
use cdc_sink.Base.Int.{pos}
use cdc_sink.Hlc.Decimal.{
  digits, decimal, zeros, format_int, format_padded, accumulate, parse_digits, parse_uint_any,
  by_prefix, has_mark, signed, parse_int, atoi, nonempty,
}

abbrev pub IsDigit : ℕ → Type 0
IsDigit c = (48 ≤ c) × (c ≤ 57)

pub digits-IsDigit : (f n : ℕ) → All IsDigit (digits f n)
unfolding digits
digits-IsDigit zero n = tt
digits-IsDigit (suc f) n =
    let front = digits-IsDigit f (n / 10) in
    let last : All IsDigit ((48 + n % 10) ∷ []) = ground arith in
    let whole = All-append IsDigit (digits f (n / 10)) ((48 + n % 10) ∷ []) front last in
    elim (Bool-cases (ltb n 10)) [ inl e ↦ rw e (ground arith) | inr e ↦ rw e whole ]

pub zeros-IsDigit : (n : ℕ) → All IsDigit (zeros n)
unfolding zeros
zeros-IsDigit zero = tt
zeros-IsDigit (suc n) = (omega arith, zeros-IsDigit n)

pub length-zeros : (n : ℕ) → length (zeros n) ≡ n
unfolding zeros
length-zeros zero = refl
length-zeros (suc n) = omega (arith, length-zeros n)

digits-small : (f n : ℕ) → n < 10 → digits (suc f) n ≡ (48 + n) ∷ []
unfolding digits
digits-small f n h = ground arith

digits-large : (f n : ℕ) → 10 ≤ n → digits (suc f) n ≡ digits f (n / 10) ++ (48 + n % 10) ∷ []
unfolding digits
digits-large f n h = ground arith

module _ (any : Bool) where
  -- A prefix that parses to `m` leaves the rest to be parsed from `m`.
  pub parse_digits-append :
      (n m : ℕ) (xs ys : List ℕ)
      → parse_digits any 10 n xs ≡ some m
      → parse_digits any 10 n (xs ++ ys) ≡ parse_digits any 10 m ys
  unfolding parse_digits
  parse_digits-append n m [] ys h = ground arith
  parse_digits-append n m (x ∷ xs) ys h = elim (Option-cases (accumulate any 10 n x)) [
    | inl e ↦ cc (rw e at h)
    | inr (k, e) ↦ rw e (parse_digits-append k m xs ys (rw e at h))
  ]

  accumulate-digit :
      (n d : ℕ) → d < 10 → n * 10 + d < 2 ^ 64 → accumulate any 10 n (48 + d) ≡ some (n * 10 + d)
  unfolding accumulate
  accumulate-digit n d h fits = ground arith

  pub parse_digits-zeros :
      (k : ℕ) (s : List ℕ) → parse_digits any 10 0 (zeros k ++ s) ≡ parse_digits any 10 0 s
  unfolding parse_digits zeros
  parse_digits-zeros zero s = refl
  parse_digits-zeros (suc k) s = unfold accumulate in ground (arith, parse_digits-zeros k s)

  parse_digits-one :
      (n d : ℕ)
      → d < 10
      → n * 10 + d < 2 ^ 64
      → parse_digits any 10 n ((48 + d) ∷ []) ≡ some (n * 10 + d)
  unfolding parse_digits
  parse_digits-one n d h fits = rw (accumulate-digit n d h fits)

  pub parse_digits-digits :
      (f n : ℕ) → n < 2 ^ 64 → n < 10 ^ f → parse_digits any 10 0 (digits f n) ≡ some n
  parse_digits-digits zero n fits enough =
      let small : n ≡ 0 = omega arith in unfold digits parse_digits in ap some (sym small)
  parse_digits-digits (suc f) n fits enough = elim (dec_lt n 10) [
    | yes small ↦
        rw (digits-small f n small)
          (parse_digits-one 0 n small (omega arith) ∙ ap some (omega arith))
    | no large ↦
        let front = parse_digits-digits f (n / 10) (omega arith) (omega (arith, pow-suc 10 f)) in
        rw (digits-large f n (omega arith)) (
          parse_digits-append 0 (n / 10) (digits f (n / 10)) ((48 + n % 10) ∷ []) front
          ∙ rw (parse_digits-one (n / 10) (n % 10) (omega arith) (omega arith))
              (ap some (omega arith)))
  ]

has_mark-digits : (s : List ℕ) → All IsDigit s → has_mark s ≡ false
unfolding has_mark
has_mark-digits [] h = refl
has_mark-digits (c ∷ s) h = ground (arith, has_mark-digits s h.1)

by_prefix-plain : (c : ℕ) (s : List ℕ) → c ≢ b'0' → by_prefix (c ∷ s) ≡ (10, c ∷ s, false)
unfolding by_prefix
by_prefix-plain c [] h = ground arith
by_prefix-plain c (p ∷ []) h = ground arith
by_prefix-plain c (p ∷ d ∷ s) h = ground arith

-- The first digit of a number that is not zero is not a zero.
digits-head :
    (f n : ℕ)
    → 0 < n
    → n < 10 ^ f
    → (c : ℕ) × (s : List ℕ) × (digits f n ≡ c ∷ s) × (48 < c) × (c ≤ 57)
digits-head zero n h enough = absurd (omega arith)
digits-head (suc f) n h enough = elim (dec_lt n 10) [
  | yes small ↦ (48 + n, [], digits-small f n small, omega arith, omega arith)
  | no large ↦
      let (c, s, e, lo, hi) = digits-head f (n / 10) (omega arith) (omega (arith, pow-suc 10 f)) in
      (c, s ++ (48 + n % 10) ∷ [], rw (digits-large f n (omega arith), e) refl, lo, hi)
]

-- A nonempty run of digits has no sign.
signed-digits :
    (parse : List ℕ → Option ℕ) (s : List ℕ) (n : ℕ)
    → All IsDigit s
    → parse s ≡ some n
    → n < 2 ^ 63
    → s ≢ []
    → signed parse s ≡ some (pos n)
unfolding signed
signed-digits parse [] n h e fits full = absurd (full refl)
signed-digits parse (c ∷ s) n h e fits full = ground arith

nonempty-full : (parse : List ℕ → Option ℕ) (s : List ℕ) → s ≢ [] → nonempty parse s ≡ parse s
unfolding nonempty
nonempty-full parse [] h = absurd (h refl)
nonempty-full parse (c ∷ s) h = refl

parse_uint_any-plain :
    (c : ℕ) (s : List ℕ)
    → c ≢ b'0'
    → has_mark (c ∷ s) ≡ false
    → parse_uint_any (c ∷ s) ≡ parse_digits true 10 0 (c ∷ s)
unfolding parse_uint_any
parse_uint_any-plain c s plain clear = rw (by_prefix-plain c s plain, clear) refl

decimal-zero : decimal 0 ≡ b'0' ∷ []
unfolding decimal digits
decimal-zero = refl

parse_uint_any-decimal : (n : ℕ) → n < 2 ^ 63 → parse_uint_any (decimal n) ≡ some n
unfolding decimal
parse_uint_any-decimal zero fits = unfold parse_uint_any digits in refl
parse_uint_any-decimal (suc m) fits =
    let n = suc m in
    let (c, s, e, lo, hi) = digits-head 20 n (omega arith) (omega arith) in
    let clear = has_mark-digits (digits 20 n) (digits-IsDigit 20 n) in
    let parsed = parse_digits-digits true 20 n (omega arith) (omega arith) in
    rw e (parse_uint_any-plain c s (omega arith) (rw e at clear) ∙ (rw e at parsed))

pub decimal-IsDigit : (n : ℕ) → All IsDigit (decimal n)
unfolding decimal
decimal-IsDigit n = digits-IsDigit 20 n

decimal-ne-nil : (n : ℕ) → n < 2 ^ 63 → decimal n ≢ []
unfolding decimal
decimal-ne-nil zero h = unfold digits in λ no. cc
decimal-ne-nil (suc m) h =
    let (c, s, e, _, _) = digits-head 20 (suc m) (omega arith) (omega arith) in λ no. cc

-- What `%d` prints of a number from 0 to 2^63 - 1, strconv.ParseInt with base 0 reads back.
pub parse_int-format_int : (n : ℕ) → n < 2 ^ 63 → parse_int (format_int (pos n)) ≡ some (pos n)
unfolding parse_int format_int
parse_int-format_int n fits =
    signed-digits (nonempty parse_uint_any) (decimal n) n (decimal-IsDigit n)
      (nonempty-full parse_uint_any (decimal n) (decimal-ne-nil n fits)
        ∙ parse_uint_any-decimal n fits)
      fits (decimal-ne-nil n fits)

append-ne-nil {ℓ} : {A : Type ℓ} (xs ys : List A) → ys ≢ [] → xs ++ ys ≢ []
append-ne-nil [] ys h = h
append-ne-nil (x ∷ xs) ys h = λ e. cc

pub padded-IsDigit : (n : ℕ) → All IsDigit (format_padded (pos n))
unfolding format_padded
padded-IsDigit n =
    All-append IsDigit (zeros (10 - length (decimal n))) (decimal n)
      (zeros-IsDigit (10 - length (decimal n))) (decimal-IsDigit n)

-- What `%010d` prints of a number from 0 to 2^63 - 1, strconv.Atoi reads back.
pub atoi-format_padded : (n : ℕ) → n < 2 ^ 63 → atoi (format_padded (pos n)) ≡ some (pos n)
unfolding atoi format_padded
atoi-format_padded n fits =
    let d = decimal n in
    let full = append-ne-nil (zeros (10 - length d)) d (decimal-ne-nil n fits) in
    let s = zeros (10 - length d) ++ d in
    signed-digits (nonempty (parse_digits false 10 0)) s n
      (unfold format_padded in padded-IsDigit n)
      (nonempty-full (parse_digits false 10 0) s full
        ∙ parse_digits-zeros false (10 - length d) d
        ∙ (unfold decimal in parse_digits-digits false 20 n (omega arith) (omega arith)))
      fits full

length-digits-le : (f k n : ℕ) → n < 10 ^ suc k → length (digits f n) ≤ suc k
unfolding digits
length-digits-le zero k n h = omega arith
length-digits-le (suc f) zero n h = ground arith
length-digits-le (suc f) (suc k) n h =
    let front = length-digits-le f k (n / 10) (omega (arith, pow-suc 10 (suc k))) in
    ground (arith, front, length-append (digits f (n / 10)) ((48 + n % 10) ∷ []))

-- A counter below 10^10 is printed with ten digits.
pub length-padded : (n : ℕ) → n < 10 ^ 10 → length (format_padded (pos n)) ≡ 10
unfolding format_padded decimal
length-padded n h =
    let d = digits 20 n in
    rw (length-append (zeros (10 - length d)) d, length-zeros)
      (omega (arith, length-digits-le 20 9 n h))
