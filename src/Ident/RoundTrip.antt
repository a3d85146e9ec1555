-- ===== src/Ident/RoundTrip.antt =====
-- internal/util/ident: an identifier that was quoted is parsed as what it was.
use cdc_sink.Base.{
  ℕ, zero, suc, ◌+◌, ◌-◌, ◌≤◌, ◌<◌, ◌≡◌, ◌≢◌, refl, sym, ap, ◌∙◌, subst, inl, inr, Option, none,
  some, List, [], ◌∷◌, ◌++◌, append_assoc, length, length-append, take, drop, take-length,
  drop-append, eqb, eqb_iff, arith, nat_eq, ◌==◌, Bool-cases,
}
use cdc_sink.Ident.{Text, quote, new, double_quotes, atom_string}
use cdc_sink.Ident.Utf8.{rune_error, decode_rune, IsRune, one, two, three, four, decode_rune-IsRune}
use cdc_sink.Ident.Parse.{
  done, ◌>>=◌, single_quotes, scan_quoted, cut_quoted, parse_quoted, parse_ident,
}

-- A text in UTF-8 without the rune that stands for an error.
pub data IsText : Text → Type 0 where
  end : IsText []
  rune :
      (u : List ℕ) (r : ℕ) (s t : Text)
      → IsRune u r
      → r ≢ rune_error
      → IsText s
      → t ≡ u ++ s
      → IsText t

-- What may follow a quoted identifier: nothing, or an ASCII character other than a quote.
pub data IsClear : Text → Type 0 where
  nothing : IsClear []
  ascii : (c : ℕ) (s : Text) → c < 0x80 → c ≢ quote → IsClear (c ∷ s)

single-other : (c : ℕ) (s : Text) → c ≢ quote → single_quotes (c ∷ s) ≡ c ∷ single_quotes s
unfolding single_quotes
single-other c [] h = refl
single-other c (d ∷ s) h = ground arith

single-pair : (s : Text) → single_quotes (quote ∷ quote ∷ s) ≡ quote ∷ single_quotes s
unfolding single_quotes
single-pair s = refl

single-double : (s : Text) → single_quotes (double_quotes s) ≡ s
unfolding double_quotes
single-double [] = unfold single_quotes in refl
single-double (c ∷ s) = elim (Bool-cases (c == quote)) [
  | inl here ↦
      let p : c ≡ quote = (eqb_iff c quote).0 here in
      rw here
        (single-pair (double_quotes s) ∙ ap (◌∷◌ quote) (single-double s) ∙ ap (λ d. d ∷ s) (sym p))
  | inr other ↦ rw other (
      single-other c (double_quotes s) (λ p. ground (arith, other, p))
      ∙ ap (◌∷◌ c) (single-double s))
]

-- Only one rune has the byte of a quote.
IsRune-quote : {u : List ℕ} {r : ℕ} → IsRune u r → r ≡ quote → u ≡ quote ∷ []
IsRune-quote (one b h) p = cc
IsRune-quote (two b0 b1 h0 h1) p = absurd (omega (arith, p))
IsRune-quote (three b0 b1 b2 h0 hb h1 h2) p = absurd (ground (arith, p))
IsRune-quote (four b0 b1 b2 b3 h0 hb h1 h2 h3) p = absurd (ground (arith, p))

double_quotes-rune :
    {u : List ℕ} {r : ℕ}
    → IsRune u r
    → r ≢ quote
    → (s : Text) → double_quotes (u ++ s) ≡ u ++ double_quotes s
unfolding double_quotes
double_quotes-rune (one b h) p s = ground arith
double_quotes-rune (two b0 b1 h0 h1) p s = ground arith
double_quotes-rune (three b0 b1 b2 h0 hb h1 h2) p s = ground arith
double_quotes-rune (four b0 b1 b2 b3 h0 hb h1 h2 h3) p s = ground arith

IsRune-cons : {u : List ℕ} {r : ℕ} → IsRune u r → (c : ℕ) × (w : List ℕ) × (u ≡ c ∷ w)
IsRune-cons (one b h) = (b, [], refl)
IsRune-cons (two b0 b1 h0 h1) = (b0, b1 ∷ [], refl)
IsRune-cons (three b0 b1 b2 h0 hb h1 h2) = (b0, b1 ∷ b2 ∷ [], refl)
IsRune-cons (four b0 b1 b2 b3 h0 hb h1 h2 h3) = (b0, b1 ∷ b2 ∷ b3 ∷ [], refl)

module _ (fuel idx prev : ℕ) (last : Option ℕ) (c : ℕ) (w : Text) (next size : ℕ)
    (decoded : decode_rune (c ∷ w) ≡ (next, size)) where
  scan-plain :
      next ≢ rune_error
      → next ≢ quote
      → prev ≢ quote
      → scan_quoted (suc fuel) idx prev last (c ∷ w)
        ≡ scan_quoted fuel (idx + size) next last (drop size (c ∷ w))
  unfolding scan_quoted
  scan-plain fine other before = ground (arith, decoded)

  scan-closed :
      next ≡ quote
      → prev ≢ quote
      → scan_quoted (suc fuel) idx prev last (c ∷ w)
        ≡ scan_quoted fuel (idx + size) next (some idx) (drop size (c ∷ w))
  unfolding scan_quoted
  scan-closed here before = ground (arith, decoded)

  scan-escaped :
      next ≡ quote
      → prev ≡ quote
      → scan_quoted (suc fuel) idx prev last (c ∷ w)
        ≡ scan_quoted fuel (idx + size) 0 none (drop size (c ∷ w))
  unfolding scan_quoted
  scan-escaped here before = ground (arith, decoded)

  scan-past :
      next ≢ rune_error
      → next ≢ quote
      → prev ≡ quote
      → scan_quoted (suc fuel) idx prev last (c ∷ w) ≡ done last
  unfolding scan_quoted
  scan-past fine other before = ground (arith, decoded)

scan-after :
    (fuel i idx : ℕ) (rest : Text)
    → IsClear rest
    → length rest ≤ fuel
    → scan_quoted fuel i quote (some idx) rest ≡ done (some idx)
scan-after zero i idx rest nothing enough = unfold scan_quoted in refl
scan-after (suc fuel) i idx rest nothing enough = unfold scan_quoted in refl
scan-after zero i idx rest (ascii c s small other) enough = absurd (omega (arith, enough))
scan-after (suc fuel) i idx rest (ascii c s small other) enough =
    scan-past fuel i quote (some idx) c s c 1 (decode_rune-IsRune (one c small) s)
      (λ p. omega (arith, p, small)) other refl

scan-end :
    (fuel idx prev : ℕ) (last : Option ℕ) (rest : Text)
    → IsClear rest
    → prev ≢ quote
    → length (quote ∷ rest) ≤ fuel
    → scan_quoted fuel idx prev last (quote ∷ rest) ≡ done (some idx)
scan-end zero idx prev last rest clear before enough = absurd (omega (arith, enough))
scan-end (suc fuel) idx prev last rest clear before enough =
    scan-closed fuel idx prev last quote rest quote 1
      (decode_rune-IsRune (one quote (omega arith)) rest) refl before
    ∙ scan-after fuel (idx + 1) idx rest clear (omega (arith, enough))

scan-pair :
    (fuel idx prev : ℕ) (last : Option ℕ) (rest : Text)
    → prev ≢ quote
    → scan_quoted (suc (suc fuel)) idx prev last (quote ∷ quote ∷ rest)
      ≡ scan_quoted fuel (idx + 1 + 1) 0 none rest
scan-pair fuel idx prev last rest before =
    scan-closed (suc fuel) idx prev last quote (quote ∷ rest) quote 1
      (decode_rune-IsRune (one quote (omega arith)) (quote ∷ rest)) refl before
    ∙ scan-escaped fuel (idx + 1) quote (some idx) quote rest quote 1
        (decode_rune-IsRune (one quote (omega arith)) rest) refl refl

scan-rune :
    {u : List ℕ} {r : ℕ} (is_rune : IsRune u r) (fuel idx prev : ℕ) (last : Option ℕ) (s : Text)
    → r ≢ rune_error
    → r ≢ quote
    → prev ≢ quote
    → scan_quoted (suc fuel) idx prev last (u ++ s) ≡ scan_quoted fuel (idx + length u) r last s
scan-rune (one b h) fuel idx prev last s =
    scan-plain fuel idx prev last b s _ _ (decode_rune-IsRune (one b h) s)
scan-rune (two b0 b1 h0 h1) fuel idx prev last s =
    scan-plain fuel idx prev last b0 (b1 ∷ s) _ _ (decode_rune-IsRune (two b0 b1 h0 h1) s)
scan-rune (three b0 b1 b2 h0 hb h1 h2) fuel idx prev last s =
    scan-plain fuel idx prev last b0 (b1 ∷ b2 ∷ s) _ _
      (decode_rune-IsRune (three b0 b1 b2 h0 hb h1 h2) s)
scan-rune (four b0 b1 b2 b3 h0 hb h1 h2 h3) fuel idx prev last s =
    scan-plain fuel idx prev last b0 (b1 ∷ b2 ∷ b3 ∷ s) _ _
      (decode_rune-IsRune (four b0 b1 b2 b3 h0 hb h1 h2 h3) s)

-- What the scan of an escaped text comes to.
abbrev EndsAt : ℕ → ℕ → ℕ → Option ℕ → Text → Text → Type 0
EndsAt fuel idx prev last d rest =
    scan_quoted fuel idx prev last (d ++ quote ∷ rest) ≡ done (some (idx + length d))

-- The scan ends at the quote behind an escaped text.
scan-double :
    (fuel idx prev : ℕ) (last : Option ℕ) (s rest : Text)
    → IsText s
    → IsClear rest
    → prev ≢ quote
    → length (double_quotes s ++ quote ∷ rest) ≤ fuel
    → EndsAt fuel idx prev last (double_quotes s) rest
unfolding double_quotes
scan-double fuel idx prev last s rest end clear before enough =
    scan-end fuel idx prev last rest clear before enough ∙ ap (λ n. done (some n)) (omega arith)
scan-double zero idx prev last s rest (rune u r s' t is_rune fine text p) clear before enough =
    absurd (omega (arith, enough, length-append (double_quotes s) (quote ∷ rest)))
scan-double (suc fuel) idx prev last s rest (rune u r s' t is_rune fine text p) clear before
      enough =
    elim (Bool-cases (eqb r quote)) [
      | inl here ↦
          let only : u ≡ quote ∷ [] = IsRune-quote is_rune ((eqb_iff r quote).0 here) in
          let d = double_quotes s' in
          let e : double_quotes s ≡ quote ∷ quote ∷ d =
            ap double_quotes (p ∙ ap (λ x. x ++ s') only) in
          let sizes : length (double_quotes s) ≡ suc (suc (length d)) = ap length e in
          let len = length-append (double_quotes s) (quote ∷ rest) in
          let len' = length-append d (quote ∷ rest) in
          let less : fuel ≡ suc (fuel - 1) = omega (arith, enough, sizes, len) in
          let more : length (d ++ quote ∷ rest) ≤ fuel - 1 =
            omega (arith, enough, sizes, len, len') in
          let zero_ne : 0 ≢ quote = λ q. omega (arith, q) in
          subst (λ x. EndsAt (suc fuel) idx prev last x rest) (sym e)
            (ap (λ f. scan_quoted (suc f) idx prev last (quote ∷ quote ∷ (d ++ quote ∷ rest))) less
              ∙ scan-pair (fuel - 1) idx prev last (d ++ quote ∷ rest) before
              ∙ scan-double (fuel - 1) (idx + 1 + 1) 0 none s' rest text clear zero_ne more
              ∙ ap (λ n. done (some n)) (omega arith))
      | inr other ↦
          let differs : r ≢ quote = λ e. ground (arith, other, e) in
          let e : double_quotes s ≡ u ++ double_quotes s' =
            ap double_quotes p ∙ double_quotes-rune is_rune differs s' in
          let d = double_quotes s' in
          let len = length-append u d in
          let more : length (d ++ quote ∷ rest) ≤ fuel =
            let (c, w, cons) = IsRune-cons is_rune in
            omega (
              arith,
              enough,
              len,
              ap length e,
              ap length cons,
              length-append (double_quotes s) (quote ∷ rest),
              length-append d (quote ∷ rest),
            ) in
          subst (λ x. EndsAt (suc fuel) idx prev last x rest) (sym e)
            (ap (scan_quoted (suc fuel) idx prev last) (append_assoc u d (quote ∷ rest))
              ∙ scan-rune is_rune fuel idx prev last (d ++ quote ∷ rest) fine differs before
              ∙ scan-double fuel (idx + length u) r last s' rest text clear differs more
              ∙ ap (λ n. done (some n)) (omega (arith, len)))
    ]

cut-done :
    (s d rest : Text) (last : ℕ)
    → take (last - 1) (drop 1 s) ≡ d
    → drop (last + 1) s ≡ rest
    → cut_quoted s (some last) ≡ done (new (single_quotes d), rest)
unfolding cut_quoted
cut-done s d rest last p q = rw (p, q) refl

-- An identifier in UTF-8 without U+FFFD, the rune that stands for an error, that `String` has quoted
-- is parsed back by `ParseIdent`, which leaves just the text behind it, if that is empty or begins with
-- an ASCII character other than a quote.
pub parse_ident-atom_string :
    (s rest : Text)
    → IsText s
    → IsClear rest
    → parse_ident (atom_string (new s) ++ rest) ≡ done (new s, rest)
unfolding parse_ident parse_quoted atom_string
parse_ident-atom_string s rest text clear =
    let d = double_quotes s in
    let len = length-append d (quote ∷ rest) in
    let assoc : (d ++ quote ∷ []) ++ rest ≡ d ++ quote ∷ rest = append_assoc d (quote ∷ []) rest in
    let whole : length (quote ∷ (d ++ quote ∷ rest)) ≡ suc (length (d ++ quote ∷ rest)) = refl in
    let scan =
      scan-double (length (quote ∷ (d ++ quote ∷ rest))) 1 0 none s rest text clear
        (λ q. omega (arith, q)) (omega arith) in
    let inner : take (1 + length d - 1) (d ++ quote ∷ rest) ≡ d =
      take-length d (quote ∷ rest) (1 + length d - 1) (omega arith) in
    let outer : drop (1 + length d + 1) (quote ∷ (d ++ quote ∷ rest)) ≡ rest =
      ap (λ x. drop (1 + length d + 1) (quote ∷ x)) (sym assoc)
      ∙ drop-append (quote ∷ (d ++ quote ∷ [])) rest (1 + length d + 1)
          (omega (arith, length-append d (quote ∷ []))) in
    rw assoc (
      ap (λ o. o >>= cut_quoted (quote ∷ (d ++ quote ∷ rest))) scan
      ∙ cut-done (quote ∷ (d ++ quote ∷ rest)) d rest (1 + length d) inner outer
      ∙ ap (λ x. done (new x, rest)) (single-double s))
