-- ===== src/Hlc/Text/RoundTrip.antt =====
-- internal/util/hlc/hlc.go: `Parse` reads back what `String` prints.
mod Tests
use mathlib.Core.List.{append_assoc}
use cdc_sink.Base.{
  ℕ, ◌≡◌, ◌≢◌, refl, ap, sym, ◌∙◌, ◌^◌, ◌<◌, ◌≤◌, true, false, Option, none, some, List, [], ◌∷◌,
  ◌++◌, length, All, arith, append_nil, subst, inl, inr, Bool-cases, list_beq, list_beq_iff, nat_eq,
  length-append, eqb,
}
use cdc_sink.Base.Int.{ℤ, pos, negsuc, pos_part, neg_part}
use cdc_sink.Hlc.{Time}
use cdc_sink.Hlc.Order.{IsTime}
use cdc_sink.Hlc.Decimal.{format_int, format_padded, split, split_from, decimal, atoi, parse_int}
use cdc_sink.Hlc.Decimal.Laws.{
  IsDigit, decimal-IsDigit, padded-IsDigit, parse_int-format_int, atoi-format_padded, length-padded,
}
use cdc_sink.Hlc.Text.{to_text, parse, parse_parts, parse_logical, scan, text, bytes}

-- A piece with no separator in it is split off whole.
split_from-digits :
    (piece xs ys : List ℕ)
    → All IsDigit xs
    → split_from b'.' piece (xs ++ (b'.' ∷ ys)) ≡ (piece ++ xs) ∷ split_from b'.' [] ys
unfolding split_from
split_from-digits piece [] ys h = rw append_nil
split_from-digits piece (x ∷ xs) ys h =
    ground (arith, split_from-digits (piece ++ x ∷ []) xs ys h.1, append_assoc piece (x ∷ []) xs)

split_from-end :
    (piece xs : List ℕ) → All IsDigit xs → split_from b'.' piece xs ≡ (piece ++ xs) ∷ []
unfolding split_from
split_from-end piece [] h = rw append_nil
split_from-end piece (x ∷ xs) h =
    ground (arith, split_from-end (piece ++ x ∷ []) xs h.1, append_assoc piece (x ∷ []) xs)

abbrev of_parts : ℕ → ℕ → Time
of_parts n l = record { nanos = pos n; logical = pos l }

split-to_text :
    (n l : ℕ)
    → split b'.' (to_text (of_parts n l)) ≡ format_int (pos n) ∷ format_padded (pos l) ∷ []
unfolding split to_text format_int
split-to_text n l =
    split_from-digits [] (decimal n) (format_padded (pos l)) (decimal-IsDigit n)
    ∙ ap (λ r. decimal n ∷ r) (split_from-end [] (format_padded (pos l)) (padded-IsDigit l))

parse_parts-pair :
    (a b : List ℕ) (n l : ℕ)
    → parse_int a ≡ some (pos n)
    → atoi b ≡ some (pos l)
    → length b ≡ 10
    → parse_parts (a ∷ b ∷ []) ≡ some (of_parts n l)
unfolding parse_parts
parse_parts-pair a b n l ha hb len = ground arith

scan-long : (s : List ℕ) → 1 < length s → (scan (text s) ≡ parse s) × (scan (bytes s) ≡ parse s)
unfolding scan
scan-long s long = elim (Bool-cases (list_beq s (b'0' ∷ []))) [
  | inl e ↦ absurd (omega (arith, ap length ((list_beq_iff s (b'0' ∷ [])).0 e)))
  | inr e ↦ (rw e refl, rw e refl)
]

module _ (n l : ℕ) (fits : n < 2 ^ 63) (small : l < 10 ^ 10) where
  parse-parts : parse (to_text (of_parts n l)) ≡ some (of_parts n l)
  unfolding parse
  parse-parts = rw (split-to_text n l) (
      parse_parts-pair (format_int (pos n)) (format_padded (pos l)) n l
        (parse_int-format_int n fits) (atoi-format_padded l (omega arith)) (length-padded l small))

  long-to_text : 1 < length (to_text (of_parts n l))
  unfolding to_text
  long-to_text = omega (
    arith,
    length-append (format_int (pos n)) (b'.' ∷ format_padded (pos l)),
    length-padded l small,
  )

nonneg : (t : Time) → IsTime t → t ≡ of_parts (pos_part t.nanos) (pos_part t.logical)
nonneg t h = ground arith

-- A time with no negative part and a counter below 10^10 is printed by `String` so that `Parse`,
-- and `Scan` of either kind of text, give the same time back.
pub parse-to_text :
    (t : Time)
    → IsTime t
    → pos_part t.logical < 10 ^ 10
    → (parse (to_text t) ≡ some t)
      × (scan (text (to_text t)) ≡ some t)
      × (scan (bytes (to_text t)) ≡ some t)
parse-to_text t h small =
    let n = pos_part t.nanos in
    let l = pos_part t.logical in
    let e = nonneg t h in
    let back = parse-parts n l h.nanos_fits small in
    let both = scan-long (to_text (of_parts n l)) (long-to_text n l h.nanos_fits small) in
    subst
      (λ u.
        (parse (to_text u) ≡ some u)
        × (scan (text (to_text u)) ≡ some u)
        × (scan (bytes (to_text u)) ≡ some u))
      (sym e) (back, both.0 ∙ back, both.1 ∙ back)

-- Times with no negative part and counters below 10^10 that print alike are the same time.
pub to_text_injective :
    (t u : Time)
    → IsTime t
    → IsTime u
    → pos_part t.logical < 10 ^ 10
    → pos_part u.logical < 10 ^ 10
    → to_text t ≡ to_text u
    → t ≡ u
to_text_injective t u ht hu st su e =
    let same : some t ≡ some u =
      sym (parse-to_text t ht st).0 ∙ ap parse e ∙ (parse-to_text u hu su).0 in
    cc
