-- ===== src/Hlc/Decimal.antt =====
-- Numbers as text: what internal/util/hlc/hlc.go uses of Go's fmt, strconv and strings. Text is a
-- list of bytes, and `none` is an error.
pub mod Laws
use cdc_sink.Base.{
  ℕ, zero, suc, ◌+◌, ◌-◌, ◌*◌, ◌/◌, ◌%◌, ◌^◌, ◌≡◌, Bool, true, false, not, ◌&&◌, ◌||◌, Option, none,
  some, List, [], ◌∷◌, ◌++◌, length, ltb, leb, eqb, if◌then◌else◌,
}
use cdc_sink.Base.Int.{ℤ, pos, negsuc, neg_part, pos_part, sub_ℕ}

-- The decimal digits of `n`, with a bound on their number.
unfoldable pub digits : ℕ → ℕ → List ℕ
digits zero n = []
digits (suc f) n =
    let front = digits f (n / 10) in if ltb n 10 then (48 + n) ∷ [] else front ++ (48 + n % 10) ∷ []

-- An int64 has at most 19 digits.
unfoldable pub decimal : ℕ → List ℕ
decimal n = digits 20 n

unfoldable pub zeros : ℕ → List ℕ
zeros zero = []
zeros (suc n) = b'0' ∷ zeros n

-- `%d`.
unfoldable pub format_int : ℤ → List ℕ
format_int (pos n) = decimal n
format_int (negsuc n) = b'-' ∷ decimal (n + 1)

-- `%010d`: the width counts the sign, and the zeros stand behind it.
unfoldable pub format_padded : ℤ → List ℕ
format_padded (pos n) = let d = decimal n in zeros (10 - length d) ++ d
format_padded (negsuc n) = let d = decimal (n + 1) in b'-' ∷ (zeros (9 - length d) ++ d)

-- strings.Split for a separator of one byte: the pieces, at least one.
unfoldable pub split_from : ℕ → List ℕ → List ℕ → List (List ℕ)
split_from sep piece [] = piece ∷ []
split_from sep piece (c ∷ s) =
    let ended = piece ∷ split_from sep [] s in
    let longer = split_from sep (piece ++ c ∷ []) s in if eqb c sep then ended else longer

unfoldable pub split : ℕ → List ℕ → List (List ℕ)
unfolding split_from
split sep s = split_from sep [] s

-- `lower` of strconv: `c | ('x' - 'X')`, for the bytes that are letters.
unfoldable pub lower : ℕ → ℕ
lower c = if leb b'A' c && leb c b'Z' then c + 32 else c

-- The value of a digit of any base up to 36.
unfoldable pub digit_value : ℕ → Option ℕ
unfolding lower
digit_value c =
    if leb b'0' c && leb c b'9'
    then some (c - b'0')
    else if leb b'a' (lower c) && leb (lower c) b'z'
    then some (lower c - b'a' + 10)
    else none

abbrev pub max_uint64 : ℕ
max_uint64 = 2 ^ 64 - 1

-- One digit of the loop of strconv.ParseUint: the tests keep `n * base + d` from wrapping.
unfoldable pub push_digit : ℕ → ℕ → ℕ → Option ℕ
push_digit base n d =
    if leb base d
    then none
    else if leb (max_uint64 / base + 1) n
    then none
    else if ltb max_uint64 (n * base + d)
    then none
    else some (n * base + d)

unfoldable pub bind_digit : Option ℕ → (ℕ → Option ℕ) → Option ℕ
bind_digit none f = none
bind_digit (some d) f = f d

-- One byte of the loop; underscores are passed over where the base is found from a prefix.
unfoldable pub accumulate : Bool → ℕ → ℕ → ℕ → Option ℕ
unfolding push_digit digit_value bind_digit
accumulate base0 base n c =
    if eqb c b'_' && base0 then some n else bind_digit (digit_value c) (push_digit base n)

-- The loop of strconv.ParseUint from the value `n`.
unfoldable pub parse_digits : Bool → ℕ → ℕ → List ℕ → Option ℕ
unfolding accumulate bind_digit
parse_digits base0 base n [] = some n
parse_digits base0 base n (c ∷ s) =
    bind_digit (accumulate base0 base n c) (λ m. parse_digits base0 base m s)

-- strconv's `underscoreOK` over the text behind sign and prefix: `saw_digit` and `saw_mark` say
-- whether a digit or an underscore came last.
unfoldable pub underscores_ok : Bool → Bool → List ℕ → Bool
unfolding lower
underscores_ok saw_digit saw_mark [] = not saw_mark
underscores_ok saw_digit saw_mark (c ∷ s) =
    let digit = underscores_ok true false s in
    let mark = saw_digit && underscores_ok false true s in
    let other = not saw_mark && underscores_ok false false s in
    if leb b'0' c && leb c b'9' || leb b'a' (lower c) && leb (lower c) b'f'
    then digit
    else if eqb c b'_'
    then mark
    else other

unfoldable pub has_mark : List ℕ → Bool
has_mark [] = false
has_mark (c ∷ s) = eqb c b'_' || has_mark s

-- Base 0: the base and the digits by the prefix, and whether a prefix was there.
unfoldable pub by_prefix : List ℕ → ℕ × List ℕ × Bool
unfolding lower
by_prefix (z ∷ p ∷ d ∷ s) =
    if eqb z b'0'
    then if eqb (lower p) b'b'
      then (2, d ∷ s, true)
      else if eqb (lower p) b'o'
      then (8, d ∷ s, true)
      else if eqb (lower p) b'x'
      then (16, d ∷ s, true)
      else (8, p ∷ d ∷ s, false)
    else (10, z ∷ p ∷ d ∷ s, false)
by_prefix (z ∷ s) = if eqb z b'0' then (8, s, false) else (10, z ∷ s, false)
by_prefix [] = (10, [], false)

-- strconv.ParseUint of a text that is not empty, with base 0.
unfoldable pub parse_uint_any : List ℕ → Option ℕ
unfolding by_prefix parse_digits underscores_ok has_mark
parse_uint_any s =
    let (base, rest, prefixed) = by_prefix s in
    -- a zero that stands for base 8 is itself a digit before an underscore
    let body = if prefixed then rest else s in
    if has_mark rest && not (underscores_ok prefixed false body)
    then none
    else parse_digits true base 0 rest

-- The sign's effect and the range of int64.
unfoldable pub with_sign : Bool → Option ℕ → Option ℤ
with_sign negative none = none
with_sign false (some n) = if leb (2 ^ 63) n then none else some (pos n)
with_sign true (some n) = if ltb (2 ^ 63) n then none else some (sub_ℕ 0 n)

-- A leading sign is taken off.
unfoldable pub signed : (List ℕ → Option ℕ) → List ℕ → Option ℤ
unfolding with_sign
signed parse [] = none
signed parse (c ∷ s) =
    if eqb c b'+'
    then with_sign false (parse s)
    else if eqb c b'-'
    then with_sign true (parse s)
    else with_sign false (parse (c ∷ s))

-- ParseUint refuses the empty text, in any base.
unfoldable pub nonempty : (List ℕ → Option ℕ) → List ℕ → Option ℕ
nonempty parse [] = none
nonempty parse (c ∷ s) = parse (c ∷ s)

-- strconv.ParseInt(s, 0, 0).
unfoldable pub parse_int : List ℕ → Option ℤ
unfolding signed nonempty parse_uint_any
parse_int s = signed (nonempty parse_uint_any) s

-- strconv.Atoi: base 10, and no prefix or underscore.
unfoldable pub atoi : List ℕ → Option ℤ
unfolding signed nonempty parse_digits
atoi s = signed (nonempty (parse_digits false 10 0)) s
