-- ===== src/Ident/Utf8.antt =====
-- `utf8.DecodeRuneInString` of Go's standard library.
use cdc_sink.Base.{
  ℕ, ◌+◌, ◌-◌, ◌*◌, ◌≤◌, ◌<◌, ◌≡◌, ◌≢◌, Bool, ◌&&◌, List, [], ◌∷◌, ◌++◌, leb, ltb, eqb, ◌⊎◌,
  if◌then◌else◌, arith, length,
}

abbrev pub rune_error : ℕ
rune_error = 0xFFFD

abbrev in_range : ℕ → ℕ → ℕ → Bool
in_range lo hi b = leb lo b && leb b hi

-- A rune and the number of its bytes; an error takes one byte.
abbrev malformed : ℕ × ℕ
malformed = (rune_error, 1)

decode_two : ℕ → List ℕ → ℕ × ℕ
decode_two b0 [] = malformed
decode_two b0 (b1 ∷ s) =
    if in_range 0x80 0xBF b1 then ((b0 - 0xC0) * 64 + (b1 - 0x80), 2) else malformed

-- The bounds of the second byte depend on the first.
decode_three : ℕ → List ℕ → ℕ × ℕ
decode_three b0 [] = malformed
decode_three b0 (b1 ∷ []) = malformed
decode_three b0 (b1 ∷ b2 ∷ s) =
    let lo = if eqb b0 0xE0 then 0xA0 else 0x80 in
    let hi = if eqb b0 0xED then 0x9F else 0xBF in
    if in_range lo hi b1 && in_range 0x80 0xBF b2
    then ((b0 - 0xE0) * 4096 + (b1 - 0x80) * 64 + (b2 - 0x80), 3)
    else malformed

decode_four : ℕ → List ℕ → ℕ × ℕ
decode_four b0 [] = malformed
decode_four b0 (b1 ∷ []) = malformed
decode_four b0 (b1 ∷ b2 ∷ []) = malformed
decode_four b0 (b1 ∷ b2 ∷ b3 ∷ s) =
    let lo = if eqb b0 0xF0 then 0x90 else 0x80 in
    let hi = if eqb b0 0xF4 then 0x8F else 0xBF in
    if in_range lo hi b1 && (in_range 0x80 0xBF b2 && in_range 0x80 0xBF b3)
    then ((b0 - 0xF0) * 262144 + (b1 - 0x80) * 4096 + (b2 - 0x80) * 64 + (b3 - 0x80), 4)
    else malformed

-- Of the empty text it is an error of no bytes.
unfoldable pub decode_rune : List ℕ → ℕ × ℕ
unfolding decode_two decode_three decode_four
decode_rune [] = (rune_error, 0)
decode_rune (b0 ∷ s) =
    if ltb b0 0x80
    then (b0, 1)
    else if in_range 0xC2 0xDF b0
    then decode_two b0 s
    else if in_range 0xE0 0xEF b0
    then decode_three b0 s
    else if in_range 0xF0 0xF4 b0
    then decode_four b0 s
    else malformed

-- The bytes of one rune, of each length.
pub data IsRune : List ℕ → ℕ → Type 0 where
  one : (b : ℕ) → b < 0x80 → IsRune (b ∷ []) b
  two :
      (b0 b1 : ℕ)
      → (0xC2 ≤ b0) × (b0 ≤ 0xDF)
      → (0x80 ≤ b1) × (b1 ≤ 0xBF)
      → IsRune (b0 ∷ b1 ∷ []) ((b0 - 0xC0) * 64 + (b1 - 0x80))
  three :
      (b0 b1 b2 : ℕ)
      → (0xE0 ≤ b0) × (b0 ≤ 0xEF)
      → ((b0 ≢ 0xE0) ⊎ (0xA0 ≤ b1)) × ((b0 ≢ 0xED) ⊎ (b1 ≤ 0x9F))
      → (0x80 ≤ b1) × (b1 ≤ 0xBF)
      → (0x80 ≤ b2) × (b2 ≤ 0xBF)
      → IsRune (b0 ∷ b1 ∷ b2 ∷ []) ((b0 - 0xE0) * 4096 + (b1 - 0x80) * 64 + (b2 - 0x80))
  four :
      (b0 b1 b2 b3 : ℕ)
      → (0xF0 ≤ b0) × (b0 ≤ 0xF4)
      → ((b0 ≢ 0xF0) ⊎ (0x90 ≤ b1)) × ((b0 ≢ 0xF4) ⊎ (b1 ≤ 0x8F))
      → (0x80 ≤ b1) × (b1 ≤ 0xBF)
      → (0x80 ≤ b2) × (b2 ≤ 0xBF)
      → (0x80 ≤ b3) × (b3 ≤ 0xBF)
      → IsRune
          (b0 ∷ b1 ∷ b2 ∷ b3 ∷ [])
          ((b0 - 0xF0) * 262144 + (b1 - 0x80) * 4096 + (b2 - 0x80) * 64 + (b3 - 0x80))

pub decode_rune-IsRune :
    {u : List ℕ} {r : ℕ} → IsRune u r → (s : List ℕ) → decode_rune (u ++ s) ≡ (r, length u)
unfolding decode_rune
decode_rune-IsRune (one b h) s = ground arith
decode_rune-IsRune (two b0 b1 h0 h1) s = ground arith
decode_rune-IsRune (three b0 b1 b2 h0 hb h1 h2) s = ground arith
decode_rune-IsRune (four b0 b1 b2 b3 h0 hb h1 h2 h3) s = ground arith
