-- ===== src/Hlc/Text.antt =====
-- internal/util/hlc/hlc.go: times as text. Text is a list of bytes.
pub mod RoundTrip
use cdc_sink.Base.{
  ℕ, ◌≡◌, Bool, true, false, not, ◌&&◌, Option, none, some, List, [], ◌∷◌, ◌++◌, length, eqb, leb,
  list_beq, nat_eq, if◌then◌else◌, ◌==◌,
}
use cdc_sink.Base.Int.{ℤ, pos, int_eq, ltb_ℤ}
use cdc_sink.Hlc.{Time, zero_time}
use cdc_sink.Hlc.Decimal.{format_int, format_padded, split, parse_int, atoi}

-- `String`.
unfoldable pub to_text : Time → List ℕ
to_text t = format_int t.nanos ++ (b'.' ∷ format_padded t.logical)

-- The checks of `Parse` from the logical part on; `Atoi` fails last, after the test of the length.
unfoldable pub parse_logical : ℤ → List ℕ → Option Time
parse_logical nanos text = elim (atoi text) [
  | none ↦ none
  | some logical ↦
      if not (eqb (length text) 10) && not (logical == pos 0)
      then none
      else some (record { nanos = nanos; logical = logical })
]

unfoldable pub parse_parts : List (List ℕ) → Option Time
unfolding parse_logical
parse_parts (first ∷ second ∷ []) = elim (parse_int first) [
  | none ↦ none
  | some nanos ↦ if ltb_ℤ nanos (pos 0) then none else parse_logical nanos second
]
parse_parts _ = none

-- `Parse`, with any error as `none`.
unfoldable pub parse : List ℕ → Option Time
unfolding parse_parts
parse timestamp = parse_parts (split b'.' timestamp)

-- What the database driver hands to `Scan`.
pub data Source : Type 0 where
  bytes : List ℕ → Source
  text : List ℕ → Source
  other : Source

scan_text : List ℕ → Option Time
scan_text s = if list_beq s (b'0' ∷ []) then some zero_time else parse s

-- The new value of the receiver, or none where `Scan` reports an error and leaves it alone.
unfoldable pub scan : Source → Option Time
unfolding scan_text list_beq
scan (bytes s) = scan_text s
scan (text s) = scan_text s
scan other = none
