-- ===== src/Hlc/Text/RoundTrip/Tests.antt =====
-- Runs and instances of the text of times.
use cdc_sink.Base.{ℕ, ◌≡◌, refl, none, some, List, [], ◌∷◌, arith}
use cdc_sink.Hlc.Sample.{at, at-IsTime}
use cdc_sink.Hlc.Decimal.{
  digits, decimal, format_int, format_padded, zeros, split, parse_int, parse_uint_any, atoi,
}
use cdc_sink.Hlc.Text.{to_text, parse, scan, text, bytes}
use cdc_sink.Hlc.Text.RoundTrip.{parse-to_text}

-- "12.0000000034"
abbrev sample : List ℕ
sample =
    b'1' ∷ b'2' ∷ b'.' ∷ b'0' ∷ b'0' ∷ b'0' ∷ b'0' ∷ b'0' ∷ b'0' ∷ b'0' ∷ b'0' ∷ b'3' ∷ b'4' ∷ []

to_text_run : to_text (at 12 34) ≡ sample
unfolding to_text format_int format_padded decimal digits zeros
to_text_run = refl

-- "0x1f.0" and "3_0.0" are read, "12.34" is not.
parse_runs :
    (parse sample ≡ some (at 12 34))
    × (parse (b'0' ∷ b'x' ∷ b'1' ∷ b'f' ∷ b'.' ∷ b'0' ∷ []) ≡ some (at 31 0))
    × (parse (b'3' ∷ b'_' ∷ b'0' ∷ b'.' ∷ b'0' ∷ []) ≡ some (at 30 0))
    × (parse (b'1' ∷ b'2' ∷ b'.' ∷ b'3' ∷ b'4' ∷ []) ≡ none)
unfolding parse split parse_int parse_uint_any atoi
parse_runs = (refl, refl, refl, refl)

scan_run : scan (text (b'0' ∷ [])) ≡ some (at 0 0)
unfolding scan
scan_run = refl

parse-to_text_example :
    (parse (to_text (at 12 34)) ≡ some (at 12 34))
    × (scan (text (to_text (at 12 34))) ≡ some (at 12 34))
    × (scan (bytes (to_text (at 12 34))) ≡ some (at 12 34))
parse-to_text_example =
    parse-to_text (at 12 34) (at-IsTime 12 34 (omega arith) (omega arith)) (omega arith)
