-- ===== src/Json/Number.antt =====
-- The literals of numbers.
pub mod Decimal
pub mod Append
use audio_service.Base.{Bool, false, ◌||◌, none, some, [], ◌∷◌, ◌++◌, ◌==◌, if◌then◌else◌}
use audio_service.Base.Text.{Text, is_digit, is_empty}
use audio_service.Json.{Parsed, ◌>>=◌}

digit_span : Text → Text
digit_span [] = []
digit_span (c ∷ s) = if is_digit c then c ∷ digit_span s else []

digit_rest : Text → Text
digit_rest [] = []
digit_rest (c ∷ s) = if is_digit c then digit_rest s else c ∷ s

-- At least one digit, after what was read already.
digits_after : Text → Text → Parsed Text
unfolding digit_span digit_rest
digits_after read s =
    if is_empty (digit_span s) then none else some (read ++ digit_span s, digit_rest s)

-- An integer part: 0, or digits that do not begin with 0.
integer_after : Text → Text → Parsed Text
unfolding digits_after
integer_after read [] = none
integer_after read (c ∷ s) =
    if c == b'0' then some (read ++ b'0' ∷ [], s) else digits_after read (c ∷ s)

fraction_after : Text → Text → Parsed Text
unfolding digits_after
fraction_after read [] = some (read, [])
fraction_after read (c ∷ s) =
    if c == b'.' then digits_after (read ++ c ∷ []) s else some (read, c ∷ s)

signed_digits : Text → Text → Parsed Text
unfolding digits_after
signed_digits read [] = none
signed_digits read (c ∷ s) =
    if c == b'+' || c == b'-' then digits_after (read ++ c ∷ []) s else digits_after read (c ∷ s)

exponent_after : Text → Text → Parsed Text
unfolding signed_digits
exponent_after read [] = some (read, [])
exponent_after read (c ∷ s) =
    if c == b'e' || c == b'E' then signed_digits (read ++ c ∷ []) s else some (read, c ∷ s)

signed_integer : Text → Parsed Text
unfolding integer_after
signed_integer [] = none
signed_integer (c ∷ s) = if c == b'-' then integer_after (c ∷ []) s else integer_after [] (c ∷ s)

unfoldable pub number : Text → Parsed Text
unfolding signed_integer fraction_after exponent_after
number s = do
  (whole, s') ← signed_integer s
  (fractional, t) ← fraction_after whole s'
  exponent_after fractional t

abbrev whole_literal : Parsed Text → Bool
whole_literal none = false
whole_literal (some (_, rest)) = is_empty rest

-- isValidNumber
unfoldable pub is_valid_number : Text → Bool
unfolding number
is_valid_number s = whole_literal (number s)
