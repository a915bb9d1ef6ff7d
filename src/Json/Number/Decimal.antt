-- ===== src/Json/Number/Decimal.antt =====
-- A printed integer is a valid literal.
use audio_service.Base.{
  ℕ, zero, suc, ◌≡◌, refl, ◌∙◌, inl, inr, true, Bool-cases, some, [], ◌∷◌, ◌++◌, arith,
}
use audio_service.Base.Int.{ℤ, pos, negsuc}
use audio_service.Base.Text.{Text, is_digit, itoa, digits}
use audio_service.Base.Text.Decimal.{
  all_digits, IsNumeral, digits-all, digits-IsNumeral, digits-zero, itoa-negative, itoa-pos,
}
use audio_service.Json.Number.{
  digit_span, digit_rest, digits_after, integer_after, fraction_after, exponent_after,
  signed_integer, number, is_valid_number,
}

span-all : (s : Text) → all_digits s ≡ true → digit_span s ≡ s
unfolding digit_span
span-all [] h = refl
span-all (c ∷ s) h = elim (Bool-cases (is_digit c)) [
  | inl e ↦ rw e (rw (span-all s (rw e at h)) refl)
  | inr e ↦ cc (rw e at h)
]

rest-all : (s : Text) → all_digits s ≡ true → digit_rest s ≡ []
unfolding digit_rest
rest-all [] h = refl
rest-all (c ∷ s) h = elim (Bool-cases (is_digit c)) [
  | inl e ↦ rw e (rest-all s (rw e at h))
  | inr e ↦ cc (rw e at h)
]

digits_after-all :
    (read : Text) (c : ℕ) (t : Text)
    → all_digits (c ∷ t) ≡ true
    → digits_after read (c ∷ t) ≡ some (read ++ c ∷ t, [])
unfolding digits_after
digits_after-all read c t h = rw (span-all (c ∷ t) h) (rw (rest-all (c ∷ t) h) refl)

-- A numeral is an integer part.
numeral-integer :
    (read s : Text)
    → IsNumeral s
    → all_digits s ≡ true
    → integer_after read s ≡ some (read ++ s, [])
unfolding integer_after digits_after
numeral-integer read s l h =
    rw l.at (rw l.positive (digits_after-all read l.first l.tail (rw l.at at h)))

signed-digit :
    (c : ℕ) (t : Text) → is_digit c ≡ true → signed_integer (c ∷ t) ≡ integer_after [] (c ∷ t)
unfolding signed_integer
signed-digit c t h = ground arith

numeral-signed : (s : Text) → IsNumeral s → signed_integer s ≡ integer_after [] s
numeral-signed s l = rw l.at (signed-digit l.first l.tail l.digit)

valid-integer : (s t : Text) → signed_integer s ≡ some (t, []) → is_valid_number s ≡ true
unfolding is_valid_number number fraction_after exponent_after
valid-integer s t h = rw h refl

signed-zero : signed_integer (b'0' ∷ []) ≡ some (b'0' ∷ [], [])
unfolding signed_integer integer_after
signed-zero = refl

signed-negative : (s : Text) → signed_integer (b'-' ∷ s) ≡ integer_after (b'-' ∷ []) s
unfolding signed_integer
signed-negative s = refl

pub itoa-valid : (n : ℤ) → is_valid_number (itoa n) ≡ true
itoa-valid (pos zero) = rw (itoa-pos 0) (rw digits-zero (valid-integer _ _ signed-zero))
itoa-valid (pos (suc n)) =
    let s = digits (suc n) in
    let l = digits-IsNumeral (suc n) (omega arith) in
    rw (itoa-pos (suc n))
      (valid-integer s s (numeral-signed s l ∙ numeral-integer [] s l (digits-all (suc n))))
itoa-valid (negsuc n) =
    let s = digits (suc n) in
    let l = digits-IsNumeral (suc n) (omega arith) in
    rw (itoa-negative n) (
      valid-integer (b'-' ∷ s) (b'-' ∷ s)
        (signed-negative s ∙ numeral-integer (b'-' ∷ []) s l (digits-all (suc n))))
