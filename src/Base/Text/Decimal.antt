-- ===== src/Base/Text/Decimal.antt =====
-- strconv.Itoa and strconv.ParseInt on each other's results.
use audio_service.Base.{
  ℕ, zero, suc, ◌+◌, ◌*◌, ◌/◌, ◌%◌, ◌≤◌, ◌<◌, ◌≡◌, refl, ap, ◌∙◌, inl, inr, Bool, true, false, ◌&&◌,
  some, [], ◌∷◌, ltb, ◌==◌, Bool-cases, arith,
}
use audio_service.Base.Int.{ℤ, pos, negsuc, IsInt64, half64}
use audio_service.Base.Text.{
  Text, is_digit, digits_value, unsigned, in_range, parse_int, digits_before, digits, itoa,
}

-- The last digit, put before what follows it.
digit-value :
    (acc d : ℕ) (tail : Text)
    → d < 10
    → digits_value acc ((b'0' + d) ∷ tail) ≡ digits_value (10 * acc + d) tail
unfolding digits_value
digit-value acc d tail h = ground arith

digits_before-value :
    (fuel n : ℕ) (tail : Text)
    → n < fuel
    → digits_value 0 (digits_before fuel n tail) ≡ digits_value n tail
unfolding digits_before
digits_before-value zero n tail h = absurd (omega arith)
digits_before-value (suc fuel) n tail h = elim (Bool-cases (ltb n 10)) [
  | inl e ↦
      rw e
        (digit-value 0 (n % 10) tail (omega arith) ∙ ap (λ k. digits_value k tail) (ground arith))
  | inr e ↦ rw e (
      digits_before-value fuel (n / 10) ((b'0' + n % 10) ∷ tail) (ground arith)
      ∙ (digit-value (n / 10) (n % 10) tail (omega arith)
          ∙ ap (λ k. digits_value k tail) (omega arith)))
]

abbrev pub all_digits : Text → Bool
all_digits [] = true
all_digits (c ∷ s) = is_digit c && all_digits s

digits_before-all :
    (fuel n : ℕ) (tail : Text)
    → all_digits tail ≡ true
    → all_digits (digits_before fuel n tail) ≡ true
unfolding digits_before
digits_before-all zero n tail h = h
digits_before-all (suc fuel) n tail h =
    let more : all_digits ((b'0' + n % 10) ∷ tail) ≡ true = ground arith in
    elim (Bool-cases (ltb n 10)) [
      | inl e ↦ rw e more
      | inr e ↦ rw e (digits_before-all fuel (n / 10) ((b'0' + n % 10) ∷ tail) more)
    ]

-- The first digit of a positive number.
pub record IsNumeral (s : Text) : Type 0 where
  pub first : ℕ
  pub tail : Text
  pub at : s ≡ first ∷ tail
  pub digit : is_digit first ≡ true
  pub positive : (first == b'0') ≡ false

digits_before-IsNumeral :
    (fuel n : ℕ) (tail : Text) → n < fuel → 0 < n → IsNumeral (digits_before fuel n tail)
unfolding digits_before
digits_before-IsNumeral zero n tail h p = absurd (omega arith)
digits_before-IsNumeral (suc fuel) n tail h p = elim (Bool-cases (ltb n 10)) [
  | inl e ↦ rw e (record {
    first = b'0' + n % 10;
    tail = tail;
    at = refl;
    digit = ground arith;
    positive = ground arith;
  })
  | inr e ↦
      rw e (
        digits_before-IsNumeral fuel (n / 10) ((b'0' + n % 10) ∷ tail) (ground arith)
          (ground arith))
]

pub digits-value : (n : ℕ) → digits_value 0 (digits n) ≡ some n
unfolding digits digits_value
digits-value n = digits_before-value (suc n) n [] (omega arith)

pub digits-all : (n : ℕ) → all_digits (digits n) ≡ true
unfolding digits
digits-all n = digits_before-all (suc n) n [] refl

pub digits-IsNumeral : (n : ℕ) → 0 < n → IsNumeral (digits n)
unfolding digits
digits-IsNumeral n h = digits_before-IsNumeral (suc n) n [] (omega arith) h

pub digits-zero : digits 0 ≡ b'0' ∷ []
unfolding digits digits_before
digits-zero = refl

unsigned-IsNumeral : (s : Text) → IsNumeral s → unsigned s ≡ digits_value 0 s
unfolding unsigned
unsigned-IsNumeral s l = rw l.at refl

parse_int-IsNumeral : (s : Text) → IsNumeral s → parse_int s ≡ in_range false (unsigned s)
unfolding parse_int
parse_int-IsNumeral s l = rw l.at (first_digit l.first l.tail l.digit)
  where
    first_digit :
        (c : ℕ) (t : Text)
        → is_digit c ≡ true
        → parse_int (c ∷ t) ≡ in_range false (unsigned (c ∷ t))
    first_digit c t h = ground arith

digits-unsigned : (n : ℕ) → 0 < n → unsigned (digits n) ≡ some n
digits-unsigned n h = unsigned-IsNumeral (digits n) (digits-IsNumeral n h) ∙ digits-value n

in_range-small : (n : ℕ) → n < half64 → in_range false (some n) ≡ some (pos n)
in_range-small n h = ground arith

in_range-negative : (n : ℕ) → suc n ≤ half64 → in_range true (some (suc n)) ≡ some (negsuc n)
in_range-negative n h = ground arith

parse_int-negative : (s : Text) → parse_int (b'-' ∷ s) ≡ in_range true (unsigned s)
unfolding parse_int
parse_int-negative s = refl

pub itoa-negative : (n : ℕ) → itoa (negsuc n) ≡ b'-' ∷ digits (suc n)
unfolding itoa
itoa-negative n = refl

pub itoa-pos : (n : ℕ) → itoa (pos n) ≡ digits n
unfolding itoa
itoa-pos n = refl

parse_int-zero : parse_int (b'0' ∷ []) ≡ some (pos 0)
unfolding parse_int
parse_int-zero = refl

-- An int64 that is printed is read back.
pub parse_int-itoa : (n : ℤ) → IsInt64 n → parse_int (itoa n) ≡ some n
parse_int-itoa (pos zero) h = rw (itoa-pos 0) (rw digits-zero parse_int-zero)
parse_int-itoa (pos (suc n)) h = rw (itoa-pos (suc n)) (
    parse_int-IsNumeral (digits (suc n)) (digits-IsNumeral (suc n) (omega arith))
    ∙ rw (digits-unsigned (suc n) (omega arith)) (in_range-small (suc n) h.0))
parse_int-itoa (negsuc n) h = rw (itoa-negative n) (
    parse_int-negative (digits (suc n))
    ∙ rw (digits-unsigned (suc n) (omega arith)) (in_range-negative n h.1))
