-- ===== src/Json/Strings/RoundTrip.antt =====
-- The literal of a string is read as the string.
use audio_service.Base.{
  ℕ, zero, suc, ◌/◌, ◌%◌, ◌<◌, ◌≡◌, refl, ap, inl, inr, true, false, ◌||◌, Bool-cases, some, [],
  ◌∷◌, length, ltb, ◌==◌, arith,
}
use audio_service.Base.Text.{Text}
use audio_service.Json.Print.{hex_char, print_char, print_chars}
use audio_service.Json.Strings.{hex_digit, hex4, from_unit, escape, prepend, chars}

hex_digit-hex_char : (n : ℕ) → n < 16 → hex_digit (hex_char n) ≡ some n
unfolding hex_digit
hex_digit-hex_char n h = ground arith

-- A control character as its four digits.
control :
    (c : ℕ) (t : Text)
    → c < 32
    → hex4 (b'0' ∷ b'0' ∷ hex_char (c / 16) ∷ hex_char (c % 16) ∷ t) ≡ some (c, t)
unfolding hex4 hex_digit
control c t h =
    rw (hex_digit-hex_char (c / 16) (omega arith))
      (rw (hex_digit-hex_char (c % 16) (omega arith)) (ap (λ n. some (n, t)) (omega arith)))

from_unit-small : (c : ℕ) (t : Text) → c < 32 → from_unit c t ≡ (c, t)
unfolding from_unit
from_unit-small c t h = ground arith

escape-control :
    (c : ℕ) (t : Text)
    → c < 32
    → escape (b'u' ∷ b'0' ∷ b'0' ∷ hex_char (c / 16) ∷ hex_char (c % 16) ∷ t) ≡ some (c, t)
unfolding escape
escape-control c t h = rw (control c t h) (ap some (from_unit-small c t h))

escape-quoted : (c : ℕ) (t : Text) → (c == b'"') || (c == 92) ≡ true → escape (c ∷ t) ≡ some (c, t)
unfolding escape
escape-quoted c t h = ground arith

chars-escape :
    (fuel c : ℕ) (s t : Text)
    → escape s ≡ some (c, t)
    → chars (suc fuel) (92 ∷ s) ≡ prepend c (chars fuel t)
unfolding chars
chars-escape fuel c s t h = rw h refl

chars-plain :
    (fuel c : ℕ) (t : Text)
    → (c == b'"') || (c == 92) ≡ false
    → ltb c 32 ≡ false
    → chars (suc fuel) (c ∷ t) ≡ prepend c (chars fuel t)
unfolding chars
chars-plain fuel c t h k = ground arith

char-print : (fuel c : ℕ) (t : Text) → chars (suc fuel) (print_char c t) ≡ prepend c (chars fuel t)
unfolding print_char
char-print fuel c t = elim (Bool-cases ((c == b'"') || (c == 92))) [
  | inl e ↦ rw e (chars-escape fuel c (c ∷ t) t (escape-quoted c t e))
  | inr e ↦ rw e (elim (Bool-cases (ltb c 32)) [
    | inl k ↦ rw k (chars-escape fuel c _ t (escape-control c t (ground arith)))
    | inr k ↦ rw k (chars-plain fuel c t e k)
  ])
]

pub chars-print :
    (s rest : Text) (fuel : ℕ) → length s < fuel → chars fuel (print_chars s rest) ≡ some (s, rest)
unfolding print_chars chars prepend
chars-print s rest zero h = absurd (omega arith)
chars-print [] rest (suc fuel) h = refl
chars-print (c ∷ s) rest (suc fuel) h =
    rw (char-print fuel c (print_chars s rest)) (rw (chars-print s rest fuel (omega arith)) refl)
