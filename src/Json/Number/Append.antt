-- ===== src/Json/Number/Append.antt =====
-- A literal of a number inside a document.
use audio_service.Base.{
  ℕ, ◌≡◌, refl, ap, ◌∙◌, sym, ==_iff, inl, inr, Bool, true, false, ◌||◌, Bool-cases, none, some, [],
  ◌∷◌, ◌++◌, ◌==◌, arith,
}
use audio_service.Base.Text.{Text, is_digit, is_empty}
use audio_service.Json.{Parsed, ◌>>=◌}
use audio_service.Json.Number.{
  digit_span, digit_rest, digits_after, integer_after, fraction_after, signed_digits,
  exponent_after, signed_integer, number, whole_literal, is_valid_number,
}
use mathlib.Core.List.{append_assoc, append-nil}
use mathlib.Core.Path.{ap₂}

-- The end of a document, and what may follow a value inside it.
abbrev pub stops : Text → Bool
stops [] = true
stops (c ∷ s) = c == b',' || (c == b']' || c == b'}')

span-append : (s rest : Text) → stops rest ≡ true → digit_span (s ++ rest) ≡ digit_span s
unfolding digit_span
span-append [] [] h = refl
span-append [] (c ∷ rest) h = ground arith
span-append (c ∷ s) rest h = rw (span-append s rest h) refl

rest-append : (s rest : Text) → stops rest ≡ true → digit_rest (s ++ rest) ≡ digit_rest s ++ rest
unfolding digit_rest
rest-append [] [] h = refl
rest-append [] (c ∷ rest) h = ground arith
rest-append (c ∷ s) rest h = elim (Bool-cases (is_digit c)) [
  | inl e ↦ rw e (rest-append s rest h)
  | inr e ↦ rw e refl
]

span-whole : (s : Text) → digit_span s ++ digit_rest s ≡ s
unfolding digit_span digit_rest
span-whole [] = refl
span-whole (c ∷ s) = elim (Bool-cases (is_digit c)) [
  | inl e ↦ rw e (ap (λ t. c ∷ t) (span-whole s))
  | inr e ↦ rw e refl
]

-- A reader that reads a text in the same way before what may follow.
abbrev Reader : Type 0
Reader = Text → Text → Parsed Text

abbrev Steady : Reader → Type 0
Steady f =
    (read s rest r t : Text)
    → stops rest ≡ true
    → f read s ≡ some (r, t)
    → (f read (s ++ rest) ≡ some (r, t ++ rest)) × (r ++ t ≡ read ++ s)

-- What was read, in two parts.
parts : {a b r t : Text} → ◌≡◌ {A = Parsed Text} (some (a, b)) (some (r, t)) → (a ≡ r) × (b ≡ t)
parts {a} {b} e =
    (ap (λ o. elim o [ none ↦ a | some p ↦ p.0 ]) e, ap (λ o. elim o [ none ↦ b | some p ↦ p.1 ]) e)

digits_after-Steady : Steady digits_after
unfolding digits_after
digits_after-Steady read s rest r t h e = elim (Bool-cases (is_empty (digit_span s))) [
  | inl b ↦ cc (rw b at e)
  | inr b ↦
      let (p, q) = parts (rw b at e) in
      (
        rw (span-append s rest h) (rw (rest-append s rest h) (rw b (rw p (rw q refl)))),
        ap₂ (λ x y. x ++ y) (sym p) (sym q)
            ∙ (append_assoc read (digit_span s) (digit_rest s)
                ∙ ap (λ x. read ++ x) (span-whole s)),
      )
]

-- One character more was read.
read_on :
    (read : Text) (c : ℕ) (s r t : Text) → r ++ t ≡ (read ++ c ∷ []) ++ s → r ++ t ≡ read ++ c ∷ s
read_on read c s r t e = e ∙ append_assoc read (c ∷ []) s

one_digit-Steady :
    (read s rest r t : Text)
    → ◌≡◌ {A = Parsed Text} (some (read ++ b'0' ∷ [], s)) (some (r, t))
    → (◌≡◌ {A = Parsed Text} (some (read ++ b'0' ∷ [], s ++ rest)) (some (r, t ++ rest)))
      × (r ++ t ≡ read ++ b'0' ∷ s)
one_digit-Steady read s rest r t e =
    let (p, q) = parts e in
    (rw p (rw q refl), read_on read b'0' s r t (ap₂ (λ x y. x ++ y) (sym p) (sym q)))

integer_after-Steady : Steady integer_after
unfolding integer_after
integer_after-Steady read [] rest r t h e = cc
integer_after-Steady read (c ∷ s) rest r t h e = elim (Bool-cases (c == b'0')) [
  | inl z ↦ rw ((==_iff c b'0').0 z) (one_digit-Steady read s rest r t (rw z at e))
  | inr z ↦ rw z (digits_after-Steady read (c ∷ s) rest r t h (rw z at e))
]

-- A part that is not there.
absent :
    {read s r t : Text} (rest : Text)
    → ◌≡◌ {A = Parsed Text} (some (read, s)) (some (r, t))
    → (◌≡◌ {A = Parsed Text} (some (read, s ++ rest)) (some (r, t ++ rest))) × (r ++ t ≡ read ++ s)
absent rest e = let (p, q) = parts e in (rw p (rw q refl), ap₂ (λ x y. x ++ y) (sym p) (sym q))

fraction-none :
    (read rest : Text) → stops rest ≡ true → fraction_after read rest ≡ some (read, rest)
unfolding fraction_after
fraction-none read [] h = refl
fraction-none read (c ∷ rest) h = ground arith

fraction_after-Steady : Steady fraction_after
unfolding fraction_after
fraction_after-Steady read [] rest r t h e =
    let (p, q) = absent rest e in (fraction-none read rest h ∙ p, q)
fraction_after-Steady read (c ∷ s) rest r t h e = elim (Bool-cases (c == b'.')) [
  | inl z ↦
      let (p, q) = digits_after-Steady (read ++ c ∷ []) s rest r t h (rw z at e) in
      (rw z p, read_on read c s r t q)
  | inr z ↦ rw z (absent rest (rw z at e))
]

signed_digits-Steady : Steady signed_digits
unfolding signed_digits
signed_digits-Steady read [] rest r t h e = cc
signed_digits-Steady read (c ∷ s) rest r t h e = elim (Bool-cases (c == b'+' || c == b'-')) [
  | inl z ↦
      let (p, q) = digits_after-Steady (read ++ c ∷ []) s rest r t h (rw z at e) in
      (rw z p, read_on read c s r t q)
  | inr z ↦ rw z (digits_after-Steady read (c ∷ s) rest r t h (rw z at e))
]

exponent-none :
    (read rest : Text) → stops rest ≡ true → exponent_after read rest ≡ some (read, rest)
unfolding exponent_after
exponent-none read [] h = refl
exponent-none read (c ∷ rest) h = ground arith

exponent_after-Steady : Steady exponent_after
unfolding exponent_after
exponent_after-Steady read [] rest r t h e =
    let (p, q) = absent rest e in (exponent-none read rest h ∙ p, q)
exponent_after-Steady read (c ∷ s) rest r t h e = elim (Bool-cases (c == b'e' || c == b'E')) [
  | inl z ↦
      let (p, q) = signed_digits-Steady (read ++ c ∷ []) s rest r t h (rw z at e) in
      (rw z p, read_on read c s r t q)
  | inr z ↦ rw z (absent rest (rw z at e))
]

-- The first stage has read nothing before.
signed_integer-Steady :
    (s rest r t : Text)
    → stops rest ≡ true
    → signed_integer s ≡ some (r, t)
    → (signed_integer (s ++ rest) ≡ some (r, t ++ rest)) × (r ++ t ≡ s)
unfolding signed_integer
signed_integer-Steady [] rest r t h e = cc
signed_integer-Steady (c ∷ s) rest r t h e = elim (Bool-cases (c == b'-')) [
  | inl z ↦ let (p, q) = integer_after-Steady (c ∷ []) s rest r t h (rw z at e) in (rw z p, q)
  | inr z ↦ let (p, q) = integer_after-Steady [] (c ∷ s) rest r t h (rw z at e) in (rw z p, q)
]

bind-some :
    {A B : Type 0} (o : Parsed A) (f : A × Text → Parsed B) {r : B × Text}
    → (o >>= f) ≡ some r
    → (p : A × Text) × (o ≡ some p) × (f p ≡ some r)
bind-some none f h = cc
bind-some (some p) f h = (p, refl, h)

-- A number is read in the same way before what may follow it.
number-append :
    (s rest r t : Text)
    → stops rest ≡ true
    → number s ≡ some (r, t)
    → (number (s ++ rest) ≡ some (r, t ++ rest)) × (r ++ t ≡ s)
unfolding number
number-append s rest r t h e =
    let ((w, s1), e1, d1) = bind-some (signed_integer s) _ e in
    let ((f, s2), e2, e3) = bind-some (fraction_after w s1) _ d1 in
    let (p1, q1) = signed_integer-Steady s rest w s1 h e1 in
    let (p2, q2) = fraction_after-Steady w s1 rest f s2 h e2 in
    let (p3, q3) = exponent_after-Steady f s2 rest r t h e3 in (rw p1 (rw p2 p3), q3 ∙ (q2 ∙ q1))

valid_rest : (o : Parsed Text) → whole_literal o ≡ true → (r : Text) × (o ≡ some (r, []))
valid_rest none h = cc
valid_rest (some (r, [])) h = (r, refl)
valid_rest (some (r, c ∷ t)) h = cc

-- A valid number is the literal that is read before what may follow it.
pub number-literal :
    (s rest : Text)
    → is_valid_number s ≡ true
    → stops rest ≡ true
    → number (s ++ rest) ≡ some (s, rest)
unfolding is_valid_number
number-literal s rest valid h =
    let (r, e) = valid_rest (number s) valid in
    let (p, q) = number-append s rest r [] h e in
    p ∙ ap (λ x. some (x, rest)) (sym (append-nil r) ∙ q)

digits-first :
    (read : Text) (c : ℕ) (s : Text) {p : Text × Text}
    → digits_after read (c ∷ s) ≡ some p
    → is_digit c ≡ true
unfolding digits_after digit_span
digits-first read c s h = elim (Bool-cases (is_digit c)) [ inl e ↦ e | inr e ↦ cc (rw e at h) ]

integer-first :
    (read : Text) (c : ℕ) (s : Text) {p : Text × Text}
    → integer_after read (c ∷ s) ≡ some p
    → is_digit c ≡ true
unfolding integer_after
integer-first read c s h = elim (Bool-cases (c == b'0')) [
  | inl e ↦ ground (arith, (==_iff c b'0').0 e)
  | inr e ↦ digits-first read c s (rw e at h)
]

-- Its first character.
pub number-first :
    (c : ℕ) (s : Text) → is_valid_number (c ∷ s) ≡ true → (c == b'-') || is_digit c ≡ true
unfolding is_valid_number number signed_integer
number-first c s valid =
    let (r, e) = valid_rest (number (c ∷ s)) valid in
    let (p, first, later) = bind-some (signed_integer (c ∷ s)) _ e in
    elim (Bool-cases (c == b'-')) [
      | inl z ↦ rw z refl
      | inr z ↦ rw z (integer-first [] c s (rw z at first))
    ]

pub empty-invalid : is_valid_number [] ≡ false
unfolding is_valid_number number signed_integer
empty-invalid = refl
