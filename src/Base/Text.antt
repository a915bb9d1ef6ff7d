-- ===== src/Base/Text.antt =====
-- Go strings as lists of code points, and the functions of the packages strings and strconv that
-- the program calls.
pub mod Laws
pub mod Decimal
pub mod Trim
use Prim.Native.Char.{code}
use Prim.Native.String.{String}
use audio_service.Base.{
  ℕ, zero, suc, ◌+◌, ◌-◌, ◌*◌, ◌/◌, ◌%◌, ◌≤◌, ◌<◌, Bool, true, false, ◌&&◌, ◌||◌, Option, none,
  some, List, [], ◌∷◌, ◌++◌, map, ltb, leb, ◌==◌, if◌then◌else◌,
}
use audio_service.Base.Int.{ℤ, pos, negsuc, half64, sub_ℕ}

abbrev pub Text : Type 0
Text = List ℕ

abbrev pub codes : String → Text
codes String.[] = []
codes (String.◌∷◌ c s) = code c ∷ codes s

abbrev pub newline : ℕ
newline = 10

abbrev pub is_empty : Text → Bool
is_empty [] = true
is_empty (_ ∷ _) = false

unfoldable pub text_eq : Text → Text → Bool
text_eq [] [] = true
text_eq [] (_ ∷ _) = false
text_eq (_ ∷ _) [] = false
text_eq (c ∷ s) (d ∷ t) = c == d && text_eq s t

-- unicode.IsSpace
unfoldable pub is_space : ℕ → Bool
is_space c =
    (leb 9 c && leb c 13)
    || (c == 0x20
        || (c == 0x85
            || (c == 0xa0
                || (c == 0x1680
                    || ((leb 0x2000 c && leb c 0x200a)
                        || (c == 0x2028
                            || (c == 0x2029 || (c == 0x202f || (c == 0x205f || c == 0x3000)))))))))

unfoldable pub trim_left : Text → Text
trim_left [] = []
trim_left (c ∷ s) = if is_space c then trim_left s else c ∷ s

-- Puts a character before a text whose right end is trimmed.
unfoldable pub before_trimmed : ℕ → Text → Text
before_trimmed c [] = if is_space c then [] else c ∷ []
before_trimmed c (d ∷ s) = c ∷ d ∷ s

unfoldable pub trim_right : Text → Text
trim_right [] = []
trim_right (c ∷ s) = before_trimmed c (trim_right s)

-- strings.TrimSpace
unfoldable pub trim_space : Text → Text
unfolding trim_left trim_right before_trimmed is_space
trim_space s = trim_right (trim_left s)

-- `strings.TrimSpace(s) == ""`
unfoldable pub is_blank : Text → Bool
unfolding trim_space
is_blank s = is_empty (trim_space s)

-- strings.HasPrefix
unfoldable pub has_prefix : Text → Text → Bool
has_prefix [] s = true
has_prefix (_ ∷ _) [] = false
has_prefix (p ∷ ps) (c ∷ s) = p == c && has_prefix ps s

-- strings.Contains, the text first
unfoldable pub contains : Text → Text → Bool
unfolding has_prefix
contains [] m = has_prefix m []
contains (c ∷ s) m = has_prefix m (c ∷ s) || contains s m

-- The text before the first newline, and what follows that newline if there is one.
unfoldable pub before_newline : Text → Text
before_newline [] = []
before_newline (c ∷ s) = if c == newline then [] else c ∷ before_newline s

unfoldable pub after_newline : Text → Option Text
after_newline [] = none
after_newline (c ∷ s) = if c == newline then some s else after_newline s

-- unicode.ToLower, where it matters to a comparison with an ASCII text: two letters outside ASCII
-- have lower cases in it, and the others have theirs outside.
unfoldable pub lower_char : ℕ → ℕ
lower_char c =
    if leb b'A' c && leb c b'Z'
    then c + 32
    else if c == 0x130
    then b'i'
    else if c == 0x212a
    then b'k'
    else c

-- strings.ToLower
unfoldable pub to_lower : Text → Text
unfolding lower_char
to_lower s = map lower_char s

abbrev pub is_digit : ℕ → Bool
is_digit c = leb b'0' c && leb c b'9'

-- The value of a run of decimal digits, `none` on any other character.
unfoldable pub digits_value : ℕ → Text → Option ℕ
digits_value acc [] = some acc
digits_value acc (c ∷ s) = if is_digit c then digits_value (10 * acc + (c - b'0')) s else none

unfoldable pub unsigned : Text → Option ℕ
unfolding digits_value
unsigned [] = none
unsigned (c ∷ s) = digits_value 0 (c ∷ s)

abbrev in_range : Bool → Option ℕ → Option ℤ
in_range neg none = none
in_range true (some n) = if leb n half64 then some (sub_ℕ 0 n) else none
in_range false (some n) = if ltb n half64 then some (pos n) else none

-- strconv.ParseInt(s, 10, 64), and strconv.Atoi on a 64-bit platform; `none` is an error.
unfoldable pub parse_int : Text → Option ℤ
unfolding unsigned
parse_int [] = none
parse_int (c ∷ s) =
    if c == b'-'
    then in_range true (unsigned s)
    else if c == b'+'
    then in_range false (unsigned s)
    else in_range false (unsigned (c ∷ s))

-- The decimal digits of a number before `tail`; one round of fuel for each digit is enough, and a
-- number has no more digits than its value plus one.
unfoldable pub digits_before : ℕ → ℕ → Text → Text
digits_before zero n tail = tail
digits_before (suc fuel) n tail =
    let head = (b'0' + n % 10) ∷ tail in
    let rest = digits_before fuel (n / 10) head in if ltb n 10 then head else rest

unfoldable pub digits : ℕ → Text
unfolding digits_before
digits n = digits_before (suc n) n []

-- strconv.Itoa and the verb %d
unfoldable pub itoa : ℤ → Text
unfolding digits
itoa (pos n) = digits n
itoa (negsuc n) = b'-' ∷ digits (suc n)
