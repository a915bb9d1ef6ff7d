-- ===== src/Json/Strings.antt =====
-- The literals of strings.
pub mod RoundTrip
use audio_service.Base.{
  ℕ, zero, suc, ◌+◌, ◌-◌, ◌*◌, Bool, ◌&&◌, ◌||◌, Option, none, some, [], ◌∷◌, ltb, leb, ◌==◌,
  if◌then◌else◌,
}
use audio_service.Base.Text.{Text, is_digit}
use audio_service.Json.{Parsed, ◌>>=◌, expect}

hex_digit : ℕ → Option ℕ
hex_digit c =
    if is_digit c
    then some (c - b'0')
    else (if leb b'a' c && leb c b'f'
        then some (c - b'a' + 10)
        else (if leb b'A' c && leb c b'F' then some (c - b'A' + 10) else none))

-- Four hexadecimal digits.
hex4 : Text → Parsed ℕ
unfolding hex_digit
hex4 (a ∷ b ∷ c ∷ d ∷ s) = do
  p ← hex_digit a
  q ← hex_digit b
  r ← hex_digit c
  t ← hex_digit d
  some (4096 * p + 256 * q + 16 * r + t, s)
hex4 _ = none

escaped_hex4 : Text → Parsed ℕ
unfolding hex4 expect
escaped_hex4 s = do t ← expect b'\\' s; u ← expect b'u' t; hex4 u

abbrev replacement : ℕ
replacement = 0xfffd

abbrev is_high : ℕ → Bool
is_high u = leb 0xd800 u && ltb u 0xdc00

abbrev is_low : ℕ → Bool
is_low u = leb 0xdc00 u && ltb u 0xe000

-- A code unit behind \u: a pair of surrogates is one character, and a lone one is replaced.
from_unit : ℕ → Text → ℕ × Text
unfolding escaped_hex4
from_unit u s =
    if is_high u
    then elim (escaped_hex4 s) [
      | none ↦ (replacement, s)
      | some (v, t) ↦
          if is_low v then (0x10000 + 1024 * (u - 0xd800) + (v - 0xdc00), t) else (replacement, s)
    ]
    else (if is_low u then (replacement, s) else (u, s))

-- What follows a backslash.
escape : Text → Parsed ℕ
unfolding hex4 from_unit
escape [] = none
escape (c ∷ s) =
    if c == b'"' || (c == 92 || c == b'/')
    then some (c, s)
    else (if c == b'b'
        then some (8, s)
        else (if c == b'f'
            then some (12, s)
            else (if c == b'n'
                then some (10, s)
                else (if c == b'r'
                    then some (13, s)
                    else (if c == b't'
                        then some (9, s)
                        else (if c == b'u'
                            then hex4 s >>= (λ r. some (from_unit r.0 r.1))
                            else none))))))

prepend : ℕ → Parsed Text → Parsed Text
prepend c none = none
prepend c (some (s, t)) = some (c ∷ s, t)

-- The characters of a string up to its closing quote; fuel for each character.
unfoldable pub chars : ℕ → Text → Parsed Text
unfolding escape prepend
chars zero s = none
chars (suc fuel) [] = none
chars (suc fuel) (c ∷ s) =
    let plain = prepend c (chars fuel s) in
    let special = escape s >>= (λ r. prepend r.0 (chars fuel r.1)) in
    if c == b'"'
    then some ([], s)
    else (if c == 92 then special else (if ltb c 32 then none else plain))
