-- ===== src/Base/Utf8.antt =====
-- The code points of a string of bytes, as `range` and package strings see them: a byte that
-- begins no valid sequence is U+FFFD.
use audio_service.Base.{
  ℕ, zero, suc, ◌+◌, ◌-◌, ◌*◌, Bool, ◌&&◌, List, [], ◌∷◌, ltb, leb, ◌==◌, if◌then◌else◌,
}
use audio_service.Base.Text.{Text}

abbrev between : ℕ → ℕ → ℕ → Bool
between lo hi b = leb lo b && leb b hi

abbrev tail_bits : ℕ → ℕ
tail_bits b = b - 0x80

-- A code point, and how many bytes behind the first it takes.
abbrev invalid : ℕ × ℕ
invalid = (0xfffd, 0)

two : ℕ → List ℕ → ℕ × ℕ
two a (b ∷ s) = if between 0x80 0xbf b then (64 * (a - 0xc0) + tail_bits b, 1) else invalid
two a [] = invalid

-- The second byte of a longer sequence has bounds that rule out surrogates and long forms.
three : ℕ → List ℕ → ℕ × ℕ
three a (b ∷ c ∷ s) =
    let lo : ℕ = if a == 0xe0 then 0xa0 else 0x80 in
    let hi : ℕ = if a == 0xed then 0x9f else 0xbf in
    if between lo hi b && between 0x80 0xbf c
    then (4096 * (a - 0xe0) + 64 * tail_bits b + tail_bits c, 2)
    else invalid
three a _ = invalid

four : ℕ → List ℕ → ℕ × ℕ
four a (b ∷ c ∷ d ∷ s) =
    let lo : ℕ = if a == 0xf0 then 0x90 else 0x80 in
    let hi : ℕ = if a == 0xf4 then 0x8f else 0xbf in
    if between lo hi b && (between 0x80 0xbf c && between 0x80 0xbf d)
    then (262144 * (a - 0xf0) + 4096 * tail_bits b + 64 * tail_bits c + tail_bits d, 3)
    else invalid
four a _ = invalid

first_rune : ℕ → List ℕ → ℕ × ℕ
unfolding two three four
first_rune a s =
    if ltb a 0x80
    then (a, 0)
    else (if between 0xc2 0xdf a
        then two a s
        else (if between 0xe0 0xef a
            then three a s
            else (if between 0xf0 0xf4 a then four a s else invalid)))

-- The first argument counts bytes that belong to the code point before.
runes_from : ℕ → List ℕ → Text
runes_from n [] = []
runes_from (suc n) (b ∷ s) = runes_from n s
runes_from zero (b ∷ s) = (first_rune b s).0 ∷ runes_from (first_rune b s).1 s

unfoldable pub runes : List ℕ → Text
unfolding runes_from first_rune
runes s = runes_from 0 s
