-- ===== src/Base/Quote.antt =====
-- The verb %q: strconv.Quote, over texts whose characters outside ASCII are printable.
use audio_service.Base.{ℕ, ◌+◌, ◌-◌, ◌/◌, ◌%◌, ◌||◌, [], ◌∷◌, ◌++◌, ltb, ◌==◌, if◌then◌else◌}
use audio_service.Base.Text.{Text}

hex_char : ℕ → ℕ
hex_char n = if ltb n 10 then b'0' + n else b'a' + (n - 10)

escaped : ℕ → Text
escaped c = 92 ∷ c ∷ []

quote_char : ℕ → Text
unfolding hex_char escaped
quote_char c =
    if c == b'"' || c == 92
    then escaped c
    else (if c == 7
        then escaped b'a'
        else (if c == 8
            then escaped b'b'
            else (if c == 12
                then escaped b'f'
                else (if c == 10
                    then escaped b'n'
                    else (if c == 13
                        then escaped b'r'
                        else (if c == 9
                            then escaped b't'
                            else (if c == 11
                                then escaped b'v'
                                else (if ltb c 32 || c == 127
                                    then 92 ∷ b'x' ∷ hex_char (c / 16) ∷ hex_char (c % 16) ∷ []
                                    else c ∷ []))))))))

quote_chars : Text → Text
quote_chars [] = []
quote_chars (c ∷ s) = quote_char c ++ quote_chars s

unfoldable pub quoted : Text → Text
unfolding quote_chars quote_char
quoted s = b'"' ∷ (quote_chars s ++ b'"' ∷ [])
