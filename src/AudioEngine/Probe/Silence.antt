-- ===== src/AudioEngine/Probe/Silence.antt =====
-- The values that `silenceDurationRe` finds, and the verdict of `detectSilentThroughout` on them.
use audio_service.Base.{
  ℕ, zero, suc, Bool, ◌||◌, Option, none, some, List, [], ◌∷◌, length, drop, ◌==◌, if◌then◌else◌,
}
use audio_service.Base.Int.{ℤ, pos}
use audio_service.Base.Text.{Text, codes, has_prefix, is_digit}
use audio_service.Base.Float.{Floats}
use audio_service.AudioEngine.Redact.{is_re_space, span_of, rest_of}

-- The class [0-9.].
abbrev is_duration_char : ℕ → Bool
is_duration_char c = is_digit c || c == b'.'

abbrev silence_marker : Text
silence_marker = codes "silence_duration:"

-- A match at the beginning of a text: its group, and the text behind it.
duration_at : Text → Option (Text × Text)
unfolding has_prefix span_of rest_of is_re_space
duration_at s =
    if has_prefix silence_marker s
    then elim (rest_of is_re_space (drop (length silence_marker) s)) [
      | [] ↦ none
      | c ∷ t ↦
          if is_duration_char c
          then some (span_of is_duration_char (c ∷ t), rest_of is_duration_char (c ∷ t))
          else none
    ]
    else none

-- FindAllStringSubmatch: each round consumes a character.
durations_from : ℕ → Text → List Text
durations_from zero s = []
durations_from (suc fuel) [] = []
durations_from (suc fuel) (c ∷ s) = elim (duration_at (c ∷ s)) [
  | none ↦ durations_from fuel s
  | some (m, rest) ↦ m ∷ durations_from fuel rest
]

unfoldable pub silence_durations : Text → List Text
unfolding durations_from duration_at
silence_durations s = durations_from (length s) s

module _ (fl : Floats) where
  open fl use {Float, parse, of_int, literal, add, mul, less, less_eq}

  -- One round of the loop: only a duration that parses and is positive counts.
  unfoldable pub add_silence : Float → Option Float → Float
  add_silence sum none = sum
  add_silence sum (some f) =
      if less (of_int (pos 0)) f then add sum (mul f (of_int (pos 1000))) else sum

  unfoldable pub silent_ms : Float → List Text → Float
  unfolding add_silence
  silent_ms sum [] = sum
  silent_ms sum (m ∷ ms) = silent_ms (add_silence sum (parse m)) ms

  -- At least 99% of the duration.
  unfoldable pub covers : Text → ℤ → Bool
  covers stderr duration_ms =
      less_eq (mul (literal 99 2) (of_int duration_ms))
        (silent_ms (of_int (pos 0)) (silence_durations stderr))
