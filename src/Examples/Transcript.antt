-- ===== src/Examples/Transcript.antt =====
-- Examples for the model's offsets and the output budget.
use audio_service.Base.{
  ◌↔◌, ℕ, ◌+◌, ◌*◌, ◌/◌, max, ◌≡◌, refl, Option, none, some, All, List, [], ◌∷◌, arith,
}
use audio_service.Base.Int.{pos, ◌+ℤ◌}
use audio_service.Base.Text.{codes, parse_int}
use audio_service.Json.{Json, str}
use audio_service.Json.Number.{is_valid_number}
use audio_service.Transcribe.Reply.{lenient_ms}
use audio_service.Transcribe.Reply.Lenient.{Reads, lenient_ms_iff}
use audio_service.Transcribe.{Segment, ModelUtterance}
use audio_service.Transcribe.Rebase.{rebase_one, rebase_utterances}
use audio_service.Transcribe.Rebase.Window.{InWindow, rebase_utterances-InWindow}
use audio_service.Transcribe.Rebase.Offsets.{
  Reported, rebase_one-exact, rebase_one-overrun, rebase_one-overflow,
}
use audio_service.Transcribe.Rebase.Shift.{shift, rebase_one-shift}
use audio_service.Transcribe.Request.{max_output_tokens}
use audio_service.Transcribe.Request.Budget.{max_output_tokens_lem}

abbrev window : Segment
window = record {
  audio = 1 ∷ [];
  mime_type = [];
  start_ms = pos 60_000;
  end_ms = pos 90_000;
  language_hint = codes "en";
  model = codes "gemini";
}

abbrev word : ℕ → ℕ → ModelUtterance
word s e = record {
  text = codes "word";
  start_ms = some (pos s);
  end_ms = some (pos e);
  confidence = none;
  language = [];
  is_speech = none;
}

abbrev words : List ModelUtterance
words = word 100 900 ∷ word 5000 99_999 ∷ []

-- 2 ^ 63 - 1
abbrev largest : ℕ
largest = 9_223_372_036_854_775_807

rebase_utterances-InWindow_example : All (InWindow window) (rebase_utterances words window)
rebase_utterances-InWindow_example = rebase_utterances-InWindow words window (omega arith)

word-Reported : Reported (word 100 900) window (pos 100) (pos 900)
unfolding ◌+ℤ◌
word-Reported = record {
  start = refl;
  end = refl;
  positive = omega arith;
  ordered = omega arith;
  inside = omega arith;
  origin = (omega arith, omega arith);
  bound = (omega arith, omega arith);
}

rebase_one-exact_example :
    ((rebase_one (word 100 900) window).start_ms ≡ window.start_ms +ℤ pos 100)
    × ((rebase_one (word 100 900) window).end_ms ≡ window.start_ms +ℤ pos 900)
rebase_one-exact_example = rebase_one-exact (word 100 900) window (pos 100) (pos 900) word-Reported

rebase_one-overrun_example : (rebase_one (word 5000 99_999) window).end_ms ≡ window.end_ms
unfolding ◌+ℤ◌
rebase_one-overrun_example =
    rebase_one-overrun (word 5000 99_999) window (pos 99_999) refl (omega arith) (omega arith)
      (omega arith) (omega arith, omega arith)

rebase_one-overflow_example :
    (rebase_one (word 5000 largest) window).end_ms
    ≡ (rebase_one (word 5000 largest) window).start_ms
unfolding ◌+ℤ◌
rebase_one-overflow_example =
    rebase_one-overflow (word 5000 largest) window (pos largest) refl (omega arith) (omega arith)
      (omega arith, omega arith) (omega arith, omega arith) (omega arith)

rebase_one-shift_example :
    rebase_one (word 100 900) (shift (pos 7) window) ≡ record (rebase_one (word 100 900) window) {
      start_ms = (rebase_one (word 100 900) window).start_ms +ℤ pos 7;
      end_ms = (rebase_one (word 100 900) window).end_ms +ℤ pos 7;
    }
unfolding ◌+ℤ◌
rebase_one-shift_example =
    rebase_one-shift (word 100 900) window (pos 7) (omega arith, omega arith)
      (omega arith, omega arith) (omega arith, omega arith) (omega arith, omega arith)

max_output_tokens_lem_example :
    max_output_tokens window ≡ pos (1024 + 40 * max ((30_000 + 999) / 1000) 1)
max_output_tokens_lem_example =
    max_output_tokens_lem window 60_000 30_000 refl refl (omega arith) (omega arith)

abbrev quoted_offset : Option Json
quoted_offset = some (str (codes "123"))

lenient_ms_iff_example : (lenient_ms quoted_offset ≡ some (pos 123)) ↔ Reads quoted_offset (pos 123)
lenient_ms_iff_example = lenient_ms_iff quoted_offset (pos 123)

-- A string is taken for its number.
quoted_offset_test : lenient_ms quoted_offset ≡ some (pos 123)
unfolding lenient_ms parse_int is_valid_number
quoted_offset_test = refl
