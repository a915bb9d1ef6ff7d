-- ===== src/Examples/Replies.antt =====
-- Examples for replies of the model.
use audio_service.Base.{ℕ, ◌≡◌, refl, true, none, some, [], ◌∷◌, arith}
use audio_service.Base.Int.{negsuc}
use audio_service.Base.Text.{Text, codes}
use audio_service.Fault.{ok}
use audio_service.Json.Number.{is_valid_number}
use audio_service.Transcribe.{ModelUtterance, ModelReply}
use audio_service.Transcribe.Reply.{parse_model_json}
use audio_service.Transcribe.Reply.Fence.{fenced}
use audio_service.Transcribe.Reply.Printed.{IsSound}
use audio_service.Transcribe.Reply.RoundTrip.{reply_text, parse_model_json-reply_text}
use audio_service.Examples.Setup.{billionths}

-- The only float32 of the examples is 0.
abbrev show_zero : ℕ → Text
show_zero f = codes "0"

abbrev utterance : ModelUtterance
utterance = record {
  text = codes "a \"b\"\n";
  start_ms = some (negsuc 4);
  end_ms = none;
  confidence = some 0;
  language = codes "en";
  is_speech = some true;
}

abbrev reply : ModelReply
reply = record { detected_language = codes "en"; utterances = utterance ∷ [] }

valid_zero : is_valid_number (codes "0") ≡ true
unfolding is_valid_number
valid_zero = refl

utterance-IsSound : IsSound billionths show_zero utterance
utterance-IsSound = record {
  start_ms = (omega arith, omega arith);
  end_ms = tt;
  confidence = (valid_zero, refl);
}

parse_model_json-reply_text_example :
    (parse_model_json billionths (reply_text show_zero reply) ≡ ok reply)
    × (parse_model_json billionths (fenced (codes "json") (reply_text show_zero reply)) ≡ ok reply)
parse_model_json-reply_text_example =
    parse_model_json-reply_text billionths show_zero reply (codes "json") (utterance-IsSound, tt)
      refl
