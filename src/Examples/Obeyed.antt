-- ===== src/Examples/Obeyed.antt =====
-- An example for a Gemini that obeys its schema.
use audio_service.Base.{◌^◌, ◌≡◌, refl, true, false, All, arith}
use audio_service.Base.Int.{pos, wrap, max_ℤ, ◌-ℤ◌, ◌<ℤ◌}
use audio_service.Base.Text.{codes, text_eq, is_blank, trim_space, itoa}
use audio_service.Base.Float.{rounded}
use audio_service.Fault.{ok}
use audio_service.Genai.{GenResponse}
use audio_service.Effects.{World}
use audio_service.Genai.Follows.{Follows}
use audio_service.Json.{bool, num, str, arr, obj, Json, no_items, item, Fields, no_fields, field}
use audio_service.Json.Number.{is_valid_number}
use audio_service.Transcribe.{ModelReply}
use audio_service.Transcribe.Rebase.Lands.{Lands}
use audio_service.Transcribe.Reply.{parse_model_json}
use audio_service.Transcribe.Reply.Compact.{object_text}
use audio_service.Transcribe.Request.{utterance_schema, response_schema, request_of, window_ms}
use audio_service.Transcribe.Client.{finish_reason}
use audio_service.Server.Handlers.{replied, model_of, handle_transcribe_segment}
use audio_service.Server.Handlers.Contract.{IsValid}
use audio_service.Server.Handlers.Delivers.{asked, response_of}
use audio_service.Server.Handlers.Places.{Obeys, handle_transcribe_segment-places}
use audio_service.Examples.Setup.{billionths, server, world, request, gemini_response}
use mathlib.Core.List.{flatten}

abbrev utterance : Json
utterance = obj (
    field (codes "start_ms") (num (codes "100")) (
      field (codes "end_ms") (num (codes "1500")) (
        field (codes "text") (str (codes "hi")) (
          field (codes "is_speech") (bool true) (
            field (codes "language") (str (codes "en"))
              (field (codes "confidence") (num (codes "0")) no_fields))))))

abbrev document : Fields
document =
    field (codes "detected_language") (str (codes "en"))
      (field (codes "utterances") (arr (item utterance no_items)) no_fields)

abbrev answer : GenResponse
answer = record gemini_response { text = object_text document }

abbrev obedient : World
obedient = record world { generate = λ ctx req. ok answer }

short : request.end_ms -ℤ request.start_ms <ℤ pos (2 ^ 53)
unfolding ◌-ℤ◌
short = omega arith

request-IsValid : IsValid server request
unfolding trim_space model_of
request-IsValid = record {
  named = refl;
  forward = omega arith;
  nonempty = omega arith;
  keyed = refl;
  modelled = refl;
}

named_model : is_blank (model_of server request) ≡ false
unfolding model_of is_blank trim_space
named_model = refl

utterance-Follows :
    Follows billionths (utterance_schema (asked billionths server obedient request)) utterance
unfolding window_ms rounded is_valid_number itoa wrap max_ℤ ◌-ℤ◌
utterance-Follows = (
  _,
  refl,
  (
    _,
    _,
    refl,
    (pos 100, refl, omega arith, omega arith),
    (
      _,
      _,
      refl,
      (pos 1500, refl, omega arith, omega arith),
      (
        _,
        _,
        refl,
        (_, refl),
        (
          _,
          _,
          refl,
          (_, refl),
          (_, _, refl, (_, refl), (_, _, refl, (_, _, refl, refl, refl), refl)),
        ),
      ),
    ),
  ),
)

request-Obeys : Obeys billionths server obedient request answer document
unfolding text_eq trim_space finish_reason flatten request_of response_schema window_ms
    is_valid_number
request-Obeys = record {
  cut = record { free = refl; unfailed = refl; some_audio = omega arith; bounded = omega arith };
  answered = refl;
  complete = refl;
  follows =
      (_, refl, (_, _, refl, (_, refl), (_, _, refl, (_, refl, (utterance-Follows, tt)), refl)));
  written = refl;
}

handle_transcribe_segment-places_example :
    (r : ModelReply) × ((handle_transcribe_segment billionths server obedient request).outcome
      ≡ replied (response_of billionths server obedient request answer r))
    × (parse_model_json billionths answer.text ≡ ok r)
    × All (Lands (asked billionths server obedient request)) r.utterances
handle_transcribe_segment-places_example =
    handle_transcribe_segment-places billionths server obedient request answer document
      (omega arith, omega arith) (omega arith, omega arith) short request-IsValid named_model
      request-Obeys
