-- ===== src/Transcribe/Request.antt =====
-- What is sent to Gemini: `promptText`, `responseSchema`, `maxOutputTokens` and `orMIME` of
-- internal/transcribe/transcribe.go.
pub mod Budget
use audio_service.Base.{ℕ, Option, none, some, List, [], ◌∷◌, ◌++◌, if◌then◌else◌}
use audio_service.Base.Int.{ℤ, pos, negsuc, pos_part, ◌+ℤ◌, ◌-ℤ◌, ◌*ℤ◌, max_ℤ, quot, wrap64, wrap32}
use audio_service.Base.Text.{Text, codes, is_blank, is_empty, trim_space}
use audio_service.Base.Float.{rounded}
use audio_service.Base.Quote.{quoted}
use audio_service.Genai.{
  Schema, text_schema, boolean_schema, integer_schema, number_schema, array_schema, object_schema,
  Properties, no_properties, property, GenRequest,
}
use audio_service.Transcribe.{Segment}

abbrev pub output_tokens_base : ℤ
output_tokens_base = pos 1024

abbrev pub output_tokens_per_second : ℤ
output_tokens_per_second = pos 40

-- Each operation is on int64, and the result is cut to an int32.
unfoldable pub max_output_tokens : Segment → ℤ
unfolding max_ℤ quot ◌+ℤ◌ ◌-ℤ◌ ◌*ℤ◌
max_output_tokens seg =
    let window = wrap64 (seg.end_ms -ℤ seg.start_ms) in
    let secs = max_ℤ (quot (wrap64 (window +ℤ pos 999)) 1000) (pos 1) in
    wrap32 (wrap64 (output_tokens_base +ℤ wrap64 (output_tokens_per_second *ℤ secs)))

unfoldable pub or_mime : Text → Text
unfolding is_blank
or_mime m = if is_blank m then codes "audio/wav" else m

abbrev language_line : Text → Text
language_line h =
    if is_empty h
    then codes "Auto-detect the spoken language and report it. "
    else (codes "The primary spoken language is likely "
        ++ quoted h
        ++ codes "; still report the actual detected language. ")

unfoldable pub prompt_text : Text → Text
unfolding trim_space
prompt_text language_hint =
    codes "You are a precise speech transcriber. Transcribe the attached audio segment. "
    ++ (codes "Return ONLY JSON matching the provided schema. "
        ++ (codes
              "Split the transcript into utterances (one per natural sentence or speaker turn). "
            ++ (codes
                  "For each utterance give start_ms and end_ms as integer millisecond offsets measured from the START of THIS audio segment (the segment begins at 0). "
                ++ (codes "Set is_speech=false and text=\"\" for a run that contains no speech. "
                    ++ (codes
                          "If you cannot determine timestamps, omit them (use 0) and they will be treated as approximate. "
                        ++ (codes
                              "Set confidence to a 0..1 value when you can estimate it, otherwise -1. "
                            ++ language_line (trim_space language_hint)))))))

abbrev pub utterance_fields : List Text
utterance_fields =
    codes "start_ms"
    ∷ codes "end_ms"
    ∷ codes "text"
    ∷ codes "is_speech"
    ∷ codes "language"
    ∷ codes "confidence"
    ∷ []

abbrev pub reply_fields : List Text
reply_fields = codes "detected_language" ∷ codes "utterances" ∷ []

-- `float64(max(seg.EndMs-seg.StartMs, 0))`, a whole number
unfoldable pub window_ms : Segment → ℤ
unfolding max_ℤ ◌-ℤ◌ rounded
window_ms seg = pos (rounded (pos_part (max_ℤ (wrap64 (seg.end_ms -ℤ seg.start_ms)) (pos 0))))

abbrev pub offset_schema : Segment → Schema
offset_schema seg = integer_schema (pos 0) (window_ms seg)

abbrev pub utterance_schema : Segment → Schema
utterance_schema seg =
    object_schema
      (property (codes "start_ms") (offset_schema seg) (
        property (codes "end_ms") (offset_schema seg) (
          property (codes "text") text_schema (
            property (codes "is_speech") boolean_schema (
              property (codes "language") text_schema (
                property (codes "confidence") (number_schema (negsuc 0) (pos 1)) no_properties))))))
      utterance_fields utterance_fields

unfoldable pub response_schema : Segment → Schema
response_schema seg =
    object_schema
      (property (codes "detected_language") text_schema
        (property (codes "utterances") (array_schema (utterance_schema seg)) no_properties))
      reply_fields reply_fields

unfoldable pub request_of : Segment → GenRequest
request_of seg = record {
  model = seg.model;
  prompt = prompt_text seg.language_hint;
  audio = seg.audio;
  mime_type = or_mime seg.mime_type;
  response_mime_type = codes "application/json";
  response_schema = response_schema seg;
  max_output_tokens = max_output_tokens seg;
}
