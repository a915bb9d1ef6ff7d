-- ===== src/Transcribe/Reply/Printed.antt =====
-- A reply of the model as the JSON that its schema asks for, and how internal/transcribe/transcribe.go
-- decodes the values of an utterance.
use audio_service.Base.{ℕ, ◌≡◌, refl, Bool, true, Option, none, some, List, [], ◌∷◌, All}
use audio_service.Base.Int.{ℤ, IsInt64}
use audio_service.Base.Text.{Text, codes, itoa, text_eq}
use audio_service.Base.Text.Decimal.{parse_int-itoa}
use audio_service.Base.Float.{Floats}
use audio_service.Json.{
  Json, null, bool, num, str, arr, obj, Items, no_items, item, Fields, no_fields, field,
}
use audio_service.Json.Number.{is_valid_number}
use audio_service.Json.Parse.{is_key}
use audio_service.Json.Struct.{
  set_fields, decode_struct, decode_text, decode_bool_ptr, decode_items, decode_slice,
}
use audio_service.Transcribe.{ModelUtterance, ModelReply}
use audio_service.Transcribe.Reply.{
  lenient_ms, decode_float32_ptr, set_raw, unmarshal_utterance, set_reply,
}

-- A missing value is null.
abbrev pub offset : Option ℤ → Json
offset none = null
offset (some n) = num (itoa n)

abbrev pub speech : Option Bool → Json
speech none = null
speech (some b) = bool b

-- `show` prints a float32.
module _ (show : ℕ → Text) where
  abbrev pub confidence : Option ℕ → Json
  confidence none = null
  confidence (some f) = num (show f)

  abbrev pub utterance_json : ModelUtterance → Json
  utterance_json u = obj (
      field (codes "start_ms") (offset u.start_ms) (
        field (codes "end_ms") (offset u.end_ms) (
          field (codes "text") (str u.text) (
            field (codes "is_speech") (speech u.is_speech) (
              field (codes "language") (str u.language)
                (field (codes "confidence") (confidence u.confidence) no_fields))))))

  abbrev pub utterances_json : List ModelUtterance → Items
  utterances_json [] = no_items
  utterances_json (u ∷ us) = item (utterance_json u) (utterances_json us)

  abbrev pub reply_json : ModelReply → Fields
  reply_json r =
      field (codes "detected_language") (str r.detected_language)
        (field (codes "utterances") (arr (utterances_json r.utterances)) no_fields)

abbrev pub IsOffset : Option ℤ → Type 0
IsOffset none = Unit
IsOffset (some n) = IsInt64 n

module _ (fl : Floats) (show : ℕ → Text) where
  open fl use {parse_float32}

  -- A confidence that is printed as a number of JSON, which is read back.
  abbrev pub IsShown : Option ℕ → Type 0
  IsShown none = Unit
  IsShown (some f) = (is_valid_number (show f) ≡ true) × (parse_float32 (show f) ≡ some f)

  -- The values of an utterance that stand for themselves.
  pub record IsSound (u : ModelUtterance) : Type 0 where
    pub start_ms : IsOffset u.start_ms
    pub end_ms : IsOffset u.end_ms
    pub confidence : IsShown u.confidence

  offset-read : (o : Option ℤ) → IsOffset o → lenient_ms (some (offset o)) ≡ o
  unfolding lenient_ms
  offset-read none h = refl
  offset-read (some n) h = parse_int-itoa n h

  confidence-read : (o : Option ℕ) → IsShown o → decode_float32_ptr fl (confidence show o) ≡ some o
  unfolding decode_float32_ptr
  confidence-read none h = refl
  confidence-read (some f) h = rw h.1 refl

  speech-read : (o : Option Bool) → decode_bool_ptr (speech o) ≡ some o
  unfolding decode_bool_ptr
  speech-read none = refl
  speech-read (some b) = refl

  pub utterance-read :
      (u : ModelUtterance) → IsSound u → unmarshal_utterance fl (utterance_json show u) ≡ some u
  unfolding unmarshal_utterance set_raw decode_struct set_fields is_key text_eq decode_text
  utterance-read u s = rw (speech-read u.is_speech) (
      rw (confidence-read u.confidence s.confidence)
        (rw (offset-read u.start_ms s.start_ms) (rw (offset-read u.end_ms s.end_ms) refl)))

  utterances-read :
      (us : List ModelUtterance)
      → All IsSound us
      → decode_items (unmarshal_utterance fl) (utterances_json show us) ≡ some us
  unfolding decode_items
  utterances-read [] s = refl
  utterances-read (u ∷ us) (s, ss) = rw (utterance-read u s) (rw (utterances-read us ss) refl)

  pub reply-read :
      (r : ModelReply)
      → All IsSound r.utterances
      → decode_struct
          (set_reply fl)
          (record { detected_language = []; utterances = [] })
          (obj (reply_json show r))
        ≡ some r
  unfolding set_reply decode_struct set_fields is_key text_eq decode_text decode_slice
  reply-read r s = rw (utterances-read r.utterances s) refl
