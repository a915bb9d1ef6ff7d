-- ===== src/Transcribe/Reply/RoundTrip.antt =====
-- `parseModelJSON` of internal/transcribe/transcribe.go on a reply that follows the schema.
use audio_service.Base.{
  ℕ, ◌≤◌, ◌≡◌, refl, Bool, true, Option, none, some, List, [], ◌∷◌, All, arith,
}
use audio_service.Base.Text.{Text}
use audio_service.Base.Int.{ℤ}
use audio_service.Base.Float.{Floats}
use audio_service.Fault.{ok}
use audio_service.Json.Number.Decimal.{itoa-valid}
use audio_service.Json.Print.{depth, depth_items, IsWritten, IsWrittenItems}
use audio_service.Transcribe.{ModelUtterance, ModelReply}
use audio_service.Transcribe.Reply.{parse_model_json}
use audio_service.Transcribe.Reply.Compact.{object_text, parse_model_json-object_text}
use audio_service.Transcribe.Reply.Printed.{
  utterances_json, reply_json, IsSound, reply-read, IsShown, offset, confidence, speech,
}
use audio_service.Transcribe.Reply.Fence.{fenced, one_line}

-- The text of a reply.
abbrev pub reply_text : (ℕ → Text) → ModelReply → Text
reply_text show r = object_text (reply_json show r)

module _ (fl : Floats) (show : ℕ → Text) where
  offset-IsWritten : (o : Option ℤ) → IsWritten (offset o)
  offset-IsWritten none = tt
  offset-IsWritten (some n) = itoa-valid n

  confidence-IsWritten : (o : Option ℕ) → IsShown fl show o → IsWritten (confidence show o)
  confidence-IsWritten none h = tt
  confidence-IsWritten (some f) h = h.0

  speech-IsWritten : (o : Option Bool) → IsWritten (speech o)
  speech-IsWritten none = tt
  speech-IsWritten (some b) = tt

  utterances-IsWritten :
      (us : List ModelUtterance)
      → All (IsSound fl show) us
      → IsWrittenItems (utterances_json show us)
  utterances-IsWritten [] s = tt
  utterances-IsWritten (u ∷ us) (s, ss) = (
    (
      offset-IsWritten u.start_ms,
      (
        offset-IsWritten u.end_ms,
        (
          tt,
          (
            speech-IsWritten u.is_speech,
            (tt, (confidence-IsWritten u.confidence s.confidence, tt)),
          ),
        ),
      ),
    ),
    utterances-IsWritten us ss,
  )

  offset-flat : (o : Option ℤ) → depth (offset o) ≡ 0
  offset-flat none = refl
  offset-flat (some n) = refl

  speech-flat : (o : Option Bool) → depth (speech o) ≡ 0
  speech-flat none = refl
  speech-flat (some b) = refl

  confidence-flat : (o : Option ℕ) → depth (confidence show o) ≡ 0
  confidence-flat none = refl
  confidence-flat (some f) = refl

  utterances-depth : (us : List ModelUtterance) → depth_items (utterances_json show us) ≤ 1
  utterances-depth [] = omega arith
  utterances-depth (u ∷ us) = omega (
    arith,
    utterances-depth us,
    offset-flat u.start_ms,
    offset-flat u.end_ms,
    speech-flat u.is_speech,
    confidence-flat u.confidence,
  )

  -- A reply that is written as the schema asks, in compact JSON, is decoded to itself: every
  -- character of its texts, every offset, missing or an int64, and every missing or written flag and
  -- confidence; and so it is inside a fence of Markdown with any language on its line. The
  -- confidences are written as numbers of JSON that strconv reads back.
  pub parse_model_json-reply_text :
      (r : ModelReply) (language : Text)
      → All (IsSound fl show) r.utterances
      → one_line language ≡ true
      → (parse_model_json fl (reply_text show r) ≡ ok r)
        × (parse_model_json fl (fenced language (reply_text show r)) ≡ ok r)
  parse_model_json-reply_text r language s h =
      parse_model_json-object_text fl (reply_json show r) r language
        (tt, (utterances-IsWritten r.utterances s, tt))
        (omega (arith, utterances-depth r.utterances)) (reply-read fl show r s) h
