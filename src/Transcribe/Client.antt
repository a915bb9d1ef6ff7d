-- ===== src/Transcribe/Client.antt =====
-- `Client`, `New`, `Available`, `Transcribe`, `finishReason` and `usageTokens` of
-- internal/transcribe/transcribe.go.
pub mod Success
use audio_service.Base.{
  ℕ, Bool, true, false, not, Option, none, some, List, [], ◌∷◌, ◌++◌, if◌then◌else◌,
}
use audio_service.Base.Int.{ℤ, pos}
use audio_service.Base.Text.{Text, codes, text_eq, is_blank, is_empty, itoa}
use audio_service.Base.Float.{Floats}
use audio_service.Fault.{
  Error, sentinel, opaque_error, wrapped, error_text, unavailable, degenerate_output, Result, ok,
  err,
}
use audio_service.Genai.{GenRequest, GenResponse}
use audio_service.Effects.{Ctx, World, ask, Run, lift, emit, return, refuse_if, ◌>>◌, ◌>>=◌}
use audio_service.Transcribe.{Segment, TranscribeResult, ModelReply}
use audio_service.Transcribe.Rebase.{rebase_utterances}
use audio_service.Transcribe.Reply.{parse_model_json}
use audio_service.Transcribe.Request.{request_of}

-- Whether `inner`, the client of the SDK, is not nil.
pub record Client : Type 0 where
  pub has_inner : Bool

-- `make` answers genai.NewClient with its error.
unfoldable pub new_client : (Text → Option Error) → Text → Result Client
unfolding is_blank
new_client make api_key =
    if is_blank api_key then ok (record { has_inner = false }) else elim (make api_key) [
      | none ↦ ok (record { has_inner = true })
      | some e ↦ err (wrapped (codes "transcribe: new gemini client: ") e [])
    ]

abbrev pub available : Client → Bool
available c = c.has_inner

unfoldable pub finish_reason : GenResponse → Text
finish_reason resp = elim resp.candidates [ [] ↦ [] | c ∷ cs ↦ elim c [ none ↦ [] | some r ↦ r ] ]

unfoldable pub usage_tokens : GenResponse → ℤ × ℤ
usage_tokens resp = elim resp.usage [ none ↦ (pos 0, pos 0) | some (in_, out) ↦ (in_, out) ]

abbrev pub finish_reason_max_tokens : Text
finish_reason_max_tokens = codes "MAX_TOKENS"

abbrev tokens_text : ℤ → Text
tokens_text out = codes "output_tokens=" ++ itoa out

-- `fmt.Errorf("%w: ...", ErrDegenerateOutput, ...)`
abbrev degenerate : Text → Error
degenerate text = wrapped [] (sentinel degenerate_output) (codes ": " ++ text)

module _ (fl : Floats) where
  unfoldable result_of_reply : Segment → GenResponse → Result ModelReply → Result TranscribeResult
  result_of_reply seg resp (err e) = err (
      degenerate (
        codes "finish_reason="
        ++ (finish_reason resp
            ++ (codes " " ++ (tokens_text (usage_tokens resp).1 ++ (codes ": " ++ error_text e))))))
  result_of_reply seg resp (ok parsed) = ok (record {
    detected_language = parsed.detected_language;
    utterances = rebase_utterances parsed.utterances seg;
    input_tokens = (usage_tokens resp).0;
    output_tokens = (usage_tokens resp).1;
  })

  unfoldable pub result_of_response : Segment → GenResponse → Result TranscribeResult
  unfolding result_of_reply
  result_of_response seg resp =
      if text_eq (finish_reason resp) finish_reason_max_tokens
      then err (degenerate (tokens_text (usage_tokens resp).1))
      else result_of_reply seg resp (parse_model_json fl resp.text)

  unfoldable pub transcribe : World → Client → Ctx → Segment → Run TranscribeResult
  transcribe w c ctx seg = do
    refuse_if (not (available c)) (sentinel unavailable)
    refuse_if (is_blank seg.model) (opaque_error (codes "transcribe: empty model id"))
    refuse_if (is_empty seg.audio) (opaque_error (codes "transcribe: empty audio segment"))
    emit (ask ctx (request_of seg) ∷ [])
    resp ← lift (w.generate ctx (request_of seg))
    lift (result_of_response seg resp)
