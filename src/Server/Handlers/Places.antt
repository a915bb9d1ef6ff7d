-- ===== src/Server/Handlers/Places.antt =====
-- TranscribeSegment of internal/server/server.go where Gemini obeys the schema of its request.
use audio_service.Base.{◌^◌, ◌≡◌, refl, false, All, All-weaken, [], arith}
use audio_service.Base.Int.{pos, ◌-ℤ◌, ◌<ℤ◌, IsInt64}
use audio_service.Base.Text.{text_eq, is_blank}
use audio_service.Base.Float.{Floats}
use audio_service.Fault.{ok}
use audio_service.Genai.{GenResponse}
use audio_service.Genai.Follows.{Follows}
use audio_service.Json.{Fields, obj}
use audio_service.Effects.{incoming, World}
use audio_service.AudioEngine.Segment.Success.{GoesWell}
use audio_service.Transcribe.{ModelReply}
use audio_service.Transcribe.Rebase.Lands.{Lands, IsWindow, window_ms-IsInt64, Spanned-Lands}
use audio_service.Transcribe.Reply.{parse_model_json}
use audio_service.Transcribe.Reply.Compact.{object_text}
use audio_service.Transcribe.Reply.Follows.{parse_model_json-Follows}
use audio_service.Transcribe.Request.{request_of}
use audio_service.Transcribe.Client.{finish_reason, finish_reason_max_tokens}
use audio_service.Server.{Server, TranscribeSegmentRequest}
use audio_service.Server.Handlers.{replied, model_of, handle_transcribe_segment}
use audio_service.Server.Handlers.Contract.{IsValid}
use audio_service.Server.Handlers.Delivers.{
  url, asked, response_of, handle_transcribe_segment-replies,
}

module _ (fl : Floats) (s : Server) (w : World) (req : TranscribeSegmentRequest) where
  -- A slot is free, ffmpeg succeeds, and Gemini answers with a whole text, which is an object that
  -- follows the schema of the request.
  pub record Obeys (resp : GenResponse) (fs : Fields) : Type 0 where
    pub cut : GoesWell fl w s.engine incoming (url fl s w req) req.start_ms req.end_ms
    pub answered : w.generate incoming (request_of (asked fl s w req)) ≡ ok resp
    pub complete : text_eq (finish_reason resp) finish_reason_max_tokens ≡ false
    pub follows : Follows fl (request_of (asked fl s w req)).response_schema (obj fs)
    pub written : resp.text ≡ object_text fs

  asked-IsWindow :
      IsInt64 req.start_ms
      → IsInt64 req.end_ms
      → req.end_ms -ℤ req.start_ms <ℤ pos (2 ^ 53)
      → IsValid s req
      → IsWindow (asked fl s w req)
  asked-IsWindow i j short v = record {
    origin = i;
    bound = j;
    forward = v.forward;
    ordered = omega (arith, v.nonempty);
    short = short;
  }

  -- If a request with bounds that are int64s less than 2 ^ 53 apart, so that a float64 holds the
  -- length of the window, passes the guards with a model that is not blank, a slot is free, ffmpeg succeeds with at least one byte and at most 64 MiB, and Gemini answers with
  -- an object that follows the schema that it is sent, with each property once, in the order of the
  -- schema, and confidences that strconv reads, in a compact text that is not cut off, then
  -- TranscribeSegment replies. The text is read, and each utterance of it has two offsets from 0 to
  -- the length of the window. In the response it starts at exactly the window's start plus its first
  -- offset, and ends at the window's start plus the greater of the two; one whose second offset is 0
  -- ends with the window.
  pub handle_transcribe_segment-places :
      (resp : GenResponse) (fs : Fields)
      → IsInt64 req.start_ms
      → IsInt64 req.end_ms
      → req.end_ms -ℤ req.start_ms <ℤ pos (2 ^ 53)
      → IsValid s req
      → is_blank (model_of s req) ≡ false
      → Obeys resp fs
      → (r : ModelReply) × ((handle_transcribe_segment fl s w req).outcome
          ≡ replied (response_of fl s w req resp r))
        × (parse_model_json fl resp.text ≡ ok r)
        × All (Lands (asked fl s w req)) r.utterances
  unfolding request_of
  handle_transcribe_segment-places resp fs i j short v modelled o =
      let window = asked-IsWindow i j short v in
      let (r, read, fenced, spans) =
        parse_model_json-Follows fl (asked fl s w req) (window_ms-IsInt64 (asked fl s w req) window)
          fs [] o.follows refl in
      let whole : parse_model_json fl resp.text ≡ ok r = rw o.written read in
      (
        r,
        handle_transcribe_segment-replies fl s w req resp r v modelled
            (record { cut = o.cut; answered = o.answered; complete = o.complete; read = whole }),
        whole,
        All-weaken (Spanned-Lands (asked fl s w req) window) r.utterances spans,
      )
