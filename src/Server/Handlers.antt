-- ===== src/Server/Handlers.antt =====
-- The three handlers of internal/server/server.go. What they log is left out.
pub mod Balance
pub mod Delivers
pub mod Places
pub mod Codes
pub mod Contract
pub mod Timed
pub mod Trace
use audio_service.Base.{ℕ, Bool, not, Option, none, some, List, [], ◌∷◌, ◌++◌, map, if◌then◌else◌}
use audio_service.Base.Int.{ℤ, pos, ltb_ℤ, leb_ℤ, wrap32}
use audio_service.Base.Text.{Text, codes, is_empty, trim_space}
use audio_service.Base.Float.{Floats}
use audio_service.Fault.{Error, Result, ok, err}
use audio_service.Effects.{Ctx, incoming, World, Event, active_up, active_down, Run}
use audio_service.AudioEngine.Engine.{Engine}
use audio_service.AudioEngine.Probe.{ProbeResult}
use audio_service.AudioEngine.Probe.Steps.{probe}
use audio_service.AudioEngine.Segment.{SegmentAudio, segment_cut}
use audio_service.AudioEngine.Normalize.{NormalizeResult, normalize_audio}
use audio_service.Transcribe.{Segment, TranscribeResult, Utterance}
use audio_service.Transcribe.Client.{available, transcribe}
use audio_service.Server.{
  Server, ProbeRequest, ProbeResponse, NormalizeRequest, NormalizeResponse,
  TranscribeSegmentRequest, TranscribeSegmentResponse,
}
use audio_service.Server.Status.{
  Code, Status, code_invalid_argument, code_unavailable, map_engine_err, map_transcribe_err,
}

-- A response, or the status of an error.
pub data Outcome (A : Type 0) : Type 0 where
  replied : A → Outcome A
  failed : Status → Outcome A

-- A call of the service: what it did, and how it ended.
pub record Call (A : Type 0) : Type 0 where
  pub events : List Event
  pub outcome : Outcome A

-- `status.Error(code, text)` with nothing done.
abbrev pub reject : {A : Type 0} → Code → Text → Call A
reject code text = record { events = []; outcome = failed (record { code = code; message = text }) }

abbrev continue : {A B : Type 0} → List Event → Result A → (Error → Status) → (A → Call B) → Call B
continue es (ok a) to_status f = record { events = es ++ (f a).events; outcome = (f a).outcome }
continue es (err e) to_status f = record { events = es; outcome = failed (to_status e) }

-- A step, the mapping of its error, and the rest.
abbrev pub step : {A B : Type 0} → Run A → (Error → Status) → (A → Call B) → Call B
step m to_status f = continue m.events m.result to_status f

abbrev reply : {A : Type 0} → A → Call A
reply a = record { events = []; outcome = replied a }

abbrev pub probe_response : ProbeResult → ProbeResponse
probe_response res = record {
  duration_ms = res.duration_ms;
  channels = wrap32 res.channels;
  sample_rate = wrap32 res.sample_rate;
  container = res.container;
  codec = res.codec;
  silent = res.silent;
}

abbrev pub normalize_response : NormalizeResult → NormalizeResponse
normalize_response res = record {
  duration_ms = res.duration_ms;
  sample_rate = wrap32 res.sample_rate;
  channels = wrap32 res.channels;
  bytes_written = res.bytes_written;
}

abbrev pub transcribe_response : TranscribeResult → TranscribeSegmentResponse
transcribe_response res = record {
  detected_language = res.detected_language;
  utterances = res.utterances;
  input_tokens = res.input_tokens;
  output_tokens = res.output_tokens;
}

-- The request's model, and the default where it is empty.
unfoldable pub model_of : Server → TranscribeSegmentRequest → Text
model_of s req =
    let model = trim_space req.model in if is_empty model then s.default_model else model

abbrev pub segment_of : TranscribeSegmentRequest → SegmentAudio → Text → Segment
segment_of req seg model = record {
  audio = seg.wav;
  mime_type = seg.mime_type;
  start_ms = req.start_ms;
  end_ms = req.end_ms;
  language_hint = trim_space req.language_hint;
  model = model;
}

-- `Hold`, with `defer release()` around the rest.
abbrev pub with_hold : {A : Type 0} → Call A → Call A
with_hold c = record { events = (active_up ∷ c.events) ++ active_down ∷ []; outcome = c.outcome }

module _ (fl : Floats) (s : Server) (w : World) where
  unfoldable pub handle_probe : ProbeRequest → Call ProbeResponse
  handle_probe req =
      let url = trim_space req.source_url in
      if is_empty url
      then reject code_invalid_argument (codes "source_url is required")
      else step (probe fl w s.engine incoming url) map_engine_err
          (λ res. reply (probe_response res))

  unfoldable pub handle_normalize : NormalizeRequest → Call NormalizeResponse
  handle_normalize req =
      let src = trim_space req.source_url in
      let dst = trim_space req.dest_put_url in
      if is_empty src
      then reject code_invalid_argument (codes "source_url is required")
      else (if is_empty dst
          then reject code_invalid_argument (codes "dest_put_url is required")
          else step (normalize_audio fl w s.engine incoming src dst req.target_sample_rate)
              map_engine_err (λ res. reply (normalize_response res)))

  -- The cut, and its transcription on the same window.
  unfoldable pub cut_and_transcribe :
      TranscribeSegmentRequest → Text → Text → Call TranscribeSegmentResponse
  cut_and_transcribe req url model =
      step (segment_cut fl w s.engine incoming url req.start_ms req.end_ms) map_engine_err (λ seg.
        step (transcribe fl w s.transcriber incoming (segment_of req seg model)) map_transcribe_err
          (λ res. reply (transcribe_response res)))

  unfoldable pub handle_transcribe_segment :
      TranscribeSegmentRequest → Call TranscribeSegmentResponse
  handle_transcribe_segment req =
      let url = trim_space req.normalized_url in
      let model = model_of s req in
      if is_empty url
      then reject code_invalid_argument (codes "normalized_url is required")
      else (if ltb_ℤ req.start_ms (pos 0)
          then reject code_invalid_argument (codes "start_ms must be non-negative")
          else (if leb_ℤ req.end_ms req.start_ms
              then reject code_invalid_argument (codes "end_ms must be greater than start_ms")
              else (if not (available s.transcriber)
                  then reject code_unavailable
                      (codes "transcription backend not configured (no gemini api key)")
                  else (if is_empty model
                      then reject code_invalid_argument
                          (codes "model is required (no default configured)")
                      else with_hold (cut_and_transcribe req url model)))))
