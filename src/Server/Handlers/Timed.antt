-- ===== src/Server/Handlers/Timed.antt =====
-- The contexts in which the handlers of internal/server/server.go run processes, uploads and calls
-- of Gemini.
use audio_service.Base.{refl, Bool, true, false, not, List, [], ◌∷◌, All, if◌then◌else◌}
use audio_service.Base.Int.{ℤ, pos, ltb_ℤ, leb_ℤ}
use audio_service.Base.Text.{Text, is_empty, is_blank, trim_space}
use audio_service.Base.Float.{Floats}
use audio_service.Fault.{Error, Result, ok, err}
use audio_service.Effects.{incoming, World, Event, active_down, after, lift}
use audio_service.AudioEngine.Probe.Steps.{probe}
use audio_service.AudioEngine.Segment.{segment_cut}
use audio_service.AudioEngine.Normalize.{normalize_audio}
use audio_service.AudioEngine.Timed.{
  IsTimed, All-append, Timed, quiet, bind-Timed, refuse_if-Timed, probe-Timed, segment_cut-Timed,
  normalize_audio-Timed,
}
use audio_service.Transcribe.{Segment}
use audio_service.Transcribe.Client.{available, transcribe, result_of_response}
use audio_service.Transcribe.Request.{request_of}
use audio_service.Server.{Server, ProbeRequest, NormalizeRequest, TranscribeSegmentRequest}
use audio_service.Server.Status.{Code, Status, map_engine_err, map_transcribe_err}
use audio_service.Server.Handlers.{
  Call, reject, continue, with_hold, segment_of, model_of, handle_probe, handle_normalize,
  cut_and_transcribe, handle_transcribe_segment,
}

record TimedCall {A : Type 0} (t : ℤ) (c : Call A) : Type 0 where
  each : All (IsTimed t) c.events

rejected : {A : Type 0} {t : ℤ} (code : Code) (text : Text) → TimedCall t (reject {A = A} code text)
rejected code text = record { each = tt }

if-TimedCall :
    {A : Type 0} {t : ℤ} (b : Bool) {c d : Call A}
    → TimedCall t c
    → TimedCall t d
    → TimedCall t (if b then c else d)
if-TimedCall true p q = p
if-TimedCall false p q = q

continue-TimedCall :
    {A B : Type 0} {t : ℤ} (es : List Event) (r : Result A) (to_status : Error → Status)
    (f : A → Call B)
    → All (IsTimed t) es
    → ((a : A) → TimedCall t (f a))
    → TimedCall t (continue es r to_status f)
continue-TimedCall {t} es (ok a) to_status f p q = record {
  each = All-append (IsTimed t) es (f a).events p (q a).each;
}
continue-TimedCall es (err e) to_status f p q = record { each = p }

with_hold-TimedCall : {A : Type 0} {t : ℤ} (c : Call A) → TimedCall t c → TimedCall t (with_hold c)
with_hold-TimedCall {t} c r = record {
  each = (tt, All-append (IsTimed t) c.events (active_down ∷ []) r.each (tt, tt));
}

module _ (fl : Floats) (s : Server) (w : World) where
  transcribe-Timed : (t : ℤ) (seg : Segment) → Timed t (transcribe fl w s.transcriber incoming seg)
  unfolding transcribe
  transcribe-Timed t seg = bind-Timed (refuse_if-Timed t (not (available s.transcriber)) _) (λ a.
      bind-Timed (refuse_if-Timed t (is_blank seg.model) _) (λ b.
        bind-Timed (refuse_if-Timed t (is_empty seg.audio) _)
          (λ c. record { each = (refl, generated.each) })))
    where
      generated : Timed t (
          after []
            (w.generate incoming (request_of seg))
            (λ resp. lift (result_of_response fl seg resp)))
      generated = bind-Timed quiet (λ resp. quiet)

  -- Whatever the request and the answers of the world, each process that Probe runs has the
  -- engine's deadline for a probe.
  pub handle_probe-IsTimed :
      (req : ProbeRequest) → All (IsTimed s.engine.probe_timeout) (handle_probe fl s w req).events
  unfolding handle_probe
  handle_probe-IsTimed req =
      let url = trim_space req.source_url in
      (if-TimedCall (is_empty url) (rejected _ _) (
        continue-TimedCall (probe fl w s.engine incoming url).events
          (probe fl w s.engine incoming url).result map_engine_err _
          (probe-Timed fl w s.engine url).each (λ res. record { each = tt }))).each

  -- Whatever the request and the answers of the world, each process and the upload of Normalize
  -- have the engine's deadline for a normalisation.
  pub handle_normalize-IsTimed :
      (req : NormalizeRequest)
      → All (IsTimed s.engine.normalize_timeout) (handle_normalize fl s w req).events
  unfolding handle_normalize
  handle_normalize-IsTimed req =
      let src = trim_space req.source_url in
      let dst = trim_space req.dest_put_url in
      let m = normalize_audio fl w s.engine incoming src dst req.target_sample_rate in
      (if-TimedCall (is_empty src) (rejected _ _) (
        if-TimedCall (is_empty dst) (rejected _ _) (
          continue-TimedCall m.events m.result map_engine_err _
            (normalize_audio-Timed fl w s.engine src dst req.target_sample_rate).each
            (λ res. record { each = tt })))).each

  cut_and_transcribe-TimedCall :
      (req : TranscribeSegmentRequest) (url model : Text)
      → TimedCall s.engine.transcribe_timeout (cut_and_transcribe fl s w req url model)
  unfolding cut_and_transcribe
  cut_and_transcribe-TimedCall req url model =
      let cut = segment_cut fl w s.engine incoming url req.start_ms req.end_ms in
      continue-TimedCall cut.events cut.result map_engine_err _
        (segment_cut-Timed fl w s.engine url req.start_ms req.end_ms).each
        (λ seg.
          continue-TimedCall
            (transcribe fl w s.transcriber incoming (segment_of req seg model)).events
            (transcribe fl w s.transcriber incoming (segment_of req seg model)).result
            map_transcribe_err _
            (transcribe-Timed s.engine.transcribe_timeout (segment_of req seg model)).each
            (λ res. record { each = tt }))

  -- Whatever the request and the answers of the world, the process that TranscribeSegment runs has
  -- the engine's deadline for a transcription; its call of Gemini has no deadline but that of the
  -- RPC.
  pub handle_transcribe_segment-IsTimed :
      (req : TranscribeSegmentRequest)
      → All (IsTimed s.engine.transcribe_timeout) (handle_transcribe_segment fl s w req).events
  unfolding handle_transcribe_segment
  handle_transcribe_segment-IsTimed req =
      (if-TimedCall (is_empty (trim_space req.normalized_url)) (rejected _ _) (
        if-TimedCall (ltb_ℤ req.start_ms (pos 0)) (rejected _ _) (
          if-TimedCall (leb_ℤ req.end_ms req.start_ms) (rejected _ _) (
            if-TimedCall (not (available s.transcriber)) (rejected _ _) (
              if-TimedCall (is_empty (model_of s req)) (rejected _ _) (
                with_hold-TimedCall _ (
                  cut_and_transcribe-TimedCall req (trim_space req.normalized_url)
                    (model_of s req)))))))).each
