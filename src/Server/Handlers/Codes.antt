-- ===== src/Server/Handlers/Codes.antt =====
-- The codes of the calls of internal/server/server.go that fail.
use audio_service.Base.{◌≡◌, refl, some, Bool, true, false, Bool-cases, inl, inr, arith}
use audio_service.Base.Text.{Text, is_empty, trim_space}
use audio_service.Base.Float.{Floats}
use audio_service.Fault.{Error, Result, ok, err}
use audio_service.Effects.{World, Run, incoming}
use audio_service.AudioEngine.Probe.Steps.{probe}
use audio_service.AudioEngine.Segment.{segment_cut}
use audio_service.AudioEngine.Normalize.{normalize_audio}
use audio_service.Transcribe.Client.{transcribe}
use audio_service.Server.{Server, ProbeRequest, NormalizeRequest, TranscribeSegmentRequest}
use audio_service.Server.Status.{
  Code, Status, code_invalid_argument, code_internal, code_deadline_exceeded, code_canceled,
  code_unavailable, code_resource_exhausted, engine_code, map_engine_err, http_code,
  transcribe_code, map_transcribe_err,
}
use audio_service.Server.Handlers.{
  Outcome, replied, failed, Call, continue, step, reply, probe_response, normalize_response,
  transcribe_response, segment_of, model_of, handle_probe, handle_normalize, cut_and_transcribe,
  handle_transcribe_segment,
}
use audio_service.Server.Handlers.Contract.{outcome_code, handle_transcribe_segment-guards}
use audio_service.Server.Handlers.Delivers.{admitted-outcome}

-- Codes of the engine.
abbrev pub is_engine : Code → Bool
is_engine code_invalid_argument = true
is_engine code_internal = true
is_engine code_deadline_exceeded = true
is_engine code_canceled = true
is_engine _ = false

-- Codes of a transcription.
abbrev pub is_fault : Code → Bool
is_fault code_unavailable = true
is_fault code_resource_exhausted = true
is_fault c = is_engine c

abbrev pub Fails : {A : Type 0} → (Code → Bool) → Outcome A → Type 0
Fails P (replied a) = Unit
Fails P (failed st) = P st.code ≡ true

outcome_code-Fails :
    {A : Type 0} (P : Code → Bool) (o : Outcome A) {c : Code}
    → outcome_code o ≡ some c
    → P c ≡ true
    → Fails P o
outcome_code-Fails P (replied a) h k = tt
outcome_code-Fails P (failed st) h k = cc (h, k)

step-Fails :
    {A B : Type 0} (P : Code → Bool) (m : Run A) (to_status : Error → Status) (f : A → Call B)
    → ((e : Error) → P (to_status e).code ≡ true)
    → ((a : A) → Fails P (f a).outcome)
    → Fails P (step m to_status f).outcome
step-Fails {A} P m to_status f h k = by_result m.result
  where
    by_result : (r : Result A) → Fails P (continue m.events r to_status f).outcome
    by_result (ok a) = k a
    by_result (err e) = h e

map_engine_err-is_engine : (e : Error) → is_engine (map_engine_err e).code ≡ true
unfolding map_engine_err engine_code
map_engine_err-is_engine e = ground arith

engine-Fails :
    {A B : Type 0} (m : Run A) (f : A → Call B)
    → ((a : A) → Fails is_engine (f a).outcome)
    → Fails is_engine (step m map_engine_err f).outcome
engine-Fails m f k = step-Fails is_engine m map_engine_err f map_engine_err-is_engine k

pub is_engine-is_fault : (c : Code) → is_engine c ≡ true → is_fault c ≡ true
is_engine-is_fault code_unavailable h = refl
is_engine-is_fault code_resource_exhausted h = refl
is_engine-is_fault _ h = h

map_transcribe_err-is_fault : (e : Error) → is_fault (map_transcribe_err e).code ≡ true
unfolding map_transcribe_err transcribe_code http_code
map_transcribe_err-is_fault e = ground arith

module _ (fl : Floats) (s : Server) (w : World) where
  pub handle_probe-Fails : (req : ProbeRequest) → Fails is_engine (handle_probe fl s w req).outcome
  unfolding handle_probe
  handle_probe-Fails req = elim (Bool-cases (is_empty (trim_space req.source_url))) [
    | inl blank ↦ rw blank refl
    | inr named ↦
        let m = probe fl w s.engine incoming (trim_space req.source_url) in
        rw named (engine-Fails m (λ res. reply (probe_response res)) (λ a. tt))
  ]

  pub handle_normalize-Fails :
      (req : NormalizeRequest) → Fails is_engine (handle_normalize fl s w req).outcome
  unfolding handle_normalize
  handle_normalize-Fails req = elim (Bool-cases (is_empty (trim_space req.source_url))) [
    | inl blank ↦ rw blank refl
    | inr named ↦ elim (Bool-cases (is_empty (trim_space req.dest_put_url))) [
      | inl blank ↦ rw named (rw blank refl)
      | inr aimed ↦
          let src = trim_space req.source_url in
          let dst = trim_space req.dest_put_url in
          let m = normalize_audio fl w s.engine incoming src dst req.target_sample_rate in
          rw named (rw aimed (engine-Fails m (λ res. reply (normalize_response res)) (λ a. tt)))
    ]
  ]

  cut_and_transcribe-Fails :
      (req : TranscribeSegmentRequest) (url model : Text)
      → Fails is_fault (cut_and_transcribe fl s w req url model).outcome
  unfolding cut_and_transcribe
  cut_and_transcribe-Fails req url model =
      step-Fails is_fault (segment_cut fl w s.engine incoming url req.start_ms req.end_ms)
        map_engine_err _ (λ e. is_engine-is_fault _ (map_engine_err-is_engine e))
        (λ seg.
          step-Fails is_fault (transcribe fl w s.transcriber incoming (segment_of req seg model))
            map_transcribe_err (λ res. reply (transcribe_response res)) map_transcribe_err-is_fault
            (λ r. tt))

  pub handle_transcribe_segment-Fails :
      (req : TranscribeSegmentRequest)
      → Fails is_fault (handle_transcribe_segment fl s w req).outcome
  handle_transcribe_segment-Fails req = elim (handle_transcribe_segment-guards fl s w req) [
    | inl (valid, same) ↦
        rw (admitted-outcome fl s w req valid)
          (cut_and_transcribe-Fails req (trim_space req.normalized_url) (model_of s req))
    | inr (idle, inl (invalid, why)) ↦ outcome_code-Fails is_fault _ invalid refl
    | inr (idle, inr (keyless, h)) ↦ outcome_code-Fails is_fault _ keyless refl
  ]
