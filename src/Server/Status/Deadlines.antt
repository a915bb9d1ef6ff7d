-- ===== src/Server/Status/Deadlines.antt =====
-- The status of a process that its deadline has ended.
use audio_service.Base.{◌≡◌, refl, some}
use audio_service.Fault.{Error, errors_is}
use audio_service.Effects.{CtxErr, expired, cancelled, Exit, err}
use audio_service.AudioEngine.Probe.Steps.{process_error, meta_of_exit}
use audio_service.AudioEngine.Segment.{segment_of_exit}
use audio_service.AudioEngine.Normalize.{encode_failure, encoded}
use audio_service.Server.Status.{
  Code, code_deadline_exceeded, code_canceled, code_internal, map_engine_err, engine_code,
}

-- The code of gRPC for the end of a context.
abbrev pub context_code : CtxErr → Code
context_code expired = code_deadline_exceeded
context_code cancelled = code_canceled

-- A process that fails once its context is done is reported by the status of the context where it
-- read metadata or cut a segment, but as Internal where it encoded a file.
pub map_engine_err-context :
    (x : Exit) (failure : Error) (done : CtxErr)
    → x.ctx_err ≡ some done
    → ((e : Error) × (meta_of_exit x (some failure) ≡ err e)
        × ((map_engine_err e).code ≡ context_code done))
      × ((e : Error) × (segment_of_exit x (some failure) ≡ err e)
          × ((map_engine_err e).code ≡ context_code done))
      × ((e : Error) × (encoded x (some failure) ≡ err e)
          × ((map_engine_err e).code ≡ code_internal))
unfolding map_engine_err engine_code meta_of_exit segment_of_exit encoded encode_failure
    process_error errors_is
map_engine_err-context x failure expired h =
    ((_, refl, rw h refl), (_, refl, rw h refl), (_, refl, rw h refl))
map_engine_err-context x failure cancelled h =
    ((_, refl, rw h refl), (_, refl, rw h refl), (_, refl, rw h refl))
