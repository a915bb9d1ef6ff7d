-- ===== src/AudioEngine/Engine.antt =====
-- `Config`, `Engine`, `New`, `acquire` and `releaseWorker` of internal/audioengine/engine.go. The
-- fields that all requests share, the semaphore and the counters, are in AudioEngine.Pool.
pub mod Boot
use audio_service.Base.{ℕ, ◌*◌, ◌^◌, Bool, Option, none, some, List, [], ◌∷◌, ◌++◌, if◌then◌else◌}
use audio_service.Base.Int.{ℤ, pos, pos_part, leb_ℤ}
use audio_service.Base.Text.{Text, codes, is_blank}
use audio_service.Base.Quote.{quoted}
use audio_service.Fault.{Error, wrapped}
use audio_service.Effects.{
  Ctx, World, Event, take_slot, free_slot, active_up, active_down, Result, ok, err, Run, fail, emit,
  finally, CtxErr, ctx_error, ◌>>◌, ◌>>=◌,
}

-- Durations are nanoseconds.
pub record Config : Type 0 where
  pub ffprobe_path : Text
  pub ffmpeg_path : Text
  pub workers : ℤ
  pub probe_timeout : ℤ
  pub normalize_timeout : ℤ
  pub transcribe_timeout : ℤ
  pub target_sample_rate : ℤ
  pub tmp_dir : Text
  pub scavenge_on_idle : Bool

-- `capacity` is that of the semaphore's channel.
pub record Engine : Type 0 where
  pub ffprobe : Text
  pub ffmpeg : Text
  pub probe_timeout : ℤ
  pub normalize_timeout : ℤ
  pub transcribe_timeout : ℤ
  pub target_sample_rate : ℤ
  pub tmp_dir : Text
  pub capacity : ℕ
  pub scavenge_on_idle : Bool

abbrev pub seconds : ℕ → ℤ
seconds n = pos (n * 10 ^ 9)

abbrev pub default_target_sample_rate : ℤ
default_target_sample_rate = pos 16000

unfoldable pub or_default : Text → Text → Text
unfolding is_blank
or_default v def = if is_blank v then def else v

-- `orDuration` and `orInt`
unfoldable pub or_positive : ℤ → ℤ → ℤ
or_positive v def = if leb_ℤ v (pos 0) then def else v

-- The error of exec.LookPath, wrapped.
abbrev not_found : Text → Text → Error → Error
not_found tool name e =
    wrapped (codes "audioengine: " ++ tool ++ codes " not found (" ++ quoted name ++ codes "): ") e
      []

abbrev built : Config → Text → Text → Engine
built cfg ffprobe ffmpeg = record {
  ffprobe = ffprobe;
  ffmpeg = ffmpeg;
  probe_timeout = or_positive cfg.probe_timeout (seconds 90);
  normalize_timeout = or_positive cfg.normalize_timeout (seconds 1800);
  transcribe_timeout = or_positive cfg.transcribe_timeout (seconds 600);
  target_sample_rate = or_positive cfg.target_sample_rate default_target_sample_rate;
  tmp_dir = cfg.tmp_dir;
  capacity = pos_part (or_positive cfg.workers (pos 4));
  scavenge_on_idle = cfg.scavenge_on_idle;
}

-- `look_path` answers exec.LookPath with its error.
unfoldable pub new_engine : (Text → Option Error) → Config → Result Engine
new_engine look_path cfg =
    let ffprobe = or_default cfg.ffprobe_path (codes "ffprobe") in
    let ffmpeg = or_default cfg.ffmpeg_path (codes "ffmpeg") in
    elim (look_path ffprobe) [
      | some e ↦ err (not_found (codes "ffprobe") ffprobe e)
      | none ↦ elim (look_path ffmpeg) [
        | some e ↦ err (not_found (codes "ffmpeg") ffmpeg e)
        | none ↦ ok (built cfg ffprobe ffmpeg)
      ]
    ]

-- `Close`
abbrev pub close_engine : Engine → Option Error
close_engine e = none

-- The select of a free slot and the end of the context; both steps follow at once.
abbrev pub acquired : Option CtxErr → Run (Unit {0})
acquired (some e) = fail (ctx_error e)
acquired none = emit (take_slot ∷ active_up ∷ [])

unfoldable pub acquire : World → Ctx → Run (Unit {0})
acquire w ctx = acquired (w.slot ctx)

abbrev pub release_worker : List Event
release_worker = free_slot ∷ active_down ∷ []

-- `acquire`, then `defer e.releaseWorker()` around the rest.
unfoldable pub with_slot : {A : Type 0} → World → Ctx → Run A → Run A
unfolding acquire
with_slot w ctx body = acquire w ctx >> finally body release_worker
