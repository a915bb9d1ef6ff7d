-- ===== src/AudioEngine/Engine/Boot.antt =====
-- What `New` of internal/audioengine/engine.go builds an engine with.
use audio_service.Base.{◌<◌, ◌≡◌, ◌≢◌, ◌⊎◌, Option, none, some, arith, inl, inr}
use audio_service.Base.Int.{ℤ, pos, ◌<ℤ◌}
use audio_service.Base.Text.{Text, codes}
use audio_service.Fault.{Error}
use audio_service.Effects.{ok}
use audio_service.AudioEngine.Engine.{
  Config, Engine, new_engine, or_positive, or_default, seconds, default_target_sample_rate,
}

or_positive_pos : (v def : ℤ) → pos 0 <ℤ def → pos 0 <ℤ or_positive v def
unfolding or_positive
or_positive_pos v def h = ground arith

pub record IsReady (look_path : Text → Option Error) (e : Engine) : Type 0 where
  pub slots : 0 < e.capacity
  pub rate : pos 0 <ℤ e.target_sample_rate
  pub probe : pos 0 <ℤ e.probe_timeout
  pub normalize : pos 0 <ℤ e.normalize_timeout
  pub transcribe : pos 0 <ℤ e.transcribe_timeout
  pub ffprobe_found : look_path e.ffprobe ≡ none
  pub ffmpeg_found : look_path e.ffmpeg ≡ none

-- Whatever the configuration, an engine that is built has at least one slot, positive timeouts and
-- a positive sample rate, and its two programs were found.
pub new_engine-IsReady :
    (look_path : Text → Option Error) (cfg : Config) (e : Engine)
    → new_engine look_path cfg ≡ ok e
    → IsReady look_path e
unfolding new_engine
new_engine-IsReady look_path cfg e h = record {
  slots = ground (arith, or_positive_pos cfg.workers (pos 4));
  rate = ground (arith, or_positive_pos cfg.target_sample_rate default_target_sample_rate);
  probe = ground (arith, or_positive_pos cfg.probe_timeout (seconds 90));
  normalize = ground (arith, or_positive_pos cfg.normalize_timeout (seconds 1800));
  transcribe = ground (arith, or_positive_pos cfg.transcribe_timeout (seconds 600));
  ffprobe_found = ground arith;
  ffmpeg_found = ground arith;
}

-- If ffprobe or ffmpeg, at its configured or its default path, is not found, no engine is built.
pub new_engine-missing :
    (look_path : Text → Option Error) (cfg : Config) (missing : Error)
    → (look_path (or_default cfg.ffprobe_path (codes "ffprobe")) ≡ some missing)
      ⊎ (look_path (or_default cfg.ffmpeg_path (codes "ffmpeg")) ≡ some missing)
    → (e : Engine) → new_engine look_path cfg ≢ ok e
unfolding new_engine
new_engine-missing look_path cfg missing (inl h) e built = ground arith
new_engine-missing look_path cfg missing (inr h) e built = ground arith
