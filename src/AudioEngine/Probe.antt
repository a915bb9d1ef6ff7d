-- ===== src/AudioEngine/Probe.antt =====
-- The data of internal/audioengine/probe.go, and how ffprobe's output becomes a result.
pub mod Output
pub mod Silence
pub mod Steps
pub mod Reading
pub mod Success
pub mod Verdict
use audio_service.Base.{Bool, false, List, Option, none, some, if◌then◌else◌}
use audio_service.Base.Int.{ℤ}
use audio_service.Base.Text.{Text}

pub record ProbeResult : Type 0 where
  pub duration_ms : ℤ
  pub channels : ℤ
  pub sample_rate : ℤ
  pub container : Text
  pub codec : Text
  pub silent : Bool

pub record FfprobeStream : Type 0 where
  pub codec_type : Text
  pub codec_name : Text
  pub channels : ℤ
  pub sample_rate : Text
  pub duration : Text

pub record FfprobeFormat : Type 0 where
  pub format_name : Text
  pub duration : Text

pub record FfprobeOutput : Type 0 where
  pub streams : List FfprobeStream
  pub format : FfprobeFormat
