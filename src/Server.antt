-- ===== src/Server.antt =====
-- internal/server/server.go over the messages of gen/audio/v1/audio.pb.go.
pub mod Status
pub mod Handlers
pub mod Service
use audio_service.Base.{ℕ, Bool, List}
use audio_service.Base.Int.{ℤ}
use audio_service.Base.Text.{Text}
use audio_service.AudioEngine.Engine.{Engine}
use audio_service.Transcribe.{Utterance}
use audio_service.Transcribe.Client.{Client}

-- `Server`, with the Gemini client of internal/transcribe as its Transcriber.
pub record Server : Type 0 where
  pub engine : Engine
  pub transcriber : Client
  pub default_model : Text

-- `New`
abbrev pub new_server : Engine → Client → Text → Server
new_server engine transcriber default_model = record {
  engine = engine;
  transcriber = transcriber;
  default_model = default_model;
}

-- The messages of the service. An utterance of a response has the fields of the transcriber's.
pub record ProbeRequest : Type 0 where
  pub source_url : Text
  pub filename : Text

pub record ProbeResponse : Type 0 where
  pub duration_ms : ℤ
  pub channels : ℤ
  pub sample_rate : ℤ
  pub container : Text
  pub codec : Text
  pub silent : Bool

pub record NormalizeRequest : Type 0 where
  pub source_url : Text
  pub dest_put_url : Text
  pub target_sample_rate : ℤ

pub record NormalizeResponse : Type 0 where
  pub duration_ms : ℤ
  pub sample_rate : ℤ
  pub channels : ℤ
  pub bytes_written : ℤ

pub record TranscribeSegmentRequest : Type 0 where
  pub normalized_url : Text
  pub start_ms : ℤ
  pub end_ms : ℤ
  pub language_hint : Text
  pub model : Text

pub record TranscribeSegmentResponse : Type 0 where
  pub detected_language : Text
  pub utterances : List Utterance
  pub input_tokens : ℤ
  pub output_tokens : ℤ
