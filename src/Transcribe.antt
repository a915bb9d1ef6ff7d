-- ===== src/Transcribe.antt =====
-- internal/transcribe/transcribe.go: the data that the transcriber exchanges.
pub mod Rebase
pub mod Reply
pub mod Request
pub mod Client
use audio_service.Base.{ℕ, Bool, List, Option}
use audio_service.Base.Int.{ℤ}
use audio_service.Base.Text.{Text}

-- A float32 is its bit pattern: the program moves confidences and compares none.
abbrev pub Float32 : Type 0
Float32 = ℕ

-- float32(-1)
abbrev pub minus_one : Float32
minus_one = 0xbf80_0000

pub record Segment : Type 0 where
  pub audio : List ℕ
  pub mime_type : Text
  pub start_ms : ℤ
  pub end_ms : ℤ
  pub language_hint : Text
  pub model : Text

pub record Utterance : Type 0 where
  pub text : Text
  pub start_ms : ℤ
  pub end_ms : ℤ
  pub confidence : Float32
  pub language : Text
  pub is_speech : Bool

pub record TranscribeResult : Type 0 where
  pub detected_language : Text
  pub utterances : List Utterance
  pub input_tokens : ℤ
  pub output_tokens : ℤ

-- A null pointer is `none`.
pub record ModelUtterance : Type 0 where
  pub text : Text
  pub start_ms : Option ℤ
  pub end_ms : Option ℤ
  pub confidence : Option Float32
  pub language : Text
  pub is_speech : Option Bool

pub record ModelReply : Type 0 where
  pub detected_language : Text
  pub utterances : List ModelUtterance
