-- ===== src/Settings.antt =====
-- internal/config/config.go: the settings that the other parts read, and `Load`. The reading of the
-- environment and the defaults are a library; `process` answers it.
pub mod Listen
use audio_service.Base.{ℕ, Bool, not, ◌&&◌, List, [], ◌∷◌, if◌then◌else◌}
use audio_service.Base.Int.{ℤ}
use audio_service.Base.Text.{Text, codes, is_empty, contains}
use audio_service.Fault.{Result, ok, err}

-- `Config`; the ratio is a float of the type `F`. Durations are nanoseconds.
pub record Settings (F : Type 0) : Type 0 where
  pub listen : Text
  pub workers : ℤ
  pub probe_timeout : ℤ
  pub normalize_timeout : ℤ
  pub transcribe_timeout : ℤ
  pub ffprobe_path : Text
  pub ffmpeg_path : Text
  pub target_sample_rate : ℤ
  pub tmp_dir : Text
  pub gemini_api_key : Text
  pub transcribe_model : Text
  pub gc_percent : ℤ
  pub memory_limit_ratio : F
  pub scavenge_on_idle : Bool
  pub log_level : Text
  pub log_format : Text

abbrev pub colon : Text
colon = codes ":"

-- A bare port gets its colon.
unfoldable pub listen_address : Text → Text
unfolding contains
listen_address l = if not (is_empty l) && not (contains l colon) then b':' ∷ l else l

unfoldable pub load : {F : Type 0} → Result (Settings F) → Result (Settings F)
load (err e) = err e
load (ok c) = ok (record c { listen = listen_address c.listen })
