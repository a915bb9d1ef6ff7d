-- ===== src/AudioEngine/Normalize.antt =====
-- internal/audioengine/normalize.go
pub mod Delivery
pub mod Success
use audio_service.Base.{
  ℕ, Bool, ◌||◌, Option, none, some, List, [], ◌∷◌, ◌++◌, length, ◌==◌, if◌then◌else◌,
}
use audio_service.Base.Int.{ℤ, pos, ltb_ℤ, leb_ℤ}
use audio_service.Base.Text.{Text, codes, is_blank, itoa}
use audio_service.Base.Float.{Floats}
use audio_service.Fault.{Error, because, normalize, invalid_audio, error_text}
use audio_service.Effects.{
  Ctx, with_timeout, CtxErr, ctx_error, World, Command, Exit, Upload, refused, response,
  temp_created, temp_removed, upload, Result, ok, err, Run, lift, return, fail, emit, finally,
  attempt, check, refuse_if, ◌>>◌, ◌>>=◌,
}
use audio_service.AudioEngine.Classify.{first_line, redact_err}
use audio_service.AudioEngine.Engine.{Engine, with_slot}
use audio_service.AudioEngine.Exec.{run_command, stderr_text}
use audio_service.AudioEngine.Probe.{ProbeResult, FfprobeOutput}
use audio_service.AudioEngine.Probe.Output.{to_result}
use audio_service.AudioEngine.Probe.Steps.{ffprobe_meta}
use mathlib.Core.List.{flatten}

pub record NormalizeResult : Type 0 where
  pub duration_ms : ℤ
  pub sample_rate : ℤ
  pub channels : ℤ
  pub bytes_written : ℤ

abbrev pub encode_command : Engine → Text → ℤ → Command
encode_command e url rate = record {
  program = e.ffmpeg;
  args =
      codes "-nostdin"
      ∷ codes "-hide_banner"
      ∷ codes "-loglevel"
      ∷ codes "error"
      ∷ codes "-i"
      ∷ url
      ∷ codes "-vn"
      ∷ codes "-ac"
      ∷ codes "1"
      ∷ codes "-ar"
      ∷ itoa rate
      ∷ codes "-c:a"
      ∷ codes "libopus"
      ∷ codes "-f"
      ∷ codes "ogg"
      ∷ codes "pipe:1"
      ∷ [];
}

-- `fmt.Errorf("%w: what: %v", ErrNormalize, err)`: the verb %v keeps the text of `err` alone.
abbrev pub normalize_error : Text → Error → Error
normalize_error what e = because normalize (what ++ error_text e)

unfoldable pub encode_failure : Exit → Error → Option CtxErr → Error
encode_failure x e (some done) = normalize_error [] (ctx_error done)
encode_failure x e none =
    because normalize (codes "ffmpeg: " ++ first_line (stderr_text x) (some (redact_err e)))

unfoldable pub encoded : Exit → Option Error → Result (List ℕ)
encoded x (some e) = err (encode_failure x e x.ctx_err)
encoded x none = ok (flatten x.stdout)

-- `resp.StatusCode < 200 || resp.StatusCode >= 300`
unfoldable pub upload_result : Upload → Option Error
upload_result (refused e) = some (normalize_error (codes "PUT upload: ") (redact_err e))
upload_result (response code status) =
    if ltb_ℤ code (pos 200) || leb_ℤ (pos 300) code
    then some (because normalize (codes "PUT returned " ++ status))
    else none

-- The PUT of the whole file, with its length and the type audio/ogg in the header.
unfoldable pub put_file : World → Ctx → Text → List ℕ → Run (Unit {0})
put_file w ctx dest file = do
  check (w.new_put dest) (λ e. normalize_error (codes "build PUT: ") (redact_err e))
  emit (upload ctx dest file ∷ [])
  check (upload_result (w.put ctx dest file)) (λ e. e)

-- What follows a run of ffmpeg that has written `file`: its length is read, an empty one is refused,
-- and the rest is sent.
unfoldable pub deliver : World → Ctx → Text → List ℕ → Run (List ℕ)
deliver w ctx dest file = do
  check w.stat_temp (normalize_error (codes "stat temp file: "))
  refuse_if (length file == 0) (because normalize (codes "ffmpeg produced no output"))
  check w.rewind_temp (normalize_error (codes "rewind temp file: "))
  put_file w ctx dest file
  return file

-- The encoding into the temporary file, and its delivery.
unfoldable pub encode_and_put : World → Engine → Ctx → Text → Text → ℤ → Run (List ℕ)
encode_and_put w e ctx url dest rate = do
  x ← run_command w ctx (encode_command e url rate)
  file ← lift (encoded x x.failure)
  deliver w ctx dest file

unfoldable pub with_temp_file : {A : Type 0} → World → Engine → Run A → Run A
with_temp_file w e body = do
  check (w.create_temp e.tmp_dir) (normalize_error (codes "create temp file: "))
  emit (temp_created ∷ [])
  finally body (temp_removed ∷ [])

module _ (fl : Floats) where
  -- The duration of the source, and 0 where it cannot be read.
  abbrev duration_or_zero : Result ProbeResult → ℤ
  duration_or_zero (ok res) = res.duration_ms
  duration_or_zero (err _) = pos 0

  abbrev result_or_err : Result FfprobeOutput → Result ProbeResult
  result_or_err (ok meta) = to_result fl meta
  result_or_err (err e) = err e

  unfoldable pub source_duration : World → Engine → Ctx → Text → Run ℤ
  source_duration w e ctx url =
      attempt (ffprobe_meta w e ctx url) >>= λ meta. return (duration_or_zero (result_or_err meta))

  unfoldable pub normalize_body : World → Engine → Ctx → Text → Text → ℤ → Run NormalizeResult
  normalize_body w e ctx url dest rate = do
    duration_ms ← source_duration w e ctx url
    file ← with_temp_file w e (encode_and_put w e ctx url dest rate)
    return (record {
      duration_ms = duration_ms;
      sample_rate = rate;
      channels = pos 1;
      bytes_written = pos (length file);
    })

  unfoldable pub normalize_audio : World → Engine → Ctx → Text → Text → ℤ → Run NormalizeResult
  normalize_audio w e ctx url dest target_sample_rate = do
    refuse_if (is_blank url) (because invalid_audio (codes "empty source url"))
    refuse_if (is_blank dest) (because normalize (codes "empty dest put url"))
    let rate = if leb_ℤ target_sample_rate (pos 0) then e.target_sample_rate else target_sample_rate
    with_slot w ctx (normalize_body w e (with_timeout ctx e.normalize_timeout) url dest rate)
