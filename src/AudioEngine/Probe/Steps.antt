-- ===== src/AudioEngine/Probe/Steps.antt =====
-- `Probe`, `ffprobeMeta` and `detectSilentThroughout` of internal/audioengine/probe.go.
use audio_service.Base.{Bool, true, Option, none, some, [], ◌∷◌, ◌++◌, if◌then◌else◌}
use audio_service.Base.Int.{ℤ, pos, leb_ℤ}
use audio_service.Base.Text.{Text, codes, is_blank, digits}
use audio_service.Base.Utf8.{runes}
use audio_service.Base.Float.{Floats}
use audio_service.Fault.{Error, opaque_error, wrapped, because, invalid_audio}
use audio_service.Effects.{
  Ctx, with_timeout, CtxErr, ctx_error, World, Command, Exit, Result, ok, err, Run, lift, return,
  attempt, refuse_if, ◌>>◌, ◌>>=◌,
}
use audio_service.AudioEngine.Classify.{classify_probe_err, first_line}
use audio_service.AudioEngine.Engine.{Engine, with_slot}
use audio_service.AudioEngine.Exec.{run_command, captured, stderr_text, max_probe_output_bytes}
use audio_service.AudioEngine.Buffer.{CappedBuffer}
use audio_service.AudioEngine.Probe.{ProbeResult, FfprobeOutput}
use audio_service.AudioEngine.Probe.Output.{decode_output, to_result}
use audio_service.AudioEngine.Probe.Silence.{covers}

abbrev pub probe_command : Engine → Text → Command
probe_command e url = record {
  program = e.ffprobe;
  args =
      codes "-v"
      ∷ codes "error"
      ∷ codes "-hide_banner"
      ∷ codes "-print_format"
      ∷ codes "json"
      ∷ codes "-show_format"
      ∷ codes "-show_streams"
      ∷ codes "-i"
      ∷ url
      ∷ [];
}

-- A process that failed because its context is done, or else by itself.
unfoldable pub process_error : Text → (Error → Error) → Error → Option CtxErr → Error
process_error what own e (some done) =
    wrapped (codes "audioengine: " ++ what ++ codes ": ") (ctx_error done) []
process_error what own e none = own e

-- The detail of the decoder's message is left out.
unfoldable pub output_or_err : Option FfprobeOutput → Result FfprobeOutput
output_or_err none = err (opaque_error (codes "audioengine: ffprobe output not decodable"))
output_or_err (some o) = ok o

-- What is made of ffprobe's standard output.
unfoldable pub metadata : CappedBuffer → Result FfprobeOutput
unfolding output_or_err
metadata out =
    if out.overflow
    then err (
        opaque_error (
          codes "audioengine: ffprobe output exceeded "
          ++ digits max_probe_output_bytes
          ++ codes " bytes"))
    else output_or_err (decode_output (runes out.buf))

unfoldable pub meta_of_exit : Exit → Option Error → Result FfprobeOutput
meta_of_exit x (some e) =
    err (process_error (codes "ffprobe") (classify_probe_err (stderr_text x)) e x.ctx_err)
meta_of_exit x none = metadata (captured max_probe_output_bytes x.stdout)

unfoldable pub ffprobe_meta : World → Engine → Ctx → Text → Run FfprobeOutput
ffprobe_meta w e ctx url = do
  x ← run_command w ctx (probe_command e url)
  lift (meta_of_exit x x.failure)

abbrev pub silence_command : Engine → Text → Command
silence_command e url = record {
  program = e.ffmpeg;
  args =
      codes "-nostdin"
      ∷ codes "-hide_banner"
      ∷ codes "-loglevel"
      ∷ codes "info"
      ∷ codes "-i"
      ∷ url
      ∷ codes "-vn"
      ∷ codes "-af"
      ∷ codes "silencedetect=noise=-50dB:d=0.5"
      ∷ codes "-f"
      ∷ codes "null"
      ∷ codes "-"
      ∷ [];
}

abbrev silence_failure : Exit → Error → Error
silence_failure x e =
    opaque_error
      (codes "audioengine: silencedetect failed: " ++ first_line (stderr_text x) (some e))

module _ (fl : Floats) where
  unfoldable pub silence_of_exit : Exit → Option Error → ℤ → Result Bool
  silence_of_exit x (some e) duration_ms =
      err (process_error (codes "silencedetect") (silence_failure x) e x.ctx_err)
  silence_of_exit x none duration_ms = ok (covers fl (stderr_text x) duration_ms)

  unfoldable pub detect_silent_throughout : World → Engine → Ctx → Text → ℤ → Run Bool
  detect_silent_throughout w e ctx url duration_ms = do
    x ← run_command w ctx (silence_command e url)
    lift (silence_of_exit x x.failure duration_ms)

  -- `if err == nil { res.Silent = silent }`
  abbrev pub with_verdict : ProbeResult → Result Bool → ProbeResult
  with_verdict res (ok silent) = record res { silent = silent }
  with_verdict res (err _) = res

  -- The verdict: no length is silence, and the second pass decides the rest.
  unfoldable pub judge : World → Engine → Ctx → Text → ProbeResult → Run ProbeResult
  judge w e ctx url res =
      let pass = detect_silent_throughout w e ctx url res.duration_ms in
      if leb_ℤ res.duration_ms (pos 0)
      then return (record res { silent = true })
      else (attempt pass >>= λ verdict. return (with_verdict res verdict))

  unfoldable pub probe_body : World → Engine → Ctx → Text → Run ProbeResult
  probe_body w e ctx url = do
    meta ← ffprobe_meta w e ctx url
    res ← lift (to_result fl meta)
    judge w e ctx url res

  unfoldable pub probe : World → Engine → Ctx → Text → Run ProbeResult
  probe w e ctx url = do
    refuse_if (is_blank url) (because invalid_audio (codes "empty source url"))
    with_slot w ctx (probe_body w e (with_timeout ctx e.probe_timeout) url)
