-- ===== src/AudioEngine/Probe/Success.antt =====
-- When `Probe` of internal/audioengine/probe.go succeeds.
use audio_service.Base.{◌≡◌, refl, ap, false, ◌||◌, Bool-cases, none, inl, inr}
use audio_service.Base.Int.{pos, leb_ℤ}
use audio_service.Base.Text.{Text, is_blank}
use audio_service.Base.Float.{Floats}
use audio_service.Fault.{ok}
use audio_service.Effects.{Ctx, with_timeout, World}
use audio_service.AudioEngine.Engine.{Engine}
use audio_service.AudioEngine.Exec.{run_command}
use audio_service.AudioEngine.Segment.Success.{with_slot-free}
use audio_service.AudioEngine.Probe.{ProbeResult, FfprobeOutput, FfprobeStream}
use audio_service.AudioEngine.Probe.Output.{to_result, duration_of, parse_int_field}
use audio_service.AudioEngine.Probe.Reading.{
  IsFirstAudio, IsFirstAudio-first_audio, Prints, Prints-meta_of_exit,
}
use audio_service.AudioEngine.Probe.Steps.{
  ffprobe_meta, judge, detect_silent_throughout, probe_body, probe,
}
use audio_service.AudioEngine.Probe.Verdict.{heard, pass, meta_exit, with_verdict-heard}

module _ (fl : Floats) (w : World) (e : Engine) (ctx : Ctx) (url : Text) where
  -- ffprobe ends without an error, and its document has an audio stream.
  pub record Readable (output : FfprobeOutput) (stream : FfprobeStream) : Type 0 where
    pub printed : Prints (meta_exit fl w e ctx url) output
    pub is_first : IsFirstAudio stream output.streams

  -- What is reported of a stream, and whether it is silent.
  abbrev pub reported : FfprobeOutput → FfprobeStream → ProbeResult
  reported output stream =
      let ms = duration_of fl output.format.duration stream.duration in
      record {
        duration_ms = ms;
        channels = stream.channels;
        sample_rate = parse_int_field stream.sample_rate;
        container = output.format.format_name;
        codec = stream.codec_name;
        silent = leb_ℤ ms (pos 0) || heard (pass fl w e ctx url ms);
      }

  judge-succeeds :
      (found : ProbeResult)
      → found.silent ≡ false
      → (judge fl w e ctx url found).result
        ≡ ok (record found {
          silent = leb_ℤ found.duration_ms (pos 0) || heard (pass fl w e ctx url found.duration_ms);
        })
  unfolding judge detect_silent_throughout run_command
  judge-succeeds found fresh = elim (Bool-cases (leb_ℤ found.duration_ms (pos 0))) [
    | inl short ↦ rw short refl
    | inr long ↦ rw long (
        ap ok
          (with_verdict-heard fl w e ctx url found (pass fl w e ctx url found.duration_ms) fresh))
  ]

  pub probe_body-succeeds :
      (output : FfprobeOutput) (stream : FfprobeStream)
      → Readable output stream
      → (probe_body fl w e ctx url).result ≡ ok (reported output stream)
  unfolding probe_body ffprobe_meta run_command to_result
  probe_body-succeeds output stream r =
      rw (Prints-meta_of_exit (meta_exit fl w e ctx url) output r.printed)
        (rw (IsFirstAudio-first_audio output.streams stream r.is_first) (judge-succeeds _ refl))

module _ (fl : Floats) (w : World) (e : Engine) (ctx : Ctx) (url : Text) where
  pub probe-succeeds :
      (output : FfprobeOutput) (stream : FfprobeStream)
      → is_blank url ≡ false
      → w.slot ctx ≡ none
      → Readable fl w e (with_timeout ctx e.probe_timeout) url output stream
      → (probe fl w e ctx url).result
        ≡ ok (reported fl w e (with_timeout ctx e.probe_timeout) url output stream)
  unfolding probe
  probe-succeeds output stream named free r = rw named (
      with_slot-free w ctx _ free
        (probe_body-succeeds fl w e (with_timeout ctx e.probe_timeout) url output stream r))
