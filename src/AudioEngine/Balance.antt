-- ===== src/AudioEngine/Balance.antt =====
-- What the operations of internal/audioengine take and give back.
pub mod Parts
use audio_service.Base.{
  ℕ, suc, ◌≡◌, refl, Bool, true, false, Option, none, some, List, [], ◌∷◌, ◌++◌, Bool-cases, inl,
  inr, if◌then◌else◌, arith,
}
use audio_service.Base.Int.{ℤ, leb_ℤ, pos}
use audio_service.Base.Text.{Text, is_blank}
use audio_service.Base.Float.{Floats}
use audio_service.Fault.{Error, Result, ok, err}
use audio_service.Effects.{
  with_timeout, Ctx, CtxErr, World, Command, Event, Run, lift, after, check, refuse_if,
  temp_removed, attempt, finally, ◌>>◌, ◌>>=◌,
}
use audio_service.AudioEngine.Engine.{Engine, acquired, with_slot, release_worker}
use audio_service.AudioEngine.Exec.{run_command}
use audio_service.AudioEngine.Pool.Bracket.{Holding, Needs, Leads, Leads-append}
use audio_service.AudioEngine.Probe.{ProbeResult}
use audio_service.AudioEngine.Probe.Output.{to_result}
use audio_service.AudioEngine.Probe.Steps.{
  probe_command, ffprobe_meta, silence_command, detect_silent_throughout, judge, probe_body, probe,
}
use audio_service.AudioEngine.Segment.{not_negative, cut_command, cut_body, segment_cut}
use audio_service.AudioEngine.Normalize.{
  upload_result, put_file, encode_command, encode_and_put, with_temp_file, source_duration,
  normalize_body, normalize_audio,
}
use audio_service.AudioEngine.Balance.Parts.{
  Keeps, Working, Free, silent, bind-Keeps, refuse_if-Keeps, if-Keeps, run_command-Keeps,
  with_slot-Keeps, ffprobe_meta-Keeps, with_temp_file-Keeps, encode_and_put-Keeps,
}

module _ (fl : Floats) (h : Holding) (w : World) (e : Engine) (ctx : Ctx) (url : Text) where
  detect-Keeps : (d : ℤ) → Keeps (Working h) (detect_silent_throughout fl w e ctx url d)
  unfolding detect_silent_throughout
  detect-Keeps d = bind-Keeps (run_command-Keeps h w ctx (silence_command e url)) (λ x. silent)

  judge-Keeps : (res : ProbeResult) → Keeps (Working h) (judge fl w e ctx url res)
  unfolding judge
  judge-Keeps res = if-Keeps (leb_ℤ res.duration_ms (pos 0)) silent (record {
    leads =
        Leads-append _ [] (Working h) (Working h) (Working h) (detect-Keeps res.duration_ms).leads
          refl;
  })

  probe_body-Keeps : Keeps (Working h) (probe_body fl w e ctx url)
  unfolding probe_body
  probe_body-Keeps =
      bind-Keeps (ffprobe_meta-Keeps h w e ctx url) (λ meta. bind-Keeps silent judge-Keeps)

  cut_body-Keeps :
      (start_ms end_ms : ℤ) → Keeps (Working h) (cut_body fl w e ctx url start_ms end_ms)
  unfolding cut_body
  cut_body-Keeps start_ms end_ms =
      bind-Keeps (run_command-Keeps h w ctx (cut_command fl e url start_ms end_ms)) (λ x. silent)

  source_duration-Keeps : Keeps (Working h) (source_duration fl w e ctx url)
  unfolding source_duration
  source_duration-Keeps = record {
    leads =
        Leads-append _ [] (Working h) (Working h) (Working h)
          (ffprobe_meta-Keeps h w e ctx url).leads refl;
  }

  normalize_body-Keeps :
      (dest : Text) (rate : ℤ) → Keeps (Working h) (normalize_body fl w e ctx url dest rate)
  unfolding normalize_body
  normalize_body-Keeps dest rate = bind-Keeps source_duration-Keeps (λ d.
      bind-Keeps
        (with_temp_file-Keeps h w e ctx (encode_and_put w e ctx url dest rate)
          (encode_and_put-Keeps (record h { files = suc h.files }) w e ctx url dest rate))
        (λ file. silent))

module _ (fl : Floats) (h : Holding) (w : World) (e : Engine) (ctx : Ctx) (url : Text) where
  pub probe-Keeps : Keeps (Free h) (probe fl w e ctx url)
  unfolding probe
  probe-Keeps =
      bind-Keeps (refuse_if-Keeps (Free h) _ _)
        (λ u. with_slot-Keeps h w ctx _ (probe_body-Keeps fl h w e _ url))

  pub segment_cut-Keeps :
      (start_ms end_ms : ℤ) → Keeps (Free h) (segment_cut fl w e ctx url start_ms end_ms)
  unfolding segment_cut
  segment_cut-Keeps start_ms end_ms = bind-Keeps (refuse_if-Keeps (Free h) (is_blank url) _) (λ u.
      bind-Keeps (refuse_if-Keeps (Free h) (leb_ℤ end_ms start_ms) _) (λ v.
        with_slot-Keeps h w ctx _ (
          cut_body-Keeps fl h w e (with_timeout ctx e.transcribe_timeout) url
            (not_negative start_ms) end_ms)))

  pub normalize_audio-Keeps :
      (dest : Text) (rate : ℤ) → Keeps (Free h) (normalize_audio fl w e ctx url dest rate)
  unfolding normalize_audio
  normalize_audio-Keeps dest rate = bind-Keeps (refuse_if-Keeps (Free h) (is_blank url) _) (λ u.
      bind-Keeps (refuse_if-Keeps (Free h) (is_blank dest) _) (λ v. with_slot-Keeps h w ctx _ (
        normalize_body-Keeps fl h w e (with_timeout ctx e.normalize_timeout) url dest
          (if leb_ℤ rate (pos 0) then e.target_sample_rate else rate))))
