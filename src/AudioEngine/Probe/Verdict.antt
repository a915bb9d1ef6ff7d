-- ===== src/AudioEngine/Probe/Verdict.antt =====
-- The verdict of a probe that succeeds.
use audio_service.Base.{
  ◌≡◌, refl, Bool, false, ◌||◌, Bool-cases, some, Option-cases, inl, inr, arith,
}
use audio_service.Base.Int.{ℤ, pos, leb_ℤ}
use audio_service.Base.Text.{Text, is_blank}
use audio_service.Base.Float.{Floats}
use audio_service.Fault.{Result, ok, err}
use audio_service.Effects.{Ctx, with_timeout, World, Exit, after-ok, lift, ◌>>=◌}
use audio_service.AudioEngine.Engine.{Engine}
use audio_service.AudioEngine.Exec.{run_command}
use audio_service.AudioEngine.Segment.Cut.{with_slot-ok}
use audio_service.AudioEngine.Probe.{ProbeResult, FfprobeOutput, FfprobeStream}
use audio_service.AudioEngine.Probe.Output.{to_result, first_audio}
use audio_service.AudioEngine.Probe.Reading.{
  IsFirstAudio, first_audio-IsFirstAudio, Prints, meta_of_exit-Prints, IsReport, to_result-IsReport,
}
use audio_service.AudioEngine.Probe.Steps.{
  ffprobe_meta, probe_command, silence_command, silence_of_exit, with_verdict, judge,
  detect_silent_throughout, probe_body, probe,
}

-- A failed second pass finds no silence.
abbrev pub heard : Result Bool → Bool
heard (ok silent) = silent
heard (err _) = false

module _ (fl : Floats) (w : World) (e : Engine) (ctx : Ctx) (url : Text) where
  abbrev pub meta_exit : Exit
  meta_exit = w.run ctx (probe_command e url)

  abbrev pub pass : ℤ → Result Bool
  pass duration_ms =
      let x = w.run ctx (silence_command e url) in silence_of_exit fl x x.failure duration_ms

  -- The result is what ffprobe printed of the first audio stream, with a verdict on silence.
  pub record IsJudged (res : ProbeResult) : Type 0 where
    pub output : FfprobeOutput
    pub printed : Prints meta_exit output
    pub stream : FfprobeStream
    pub is_first : IsFirstAudio stream output.streams
    pub reported : IsReport fl output stream res
    pub verdict : res.silent ≡ (leb_ℤ res.duration_ms (pos 0) || heard (pass res.duration_ms))

  pub with_verdict-heard :
      (found : ProbeResult) (r : Result Bool)
      → found.silent ≡ false
      → with_verdict fl found r ≡ record found { silent = heard r }
  with_verdict-heard found (ok silent) h = refl
  with_verdict-heard found (err _) h = ground arith

  judge-verdict :
      (found res : ProbeResult)
      → found.silent ≡ false
      → (judge fl w e ctx url found).result ≡ ok res
      → res ≡ record found {
        silent = leb_ℤ found.duration_ms (pos 0) || heard (pass found.duration_ms);
      }
  unfolding judge detect_silent_throughout run_command
  judge-verdict found res fresh h = elim (Bool-cases (leb_ℤ found.duration_ms (pos 0))) [
    | inl short ↦ ground arith
    | inr long ↦ ground (arith, with_verdict-heard found (pass found.duration_ms) fresh)
  ]

  to_result-first :
      (o : FfprobeOutput) (found : ProbeResult)
      → to_result fl o ≡ ok found
      → ((s : FfprobeStream) × (first_audio o.streams ≡ some s)) × (found.silent ≡ false)
  unfolding to_result
  to_result-first o found h = elim (Option-cases (first_audio o.streams)) [
    | inl none_ ↦ cc (rw none_ at h)
    | inr (s, first) ↦ ((s, first), ground (arith, rw first at h))
  ]

  probe_body-IsJudged :
      (res : ProbeResult) → (probe_body fl w e ctx url).result ≡ ok res → IsJudged res
  unfolding probe_body ffprobe_meta run_command
  probe_body-IsJudged res h =
      let (output, decoded, h1) =
        after-ok (ffprobe_meta w e ctx url).events (ffprobe_meta w e ctx url).result
          (λ o. lift (to_result fl o) >>= judge fl w e ctx url) h in
      let (found, reported, h2) =
        after-ok (lift (to_result fl output)).events (to_result fl output) (judge fl w e ctx url)
          h1 in
      let ((stream, first), fresh) = to_result-first output found reported in
      let same = judge-verdict found res fresh h2 in
      let report = to_result-IsReport fl output stream found first reported in
      record {
        output = output;
        printed = meta_of_exit-Prints meta_exit output decoded;
        stream = stream;
        is_first = first_audio-IsFirstAudio output.streams stream first;
        reported = rw same (record {
          container = report.container;
          codec = report.codec;
          channels = report.channels;
          sample_rate = report.sample_rate;
          duration = report.duration;
        });
        verdict = ground (arith, same);
      }

module _ (fl : Floats) (w : World) (e : Engine) (ctx : Ctx) (url : Text) where
  -- A probe that succeeds has run ffprobe with the engine's deadline, and this has ended without an
  -- error and printed a document that has an audio stream. The result has the container's format,
  -- the codec and the channels of the first such stream, its rate where that is a number that is not
  -- negative and otherwise 0, and the container's duration where that is positive and otherwise the
  -- stream's. It says silent exactly if the duration is not positive or the second pass found
  -- silence throughout: a second pass that fails does not fail the probe.
  pub probe-IsJudged :
      (res : ProbeResult)
      → (probe fl w e ctx url).result ≡ ok res
      → IsJudged fl w e (with_timeout ctx e.probe_timeout) url res
  unfolding probe
  probe-IsJudged res h = elim (Bool-cases (is_blank url)) [
    | inl blank ↦ cc (rw blank at h)
    | inr named ↦ probe_body-IsJudged fl w e (with_timeout ctx e.probe_timeout) url res (
        with_slot-ok w ctx (probe_body fl w e (with_timeout ctx e.probe_timeout) url)
          (rw named at h))
  ]
