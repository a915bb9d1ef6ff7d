-- ===== src/AudioEngine/Segment.antt =====
-- internal/audioengine/segment.go
pub mod Cut
pub mod Success
pub mod Format
use audio_service.Base.{ℕ, ◌*◌, ◌^◌, Bool, Option, none, some, List, [], ◌∷◌, ◌++◌, if◌then◌else◌}
use audio_service.Base.Int.{ℤ, pos, ◌-ℤ◌, ◌*ℤ◌, ltb_ℤ, leb_ℤ, wrap64, quot, rem}
use audio_service.Base.Text.{Text, codes, is_blank, is_empty, itoa, digits}
use audio_service.Base.Float.{Floats}
use audio_service.Fault.{Error, opaque_error, wrapped, because, invalid_audio}
use audio_service.Effects.{
  Ctx, with_timeout, World, Command, Exit, Result, ok, err, Run, lift, refuse_if, ◌>>◌, ◌>>=◌,
}
use audio_service.AudioEngine.Buffer.{CappedBuffer}
use audio_service.AudioEngine.Classify.{classify_probe_err}
use audio_service.AudioEngine.Engine.{Engine, with_slot}
use audio_service.AudioEngine.Exec.{run_command, captured, stderr_text}
use audio_service.AudioEngine.Probe.Steps.{process_error}

abbrev pub max_segment_bytes : ℕ
max_segment_bytes = 64 * 2 ^ 20

pub record SegmentAudio : Type 0 where
  pub wav : List ℕ
  pub mime_type : Text

abbrev pub wav_type : Text
wav_type = codes "audio/wav"

-- The copy out of the buffer holds the same bytes.
unfoldable pub audio_of : CappedBuffer → Result SegmentAudio
audio_of out =
    if out.overflow
    then err (
        opaque_error
          (codes "audioengine: segment exceeded " ++ digits max_segment_bytes ++ codes " bytes"))
    else (if is_empty out.buf
        then err (because invalid_audio (codes "segment produced no audio"))
        else ok (record { wav = out.buf; mime_type = wav_type }))

unfoldable pub segment_of_exit : Exit → Option Error → Result SegmentAudio
segment_of_exit x (some e) =
    err (process_error (codes "segment cut") (classify_probe_err (stderr_text x)) e x.ctx_err)
segment_of_exit x none = audio_of (captured max_segment_bytes x.stdout)

-- `if ms < 0 { ms = 0 }`
unfoldable pub not_negative : ℤ → ℤ
not_negative ms = if ltb_ℤ ms (pos 0) then pos 0 else ms

-- time.Duration(ms) * time.Millisecond, which wraps.
unfoldable pub duration_ns : ℤ → ℤ
unfolding not_negative
duration_ns ms = wrap64 (not_negative ms *ℤ pos (10 ^ 6))

module _ (fl : Floats) where
  open fl use {Float, of_int, add, div, fixed3}

  -- Duration.Seconds, printed with three decimals.
  unfoldable pub seconds_text : ℤ → Text
  seconds_text d =
      fixed3
        (add (of_int (quot d (10 ^ 9))) (div (of_int (rem d (10 ^ 9))) (of_int (pos (10 ^ 9)))))

  unfoldable pub format_ms : ℤ → Text
  unfolding duration_ns seconds_text
  format_ms ms = seconds_text (duration_ns ms)

  abbrev pub cut_command : Engine → Text → ℤ → ℤ → Command
  cut_command e url start_ms end_ms = record {
    program = e.ffmpeg;
    args =
        codes "-nostdin"
        ∷ codes "-hide_banner"
        ∷ codes "-loglevel"
        ∷ codes "error"
        ∷ codes "-ss"
        ∷ format_ms start_ms
        ∷ codes "-i"
        ∷ url
        ∷ codes "-t"
        ∷ format_ms (wrap64 (end_ms -ℤ start_ms))
        ∷ codes "-vn"
        ∷ codes "-ac"
        ∷ codes "1"
        ∷ codes "-ar"
        ∷ itoa e.target_sample_rate
        ∷ codes "-c:a"
        ∷ codes "pcm_s16le"
        ∷ codes "-f"
        ∷ codes "wav"
        ∷ codes "pipe:1"
        ∷ [];
  }

  unfoldable pub cut_body : World → Engine → Ctx → Text → ℤ → ℤ → Run SegmentAudio
  cut_body w e ctx url start_ms end_ms = do
    x ← run_command w ctx (cut_command e url start_ms end_ms)
    lift (segment_of_exit x x.failure)

  -- The texts of the bounds in an error, as %d prints them.
  abbrev window_text : ℤ → ℤ → Text
  window_text start_ms end_ms =
      codes "empty segment window [" ++ itoa start_ms ++ codes "," ++ itoa end_ms ++ codes ")"

  unfoldable pub segment_cut : World → Engine → Ctx → Text → ℤ → ℤ → Run SegmentAudio
  segment_cut w e ctx url start_ms end_ms = do
    refuse_if (is_blank url) (because invalid_audio (codes "empty normalized url"))
    refuse_if (leb_ℤ end_ms start_ms) (because invalid_audio (window_text start_ms end_ms))
    with_slot w ctx
        (cut_body w e (with_timeout ctx e.transcribe_timeout) url (not_negative start_ms) end_ms)
