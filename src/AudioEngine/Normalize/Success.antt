-- ===== src/AudioEngine/Normalize/Success.antt =====
-- When `Normalize` of internal/audioengine/normalize.go succeeds.
use audio_service.Base.{ℕ, ◌<◌, ◌≡◌, refl, false, none, List, length, ◌==◌, arith}
use audio_service.Base.Int.{ℤ, pos}
use audio_service.Base.Text.{Text, is_blank}
use audio_service.Base.Float.{Floats}
use audio_service.Fault.{ok}
use audio_service.Effects.{Ctx, incoming, with_timeout, World, Upload, refused, response, Run}
use audio_service.AudioEngine.Engine.{Engine}
use audio_service.AudioEngine.Exec.{run_command}
use audio_service.AudioEngine.Segment.Success.{with_slot-free}
use audio_service.AudioEngine.Probe.Steps.{ffprobe_meta}
use audio_service.AudioEngine.Normalize.{
  NormalizeResult, encoded, upload_result, put_file, deliver, encode_and_put, with_temp_file,
  source_duration, duration_or_zero, result_or_err, normalize_body, normalize_audio,
}
use audio_service.AudioEngine.Normalize.Delivery.{IsAccepted, encode_exit, rate_or_default}
use mathlib.Core.List.{flatten}

accepted-none : (u : Upload) → IsAccepted u → upload_result u ≡ none
unfolding upload_result
accepted-none (refused e) h = elim h [ ]
accepted-none (response code status) h = ground arith

module _ (w : World) (e : Engine) (ctx : Ctx) (url dest : Text) (rate : ℤ) where
  abbrev pub written : List ℕ
  written = flatten (encode_exit w e ctx url dest rate).stdout

  -- The temporary file, ffmpeg and the destination do their part.
  pub record Accepts : Type 0 where
    pub made : w.create_temp e.tmp_dir ≡ none
    pub unfailed : (encode_exit w e ctx url dest rate).failure ≡ none
    pub stated : w.stat_temp ≡ none
    pub some_audio : 0 < length written
    pub rewound : w.rewind_temp ≡ none
    pub built : w.new_put dest ≡ none
    pub accepted : IsAccepted (w.put ctx dest written)

  not_empty : (file : List ℕ) → 0 < length file → (length file == 0) ≡ false
  not_empty file h = ground arith

  put_file-succeeds : Accepts → (put_file w ctx dest written).result ≡ ok tt
  unfolding put_file
  put_file-succeeds a = rw a.built (rw (accepted-none (w.put ctx dest written) a.accepted) refl)

  deliver-succeeds : Accepts → (deliver w ctx dest written).result ≡ ok written
  unfolding deliver
  deliver-succeeds a =
      simp a.stated
        (rw (not_empty written a.some_audio) (simp a.rewound (rw (put_file-succeeds a) refl)))

  encode_and_put-succeeds : Accepts → (encode_and_put w e ctx url dest rate).result ≡ ok written
  unfolding encode_and_put run_command encoded
  encode_and_put-succeeds a = rw a.unfailed (deliver-succeeds a)

  with_temp_file-succeeds :
      {A : Type 0} (body : Run A) {b : A}
      → Accepts
      → body.result ≡ ok b
      → (with_temp_file w e body).result ≡ ok b
  unfolding with_temp_file
  with_temp_file-succeeds body a h = rw a.made h

module _ (fl : Floats) (w : World) (e : Engine) (url dest : Text) (rate : ℤ) where
  abbrev limited : Ctx
  limited = with_timeout incoming e.normalize_timeout

  -- What a normalisation returns: the duration of the source is best effort.
  abbrev pub normalised : NormalizeResult
  normalised = record {
    duration_ms = duration_or_zero fl (result_or_err fl (ffprobe_meta w e limited url).result);
    sample_rate = rate_or_default e rate;
    channels = pos 1;
    bytes_written = pos (length (written w e limited url dest (rate_or_default e rate)));
  }

  normalize_body-succeeds :
      Accepts w e limited url dest (rate_or_default e rate)
      → (normalize_body fl w e limited url dest (rate_or_default e rate)).result ≡ ok normalised
  unfolding normalize_body source_duration
  normalize_body-succeeds a =
      rw
        (with_temp_file-succeeds w e limited url dest (rate_or_default e rate)
          (encode_and_put w e limited url dest (rate_or_default e rate)) a
          (encode_and_put-succeeds w e limited url dest (rate_or_default e rate) a))
        refl

  pub normalize_audio-succeeds :
      is_blank url ≡ false
      → is_blank dest ≡ false
      → w.slot incoming ≡ none
      → Accepts w e limited url dest (rate_or_default e rate)
      → (normalize_audio fl w e incoming url dest rate).result ≡ ok normalised
  unfolding normalize_audio
  normalize_audio-succeeds named aimed free a =
      rw named (rw aimed (with_slot-free w incoming _ free (normalize_body-succeeds a)))
