-- ===== src/AudioEngine/Segment/Success.antt =====
-- When `SegmentCut` of internal/audioengine/segment.go succeeds.
use audio_service.Base.{ℕ, ◌≤◌, ◌<◌, ◌≡◌, refl, ◌∙◌, false, none, List, [], ◌∷◌, length, arith}
use audio_service.Base.Int.{ℤ, leb_ℤ}
use audio_service.Base.Text.{Text, is_blank, is_empty}
use audio_service.Base.Float.{Floats}
use audio_service.Fault.{ok}
use audio_service.Effects.{Ctx, with_timeout, World, Exit, Run}
use audio_service.AudioEngine.Buffer.{write_all_lem, take_all}
use audio_service.AudioEngine.Engine.{Engine, with_slot}
use audio_service.AudioEngine.Exec.{run_command, captured}
use audio_service.AudioEngine.Segment.{
  SegmentAudio, max_segment_bytes, wav_type, not_negative, audio_of, segment_of_exit, cut_body,
  segment_cut,
}
use audio_service.AudioEngine.Segment.Cut.{cut_exit}
use mathlib.Core.List.{flatten}

-- What fits in a buffer is kept.
pub captured-fits :
    (limit : ℕ) (chunks : List (List ℕ))
    → length (flatten chunks) ≤ limit
    → ((captured limit chunks).buf ≡ flatten chunks) × ((captured limit chunks).overflow ≡ false)
unfolding captured
captured-fits limit chunks h =
    let l = write_all_lem limit chunks in
    (l.0 ∙ take_all limit (flatten chunks) h, ground (arith, l.1))

pub nonempty : (s : List ℕ) → 0 < length s → is_empty s ≡ false
nonempty [] h = absurd (omega arith)
nonempty (c ∷ s) h = refl

-- The audio that ffmpeg wrote.
abbrev pub whole_audio : Exit → SegmentAudio
whole_audio x = record { wav = flatten x.stdout; mime_type = wav_type }

audio_of-fits :
    (x : Exit)
    → 0 < length (flatten x.stdout)
    → length (flatten x.stdout) ≤ max_segment_bytes
    → audio_of (captured max_segment_bytes x.stdout) ≡ ok (whole_audio x)
unfolding audio_of
audio_of-fits x some_ small =
    let (kept, fits) = captured-fits max_segment_bytes x.stdout small in
    rw fits (rw kept (rw (nonempty (flatten x.stdout) some_) refl))

pub with_slot-free :
    {A : Type 0} (w : World) (ctx : Ctx) (body : Run A) {a : A}
    → w.slot ctx ≡ none
    → body.result ≡ ok a
    → (with_slot w ctx body).result ≡ ok a
unfolding with_slot
with_slot-free w ctx body free h = rw free h

module _ (fl : Floats) (w : World) (e : Engine) (ctx : Ctx) (url : Text) (start_ms end_ms : ℤ) where
  -- ffmpeg ends without an error, with a number of bytes that is allowed.
  pub record GoesWell : Type 0 where
    pub free : w.slot ctx ≡ none
    pub unfailed : (cut_exit fl w e ctx url start_ms end_ms).failure ≡ none
    pub some_audio : 0 < length (flatten (cut_exit fl w e ctx url start_ms end_ms).stdout)
    pub bounded :
        length (flatten (cut_exit fl w e ctx url start_ms end_ms).stdout) ≤ max_segment_bytes

  cut_body-succeeds :
      GoesWell
      → (cut_body fl w e
          (with_timeout ctx e.transcribe_timeout)
          url
          (not_negative start_ms)
          end_ms).result
        ≡ ok (whole_audio (cut_exit fl w e ctx url start_ms end_ms))
  unfolding cut_body run_command segment_of_exit
  cut_body-succeeds g =
      rw g.unfailed (audio_of-fits (cut_exit fl w e ctx url start_ms end_ms) g.some_audio g.bounded)

  pub segment_cut-succeeds :
      is_blank url ≡ false
      → leb_ℤ end_ms start_ms ≡ false
      → GoesWell
      → (segment_cut fl w e ctx url start_ms end_ms).result
        ≡ ok (whole_audio (cut_exit fl w e ctx url start_ms end_ms))
  unfolding segment_cut
  segment_cut-succeeds named ordered g =
      rw named (rw ordered (with_slot-free w ctx _ g.free (cut_body-succeeds g)))
