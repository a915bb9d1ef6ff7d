-- ===== src/AudioEngine/Segment/Format.antt =====
-- The offsets that ffmpeg is given.
use audio_service.Base.{ℕ, ◌*◌, ◌/◌, ◌%◌, ◌^◌, ◌<◌, ◌≡◌, ap, ◌∙◌, arith}
use mathlib.Core.Path.{ap₂}
use audio_service.Base.Int.{pos, negsuc, ◌*ℤ◌, wrap, half64, quot, rem}
use audio_service.Base.Float.{Floats, decimal_seconds}
use audio_service.AudioEngine.Segment.{duration_ns, seconds_text, format_ms}

duration_ns_lem : (ms : ℕ) → ms * 10 ^ 6 < half64 → duration_ns (pos ms) ≡ pos (ms * 10 ^ 6)
unfolding duration_ns ◌*ℤ◌ wrap
duration_ns_lem ms h = ground arith

duration_ns-negative : (n : ℕ) → duration_ns (negsuc n) ≡ duration_ns (pos 0)
unfolding duration_ns
duration_ns-negative n = ground arith

module _ (fl : Floats) where
  seconds_text_lem :
      (ms : ℕ)
      → ms * 10 ^ 6 < half64
      → seconds_text fl (pos (ms * 10 ^ 6)) ≡ decimal_seconds (ms / 1000) (ms % 1000)
  unfolding seconds_text quot rem
  seconds_text_lem ms h =
      ap₂
        (λ q r.
          fl.fixed3
            (fl.add (fl.of_int (pos q)) (fl.div (fl.of_int (pos r)) (fl.of_int (pos (10 ^ 9))))))
        whole part
      ∙ fl.fixed3-seconds (ms / 1000) (ms % 1000) (omega arith) (omega arith)
    where
      whole : ms * 10 ^ 6 / 10 ^ 9 ≡ ms / 1000
      whole = omega arith

      part : ms * 10 ^ 6 % 10 ^ 9 ≡ ms % 1000 * 10 ^ 6
      part = omega arith

  -- An offset whose nanoseconds an int64 can hold is written in seconds with exactly three
  -- decimals, and a negative offset is written as zero.
  pub format_ms_lem :
      (ms n : ℕ)
      → ms * 10 ^ 6 < half64
      → (format_ms fl (pos ms) ≡ decimal_seconds (ms / 1000) (ms % 1000))
        × (format_ms fl (negsuc n) ≡ decimal_seconds 0 0)
  unfolding format_ms
  format_ms_lem ms n h = (
    ap (seconds_text fl) (duration_ns_lem ms h) ∙ seconds_text_lem ms h,
    ap (seconds_text fl) (duration_ns-negative n)
        ∙ (ap (seconds_text fl) (duration_ns_lem 0 (omega arith))
            ∙ seconds_text_lem 0 (omega arith)),
  )
