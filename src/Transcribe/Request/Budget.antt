-- ===== src/Transcribe/Request/Budget.antt =====
-- The output budget of a segment.
use audio_service.Base.{ℕ, ◌+◌, ◌*◌, ◌/◌, ◌≤◌, ◌<◌, ◌≡◌, arith, max}
use audio_service.Base.Int.{pos, wrap, half64}
use audio_service.Transcribe.{Segment}
use audio_service.Transcribe.Request.{max_output_tokens}

-- For a window of up to 50 million seconds with bounds that are int64s and not negative, the budget is 1024
-- tokens and 40 for each second begun, and for one second at least.
pub max_output_tokens_lem :
    (seg : Segment) (start window : ℕ)
    → seg.start_ms ≡ pos start
    → seg.end_ms ≡ pos (start + window)
    → start + window < half64
    → window ≤ 50_000_000_000
    → max_output_tokens seg ≡ pos (1024 + 40 * max ((window + 999) / 1000) 1)
unfolding max_output_tokens wrap
max_output_tokens_lem seg start window s e fits h = ground arith
