-- ===== src/Transcribe/Rebase/Window.antt =====
-- Where the utterances of internal/transcribe/rebase.go stand, and how many there are.
use audio_service.Base.{max, ◌≡◌, refl, List, [], ◌∷◌, All, All-map, length, length-map, arith}
use audio_service.Base.Int.{ℤ, ◌≤ℤ◌, min_ℤ, max_ℤ}
use audio_service.Transcribe.{Segment, Utterance, ModelUtterance}
use audio_service.Transcribe.Rebase.Defs.{
  clamp, placed, not_before, rebase_one, fallback_utterances, rebase_utterances,
}

abbrev pub InWindow : Segment → Utterance → Type 0
InWindow seg u = (seg.start_ms ≤ℤ u.start_ms) × (u.start_ms ≤ℤ u.end_ms) × (u.end_ms ≤ℤ seg.end_ms)

clamp_bounds : (v lo hi : ℤ) → lo ≤ℤ hi → (lo ≤ℤ clamp v lo hi) × (clamp v lo hi ≤ℤ hi)
unfolding clamp min_ℤ max_ℤ
clamp_bounds v lo hi h = ground arith

not_before_bounds :
    (start end hi : ℤ)
    → start ≤ℤ hi
    → end ≤ℤ hi
    → (start ≤ℤ not_before start end) × (not_before start end ≤ℤ hi)
unfolding not_before
not_before_bounds start end hi h k = ground arith

rebase_one-InWindow :
    (u : ModelUtterance) (seg : Segment)
    → seg.start_ms ≤ℤ seg.end_ms
    → InWindow seg (rebase_one u seg)
unfolding rebase_one
rebase_one-InWindow u seg h =
    let start = placed seg.start_ms seg.start_ms u.start_ms in
    let end = placed seg.start_ms seg.end_ms u.end_ms in
    let s = clamp_bounds start seg.start_ms seg.end_ms h in
    let e = clamp_bounds end seg.start_ms seg.end_ms h in
    let b =
      not_before_bounds (clamp start seg.start_ms seg.end_ms) (clamp end seg.start_ms seg.end_ms)
        seg.end_ms s.1 e.1 in
    (s.0, b.0, b.1)

-- Whatever offsets the model reports, also such that overflow an int64: if the window is not
-- reversed, every utterance that is returned starts no earlier than the window, ends no later than
-- it, and does not end before its start.
pub rebase_utterances-InWindow :
    (us : List ModelUtterance) (seg : Segment)
    → seg.start_ms ≤ℤ seg.end_ms
    → All (InWindow seg) (rebase_utterances us seg)
unfolding rebase_utterances fallback_utterances
rebase_utterances-InWindow [] seg h = ((omega arith, h, omega arith), tt)
rebase_utterances-InWindow (u ∷ us) seg h =
    All-map (InWindow seg) (λ v. rebase_one v seg) (λ v. rebase_one-InWindow v seg h) (u ∷ us)

-- There are as many utterances as the model reported, and one where it reported none.
pub length-rebase_utterances :
    (us : List ModelUtterance) (seg : Segment)
    → length (rebase_utterances us seg) ≡ max 1 (length us)
unfolding rebase_utterances fallback_utterances
length-rebase_utterances [] seg = refl
length-rebase_utterances (u ∷ us) seg = omega (arith, length-map (u ∷ us) (λ v. rebase_one v seg))
