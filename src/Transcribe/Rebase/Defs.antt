-- ===== src/Transcribe/Rebase/Defs.antt =====
-- The functions of internal/transcribe/rebase.go.
use audio_service.Base.{true, false, Option, none, some, List, [], ◌∷◌, map, if◌then◌else◌}
use audio_service.Base.Int.{ℤ, pos, ◌+ℤ◌, ltb_ℤ, min_ℤ, max_ℤ, wrap64}
use audio_service.Transcribe.{Segment, Utterance, ModelUtterance, minus_one}

unfoldable pub clamp : ℤ → ℤ → ℤ → ℤ
clamp v lo hi = min_ℤ (max_ℤ v lo) hi

-- A positive offset counts from the start of the window, in int64; any other is `missing`.
unfoldable pub placed : ℤ → ℤ → Option ℤ → ℤ
placed origin missing none = missing
placed origin missing (some off) = if ltb_ℤ (pos 0) off then wrap64 (origin +ℤ off) else missing

abbrev or_else {ℓ} : {A : Type ℓ} → Option A → A → A
or_else none d = d
or_else (some a) d = a

-- `if end < start { end = start }`
unfoldable pub not_before : ℤ → ℤ → ℤ
not_before start end = if ltb_ℤ end start then start else end

unfoldable pub rebase_one : ModelUtterance → Segment → Utterance
rebase_one u seg =
    let start = clamp (placed seg.start_ms seg.start_ms u.start_ms) seg.start_ms seg.end_ms in
    let end = clamp (placed seg.start_ms seg.end_ms u.end_ms) seg.start_ms seg.end_ms in
    record {
      text = u.text;
      start_ms = start;
      end_ms = not_before start end;
      confidence = or_else u.confidence minus_one;
      language = u.language;
      is_speech = or_else u.is_speech true;
    }

unfoldable pub fallback_utterances : Segment → List Utterance
fallback_utterances seg =
    record {
      text = [];
      start_ms = seg.start_ms;
      end_ms = seg.end_ms;
      confidence = minus_one;
      language = seg.language_hint;
      is_speech = false;
    }
    ∷ []

unfoldable pub rebase_utterances : List ModelUtterance → Segment → List Utterance
rebase_utterances [] seg = fallback_utterances seg
rebase_utterances (u ∷ us) seg = map (λ v. rebase_one v seg) (u ∷ us)
