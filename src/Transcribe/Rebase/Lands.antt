-- ===== src/Transcribe/Rebase/Lands.antt =====
-- Where rebase.go puts an utterance whose offsets are within the window.
use audio_service.Base.{◌^◌, ◌≡◌, ap, ◌⊎◌, inl, inr, some, true, false, arith, if◌then◌else◌}
use audio_service.Base.Int.{
  ℤ, pos, negsuc, pos_part, ◌+ℤ◌, ◌-ℤ◌, ◌≤ℤ◌, ◌<ℤ◌, IsInt64, wrap64_of_IsInt64, int_laws, max_ℤ,
  ltb_ℤ,
}
use audio_service.Base.Float.{rounded, rounded_of_small}
use audio_service.Transcribe.{Segment, ModelUtterance}
use audio_service.Transcribe.Request.{window_ms}
use audio_service.Transcribe.Rebase.Defs.{clamp, placed, not_before, rebase_one}
use audio_service.Transcribe.Rebase.Offsets.{
  clamp_inside, placed_inside, not_before_of_le, not_before_of_ge,
}
use audio_service.Transcribe.Rebase.Shift.{placed_of_nonpos, sign}
use audio_service.Transcribe.Reply.Follows.{Spanned}

-- A window of the audio that is shorter than 2 ^ 53 milliseconds.
pub record IsWindow (seg : Segment) : Type 0 where
  pub origin : IsInt64 seg.start_ms
  pub bound : IsInt64 seg.end_ms
  pub forward : pos 0 ≤ℤ seg.start_ms
  pub ordered : seg.start_ms ≤ℤ seg.end_ms
  pub short : seg.end_ms -ℤ seg.start_ms <ℤ pos (2 ^ 53)

-- The end of an utterance, by its offsets: an end at 0 was not told, and one before the start is
-- the start.
abbrev pub end_at : Segment → ℤ → ℤ → ℤ
end_at seg start end = if ltb_ℤ (pos 0) end then seg.start_ms +ℤ max_ℤ start end else seg.end_ms

-- The utterance stands where its offsets from the start of the window say.
pub record Lands (seg : Segment) (u : ModelUtterance) : Type 0 where
  pub offsets : Spanned (window_ms seg) u
  pub start : (rebase_one u seg).start_ms ≡ seg.start_ms +ℤ offsets.start
  pub end : (rebase_one u seg).end_ms ≡ end_at seg offsets.start offsets.end

difference-IsInt64 : (a b : ℤ) → IsInt64 a → pos 0 ≤ℤ b → b ≤ℤ a → IsInt64 (a -ℤ b)
unfolding ◌-ℤ◌
difference-IsInt64 a b h l k = ground arith

max_of_nonneg : (a : ℤ) → pos 0 ≤ℤ a → max_ℤ a (pos 0) ≡ a
unfolding max_ℤ
max_of_nonneg a h = ground arith

pos-rounded : (d : ℤ) → pos 0 ≤ℤ d → d <ℤ pos (2 ^ 53) → pos (rounded (pos_part d)) ≡ d
pos-rounded (pos n) l h = ap pos (rounded_of_small n (omega (arith, h)))
pos-rounded (negsuc n) l h = absurd (omega (arith, l))

max_of_le : (a b : ℤ) → a ≤ℤ b → max_ℤ a b ≡ b
unfolding max_ℤ
max_of_le a b h = ground arith

max_of_ge : (a b : ℤ) → b ≤ℤ a → max_ℤ a b ≡ a
unfolding max_ℤ
max_of_ge a b h = ground arith

positive : (b : ℤ) → pos 0 <ℤ b → ltb_ℤ (pos 0) b ≡ true
positive b h = ground arith

not_positive : (b : ℤ) → b ≤ℤ pos 0 → ltb_ℤ (pos 0) b ≡ false
not_positive b h = ground arith

total : (a b : ℤ) → (a ≤ℤ b) ⊎ (b ≤ℤ a)
total a b = omega arith

not_before-max : (o a b : ℤ) → not_before (o +ℤ a) (o +ℤ b) ≡ o +ℤ max_ℤ a b
not_before-max o a b = elim (total a b) [
  | inl h ↦ rw (max_of_le a b h) (not_before_of_le (o +ℤ a) (o +ℤ b) (omega (int_laws, h)))
  | inr h ↦ rw (max_of_ge a b h) (not_before_of_ge (o +ℤ a) (o +ℤ b) (omega (int_laws, h)))
]

module _ (seg : Segment) (w : IsWindow seg) where
  window_ms-difference : window_ms seg ≡ seg.end_ms -ℤ seg.start_ms
  unfolding window_ms
  window_ms-difference =
      let d = seg.end_ms -ℤ seg.start_ms in
      let nonneg : pos 0 ≤ℤ d = omega (int_laws, w.ordered) in
      rw
        (wrap64_of_IsInt64 d
          (difference-IsInt64 seg.end_ms seg.start_ms w.bound w.forward w.ordered))
        (rw (max_of_nonneg d nonneg) (pos-rounded d nonneg w.short))

  pub window_ms-IsInt64 : IsInt64 (window_ms seg)
  window_ms-IsInt64 =
      rw window_ms-difference
        (difference-IsInt64 seg.end_ms seg.start_ms w.bound w.forward w.ordered)

  inside : (n : ℤ) → n ≤ℤ window_ms seg → seg.start_ms +ℤ n ≤ℤ seg.end_ms
  inside n h = omega (int_laws, rw window_ms-difference at h, w.ordered)

  start-exact :
      (a : ℤ)
      → pos 0 ≤ℤ a
      → a ≤ℤ window_ms seg
      → clamp (placed seg.start_ms seg.start_ms (some a)) seg.start_ms seg.end_ms
        ≡ seg.start_ms +ℤ a
  start-exact a l h = elim (sign a) [
    | inl p ↦ placed_inside seg.start_ms seg.start_ms a seg.end_ms p (inside a h) w.origin w.bound
    | inr n ↦ rw (placed_of_nonpos seg.start_ms seg.start_ms a n) (
        rw (clamp_inside seg.start_ms seg.start_ms seg.end_ms (omega arith) w.ordered)
          (omega (int_laws, l, n)))
  ]

  end-exact :
      (a b : ℤ)
      → a ≤ℤ window_ms seg
      → b ≤ℤ window_ms seg
      → pos 0 ≤ℤ b
      → not_before
          (seg.start_ms +ℤ a)
          (clamp (placed seg.start_ms seg.end_ms (some b)) seg.start_ms seg.end_ms)
        ≡ end_at seg a b
  end-exact a b ha hb l = elim (sign b) [
    | inl p ↦
        rw (placed_inside seg.start_ms seg.end_ms b seg.end_ms p (inside b hb) w.origin w.bound)
          (rw (positive b p) (not_before-max seg.start_ms a b))
    | inr n ↦ rw (placed_of_nonpos seg.start_ms seg.end_ms b n) (
        rw (clamp_inside seg.end_ms seg.start_ms seg.end_ms w.ordered (omega arith))
          (rw (not_positive b n) (not_before_of_le (seg.start_ms +ℤ a) seg.end_ms (inside a ha))))
  ]

  pub Spanned-Lands : (u : ModelUtterance) → Spanned (window_ms seg) u → Lands seg u
  unfolding rebase_one
  Spanned-Lands u s =
      let first = start-exact s.start s.start_nonneg s.start_inside in
      record {
        offsets = s;
        start = rw s.has_start first;
        end =
            rw (s.has_start, s.has_end)
              (rw first (end-exact s.start s.end s.start_inside s.end_inside s.end_nonneg));
      }
