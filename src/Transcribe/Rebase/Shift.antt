-- ===== src/Transcribe/Rebase/Shift.antt =====
-- Moving the window of a segment.
use audio_service.Base.{◌≡◌, refl, Option, none, some, ◌⊎◌, inl, inr, arith}
use audio_service.Base.Int.{
  ℤ, pos, ◌+ℤ◌, ◌≤ℤ◌, ◌<ℤ◌, IsInt64, wrap64_of_IsInt64, int_laws, min_ℤ, max_ℤ, ltb_ℤ, +ℤ_parts,
}
use audio_service.Transcribe.{Segment, ModelUtterance}
use audio_service.Transcribe.Rebase.Defs.{clamp, placed, not_before, rebase_one}
use audio_service.Transcribe.Rebase.Offsets.{placed_of_pos}

pub placed_of_nonpos :
    (origin missing off : ℤ) → off ≤ℤ pos 0 → placed origin missing (some off) ≡ missing
unfolding placed
placed_of_nonpos origin missing off h = ground arith

pub sign : (a : ℤ) → (pos 0 <ℤ a) ⊎ (a ≤ℤ pos 0)
sign a = omega arith

abbrev pub shift : ℤ → Segment → Segment
shift d seg = record seg { start_ms = seg.start_ms +ℤ d; end_ms = seg.end_ms +ℤ d }

-- The sum of an origin and a reported offset is an int64.
abbrev pub Fits : ℤ → Option ℤ → Type 0
Fits origin none = Unit
Fits origin (some off) = IsInt64 (origin +ℤ off)

placed-shift :
    (d origin missing : ℤ) (off : Option ℤ)
    → Fits origin off
    → Fits (origin +ℤ d) off
    → placed (origin +ℤ d) (missing +ℤ d) off ≡ placed origin missing off +ℤ d
placed-shift d origin missing none h k = unfold placed in refl
placed-shift d origin missing (some off) h k = shifted
  where
    sum : origin +ℤ d +ℤ off ≡ origin +ℤ off +ℤ d
    sum = omega int_laws

    shifted : placed (origin +ℤ d) (missing +ℤ d) (some off) ≡ placed origin missing (some off) +ℤ d
    shifted = elim (sign off) [
      | inl p ↦ rw (placed_of_pos (origin +ℤ d) (missing +ℤ d) off p) (
          rw (placed_of_pos origin missing off p) (
            rw (wrap64_of_IsInt64 (origin +ℤ d +ℤ off) k)
              (rw (wrap64_of_IsInt64 (origin +ℤ off) h) sum)))
      | inr n ↦
          rw (placed_of_nonpos (origin +ℤ d) (missing +ℤ d) off n)
            (rw (placed_of_nonpos origin missing off n) refl)
    ]

ltb_ℤ-shift : (d a b : ℤ) → ltb_ℤ (a +ℤ d) (b +ℤ d) ≡ ltb_ℤ a b
ltb_ℤ-shift d a b = grind (arith, +ℤ_parts a d, +ℤ_parts b d)

max_ℤ-shift : (d a b : ℤ) → max_ℤ (a +ℤ d) (b +ℤ d) ≡ max_ℤ a b +ℤ d
unfolding max_ℤ
max_ℤ-shift d a b = ground (arith, ltb_ℤ-shift d a b)

min_ℤ-shift : (d a b : ℤ) → min_ℤ (a +ℤ d) (b +ℤ d) ≡ min_ℤ a b +ℤ d
unfolding min_ℤ
min_ℤ-shift d a b = ground (arith, ltb_ℤ-shift d b a)

clamp-shift : (d v lo hi : ℤ) → clamp (v +ℤ d) (lo +ℤ d) (hi +ℤ d) ≡ clamp v lo hi +ℤ d
unfolding clamp
clamp-shift d v lo hi = simp (max_ℤ-shift, min_ℤ-shift)

not_before-shift :
    (d start end : ℤ) → not_before (start +ℤ d) (end +ℤ d) ≡ not_before start end +ℤ d
unfolding not_before
not_before-shift d start end = ground (arith, ltb_ℤ-shift d end start)

-- Where no sum overflows, moving the window moves each utterance by the same amount.
pub rebase_one-shift :
    (u : ModelUtterance) (seg : Segment) (d : ℤ)
    → Fits seg.start_ms u.start_ms
    → Fits seg.start_ms u.end_ms
    → Fits (seg.start_ms +ℤ d) u.start_ms
    → Fits (seg.start_ms +ℤ d) u.end_ms
    → rebase_one u (shift d seg) ≡ record (rebase_one u seg) {
      start_ms = (rebase_one u seg).start_ms +ℤ d;
      end_ms = (rebase_one u seg).end_ms +ℤ d;
    }
unfolding rebase_one
rebase_one-shift u seg d hs he ks ke = simp (
  placed-shift d seg.start_ms seg.start_ms u.start_ms hs ks,
  placed-shift d seg.start_ms seg.end_ms u.end_ms he ke,
  clamp-shift,
  not_before-shift,
)
