-- ===== src/Transcribe/Rebase/Offsets.antt =====
-- Where an offset of the model lands.
use audio_service.Base.{◌≤◌, ◌≡◌, some, arith}
use audio_service.Base.Int.{
  ℤ, pos, ◌+ℤ◌, ◌≤ℤ◌, ◌<ℤ◌, IsInt64, wrap64, half64, pos_part, wrap64_of_IsInt64, wrap, int_laws,
  min_ℤ, max_ℤ,
}
use audio_service.Transcribe.{Segment, ModelUtterance}
use audio_service.Transcribe.Rebase.Defs.{clamp, placed, not_before, rebase_one}

-- Both offsets, reported and inside the window.
pub record Reported (u : ModelUtterance) (seg : Segment) (s e : ℤ) : Type 0 where
  pub start : u.start_ms ≡ some s
  pub end : u.end_ms ≡ some e
  pub positive : pos 0 <ℤ s
  pub ordered : s ≤ℤ e
  pub inside : seg.start_ms +ℤ e ≤ℤ seg.end_ms
  pub origin : IsInt64 seg.start_ms
  pub bound : IsInt64 seg.end_ms

pub placed_of_pos :
    (origin missing off : ℤ)
    → pos 0 <ℤ off
    → placed origin missing (some off) ≡ wrap64 (origin +ℤ off)
unfolding placed
placed_of_pos origin missing off h = ground arith

pub clamp-le : (v lo hi : ℤ) → lo ≤ℤ hi → clamp v lo hi ≤ℤ hi
unfolding clamp min_ℤ max_ℤ
clamp-le v lo hi h = ground arith

pub clamp_inside : (v lo hi : ℤ) → lo ≤ℤ v → v ≤ℤ hi → clamp v lo hi ≡ v
unfolding clamp min_ℤ max_ℤ
clamp_inside v lo hi h k = ground arith

pub not_before_of_le : (start end : ℤ) → start ≤ℤ end → not_before start end ≡ end
unfolding not_before
not_before_of_le start end h = ground arith

-- The position of an offset that does not leave the window.
pub placed_inside :
    (origin missing off hi : ℤ)
    → pos 0 <ℤ off
    → origin +ℤ off ≤ℤ hi
    → IsInt64 origin
    → IsInt64 hi
    → clamp (placed origin missing (some off)) origin hi ≡ origin +ℤ off
unfolding ◌+ℤ◌
placed_inside origin missing off hi p h o b = rw (placed_of_pos origin missing off p) (
    rw (wrap64_of_IsInt64 (origin +ℤ off) (ground arith))
      (clamp_inside (origin +ℤ off) origin hi (ground arith) h))

-- Positive offsets in order, whose sums with the window's start do not pass its end, in a window
-- with bounds that are int64s, are moved by exactly the window's start.
pub rebase_one-exact :
    (u : ModelUtterance) (seg : Segment) (s e : ℤ)
    → Reported u seg s e
    → ((rebase_one u seg).start_ms ≡ seg.start_ms +ℤ s)
      × ((rebase_one u seg).end_ms ≡ seg.start_ms +ℤ e)
unfolding rebase_one
rebase_one-exact u seg s e r = rw (r.start, r.end) (first, rw (first, second) last)
  where
    first :
        clamp (placed seg.start_ms seg.start_ms (some s)) seg.start_ms seg.end_ms
        ≡ seg.start_ms +ℤ s
    first =
        placed_inside seg.start_ms seg.start_ms s seg.end_ms r.positive
          (omega (int_laws, r.ordered, r.inside)) r.origin r.bound

    second :
        clamp (placed seg.start_ms seg.end_ms (some e)) seg.start_ms seg.end_ms ≡ seg.start_ms +ℤ e
    second =
        placed_inside seg.start_ms seg.end_ms e seg.end_ms (omega (int_laws, r.positive, r.ordered))
          r.inside r.origin r.bound

    last : not_before (seg.start_ms +ℤ s) (seg.start_ms +ℤ e) ≡ seg.start_ms +ℤ e
    last = not_before_of_le _ _ (omega (int_laws, r.ordered))

clamp_above : (v lo hi : ℤ) → lo ≤ℤ hi → hi ≤ℤ v → clamp v lo hi ≡ hi
unfolding clamp min_ℤ max_ℤ
clamp_above v lo hi h k = ground arith

clamp_below : (v lo hi : ℤ) → lo ≤ℤ hi → v ≤ℤ lo → clamp v lo hi ≡ lo
unfolding clamp min_ℤ max_ℤ
clamp_below v lo hi h k = ground arith

-- In a window that is not reversed, a positive end offset that reaches past the window, such that
-- its sum with the window's start is an int64, is cut to the window's end.
pub rebase_one-overrun :
    (u : ModelUtterance) (seg : Segment) (e : ℤ)
    → u.end_ms ≡ some e
    → pos 0 <ℤ e
    → seg.start_ms ≤ℤ seg.end_ms
    → seg.end_ms ≤ℤ seg.start_ms +ℤ e
    → IsInt64 (seg.start_ms +ℤ e)
    → (rebase_one u seg).end_ms ≡ seg.end_ms
unfolding rebase_one
rebase_one-overrun u seg e end positive window over fits = rw end (
    rw (placed_of_pos seg.start_ms seg.end_ms e positive) (
      rw (wrap64_of_IsInt64 (seg.start_ms +ℤ e) fits) (
        rw (clamp_above (seg.start_ms +ℤ e) seg.start_ms seg.end_ms window over) (
          not_before_of_le _ _ (
            clamp-le (placed seg.start_ms seg.start_ms u.start_ms) seg.start_ms seg.end_ms
              window)))))

wrapped_below :
    (a b : ℤ)
    → pos 0 ≤ℤ a
    → IsInt64 a
    → IsInt64 b
    → half64 ≤ pos_part (a +ℤ b)
    → wrap64 (a +ℤ b) ≤ℤ a
unfolding ◌+ℤ◌ wrap
wrapped_below a b h i j k = ground arith

addend_pos : (a b : ℤ) → IsInt64 a → half64 ≤ pos_part (a +ℤ b) → pos 0 <ℤ b
unfolding ◌+ℤ◌
addend_pos a b h k = ground arith

pub not_before_of_ge : (start end : ℤ) → end ≤ℤ start → not_before start end ≡ start
unfolding not_before
not_before_of_ge start end h = ground arith

clamp-ge : (v lo hi : ℤ) → lo ≤ℤ hi → lo ≤ℤ clamp v lo hi
unfolding clamp min_ℤ max_ℤ
clamp-ge v lo hi h = ground arith

-- In a window that is not reversed and starts at an int64 that is not negative, an end offset that
-- is an int64, but so large that its sum with the window's start is none, wraps to a negative
-- number: the utterance then ends where it starts.
pub rebase_one-overflow :
    (u : ModelUtterance) (seg : Segment) (e : ℤ)
    → u.end_ms ≡ some e
    → pos 0 ≤ℤ seg.start_ms
    → seg.start_ms ≤ℤ seg.end_ms
    → IsInt64 seg.start_ms
    → IsInt64 e
    → half64 ≤ pos_part (seg.start_ms +ℤ e)
    → (rebase_one u seg).end_ms ≡ (rebase_one u seg).start_ms
unfolding rebase_one
rebase_one-overflow u seg e end nonneg window o i big = rw end (
    rw (placed_of_pos seg.start_ms seg.end_ms e (addend_pos seg.start_ms e o big)) (
      rw
        (clamp_below (wrap64 (seg.start_ms +ℤ e)) seg.start_ms seg.end_ms window
          (wrapped_below seg.start_ms e nonneg o i big))
        (not_before_of_ge _ seg.start_ms
          (clamp-ge (placed seg.start_ms seg.start_ms u.start_ms) seg.start_ms seg.end_ms window))))
