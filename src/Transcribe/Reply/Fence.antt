-- ===== src/Transcribe/Reply/Fence.antt =====
-- `stripCodeFence` of internal/transcribe/transcribe.go on texts with and without a fence.
use audio_service.Base.{
  ◌≡◌, refl, sym, ap, ◌∙◌, Bool, true, false, not, ◌&&◌, some, inl, inr, Bool-cases, [], ◌∷◌, ◌++◌,
  length-append, take, take-append, ◌==◌, arith,
}
use audio_service.Base.Text.{Text, codes, is_space, trim_space, has_prefix, after_newline, newline}
use audio_service.Base.Text.Trim.{all_space, Visible, trim_space-Visible, trim_space-same}
use audio_service.Json.Print.Ends.{Ends, Ends-behind, Ends-cons, Ends-through}
use audio_service.Transcribe.Reply.{trim_fence, strip_code_fence}
use mathlib.Core.List.{reverse-append, append_assoc}

-- A text in a code fence of Markdown, with a language such as json behind the first fence.
abbrev closing : Text
closing = newline ∷ codes "```"

abbrev pub fenced : Text → Text → Text
fenced language s = codes "```" ++ (language ++ newline ∷ (s ++ closing))

abbrev pub one_line : Text → Bool
one_line [] = true
one_line (c ∷ s) = not (c == newline) && one_line s

after_newline-line : (l x : Text) → one_line l ≡ true → after_newline (l ++ newline ∷ x) ≡ some x
unfolding after_newline
after_newline-line [] x h = refl
after_newline-line (c ∷ l) x h = elim (Bool-cases (c == newline)) [
  | inl e ↦ cc (rw e at h)
  | inr e ↦ rw e (after_newline-line l x (rw e at h))
]

closing-Ends : (s : Text) → Ends (s ++ closing) (b'`' ∷ [])
closing-Ends s = Ends-through (Ends-behind s) (Ends-behind (newline ∷ b'`' ∷ b'`' ∷ []))

closing-Visible : (s : Text) → Visible s → Visible (s ++ closing)
unfolding is_space
closing-Visible s v = record {
  first = v.first;
  tail = v.tail ++ closing;
  begin = ap (λ t. t ++ closing) v.begin;
  front = (closing-Ends s).front;
  last = b'`';
  end = (closing-Ends s).at;
  first_visible = v.first_visible;
  last_visible = refl;
}

fenced-Visible : (language s : Text) → Visible (fenced language s)
unfolding is_space
fenced-Visible language s =
    let e : Ends (fenced language s) (b'`' ∷ []) =
      Ends-through (Ends-behind (codes "```"))
        (Ends-through (Ends-behind language) (Ends-cons newline (closing-Ends s))) in
    record {
      first = b'`';
      tail = _;
      begin = refl;
      front = e.front;
      last = b'`';
      end = e.at;
      first_visible = refl;
      last_visible = refl;
    }

trim_fence-suffix : (x : Text) → trim_fence (x ++ codes "```") ≡ x
unfolding trim_fence has_prefix
trim_fence-suffix x = rw (reverse-append x (codes "```")) (
    ap (λ n. take n (x ++ codes "```")) (omega (arith, length-append x (codes "```")))
    ∙ take-append x (codes "```"))

strip_code_fence-line :
    (t rest : Text)
    → has_prefix (codes "```") t ≡ true
    → after_newline t ≡ some rest
    → strip_code_fence t ≡ trim_space (trim_fence (trim_space rest))
unfolding strip_code_fence
strip_code_fence-line t rest h k = rw h (rw k refl)

fenced-prefix : (language s : Text) → has_prefix (codes "```") (fenced language s) ≡ true
unfolding has_prefix
fenced-prefix language s = refl

fenced-line :
    (language s : Text)
    → one_line language ≡ true
    → after_newline (fenced language s) ≡ some (s ++ closing)
unfolding after_newline
fenced-line language s h = after_newline-line language (s ++ closing) h

pub strip-plain :
    (s : Text)
    → Visible s
    → has_prefix (codes "```") s ≡ false
    → strip_code_fence (trim_space s) ≡ s
unfolding strip_code_fence
strip-plain s v h = rw (trim_space-same s v) (rw h refl)

blank_line : all_space (newline ∷ []) ≡ true
unfolding is_space
blank_line = refl

-- The fence is taken off.
pub strip-fenced :
    (language s : Text)
    → one_line language ≡ true
    → Visible s
    → strip_code_fence (trim_space (fenced language s)) ≡ s
strip-fenced language s h v =
    let inner : trim_fence (trim_space (s ++ closing)) ≡ s ++ newline ∷ [] =
      ap trim_fence (
        trim_space-same (s ++ closing) (closing-Visible s v)
        ∙ sym (append_assoc s (newline ∷ []) (codes "```")))
      ∙ trim_fence-suffix (s ++ newline ∷ []) in
    ap strip_code_fence (trim_space-same (fenced language s) (fenced-Visible language s))
    ∙ (strip_code_fence-line (fenced language s) (s ++ closing) (fenced-prefix language s)
          (fenced-line language s h)
        ∙ (ap trim_space inner ∙ trim_space-Visible s (newline ∷ []) v blank_line))
