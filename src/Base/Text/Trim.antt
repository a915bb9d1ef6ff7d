-- ===== src/Base/Text/Trim.antt =====
-- strings.TrimSpace around a text that it leaves alone.
use audio_service.Base.{
  ℕ, ◌≡◌, refl, sym, ap, ◌∙◌, inl, inr, true, false, Bool, Bool-cases, ◌&&◌, [], ◌∷◌, ◌++◌,
}
use mathlib.Core.List.{append_assoc, append-nil}
use audio_service.Base.Text.{Text, is_space, trim_left, before_trimmed, trim_right, trim_space}

abbrev pub all_space : Text → Bool
all_space [] = true
all_space (c ∷ s) = is_space c && all_space s

trim_right-space : (ws : Text) → all_space ws ≡ true → trim_right ws ≡ []
unfolding trim_right before_trimmed
trim_right-space [] h = refl
trim_right-space (c ∷ ws) h = elim (Bool-cases (is_space c)) [
  | inl e ↦ rw (trim_right-space ws (rw e at h)) (rw e refl)
  | inr e ↦ cc (rw e at h)
]

before_trimmed-longer :
    (x : ℕ) (xs : Text) (c : ℕ) → before_trimmed x (xs ++ c ∷ []) ≡ x ∷ xs ++ c ∷ []
unfolding before_trimmed
before_trimmed-longer x [] c = refl
before_trimmed-longer x (y ∷ xs) c = refl

trim_right-end :
    (xs : Text) (c : ℕ) (ws : Text)
    → is_space c ≡ false
    → all_space ws ≡ true
    → trim_right (xs ++ c ∷ ws) ≡ xs ++ c ∷ []
unfolding trim_right before_trimmed
trim_right-end [] c ws h k = rw (trim_right-space ws k) (rw h refl)
trim_right-end (x ∷ xs) c ws h k = rw (trim_right-end xs c ws h k) (before_trimmed-longer x xs c)

trim_left-visible : (c : ℕ) (s : Text) → is_space c ≡ false → trim_left (c ∷ s) ≡ c ∷ s
unfolding trim_left
trim_left-visible c s h = rw h refl

-- A text whose first and last characters are visible.
pub record Visible (s : Text) : Type 0 where
  pub first : ℕ
  pub tail : Text
  pub begin : s ≡ first ∷ tail
  pub front : Text
  pub last : ℕ
  pub end : s ≡ front ++ last ∷ []
  pub first_visible : is_space first ≡ false
  pub last_visible : is_space last ≡ false

-- Space behind it is cut off.
pub trim_space-Visible : (s ws : Text) → Visible s → all_space ws ≡ true → trim_space (s ++ ws) ≡ s
unfolding trim_space
trim_space-Visible s ws v h =
    let at_left : trim_left (s ++ ws) ≡ s ++ ws =
      rw v.begin (trim_left-visible v.first (v.tail ++ ws) v.first_visible) in
    let at_right : trim_right ((v.front ++ v.last ∷ []) ++ ws) ≡ v.front ++ v.last ∷ [] =
      rw (append_assoc v.front (v.last ∷ []) ws)
        (trim_right-end v.front v.last ws v.last_visible h) in
    ap trim_right at_left ∙ (ap (λ t. trim_right (t ++ ws)) v.end ∙ (at_right ∙ sym v.end))

pub trim_space-same : (s : Text) → Visible s → trim_space s ≡ s
trim_space-same s v = ap trim_space (sym (append-nil s)) ∙ trim_space-Visible s [] v refl
