-- ===== src/Base/Text/Laws.antt =====
-- Laws of the text functions.
use audio_service.Base.{
  ℕ, ◌≡◌, refl, ap, ◌∙◌, ◌↔◌, Bool, true, false, Option, none, some, ◌==◌, [], ◌∷◌, arith, inl, inr,
  Bool-cases,
}
use audio_service.Base.Int.{ℤ, IsInt64}
use audio_service.Base.Text.{
  parse_int, in_range, unsigned, Text, text_eq, is_space, trim_left, trim_right, before_trimmed,
  trim_space, is_blank, is_empty,
}

pub text_eq_iff : (s t : Text) → (text_eq s t ≡ true) ↔ (s ≡ t)
unfolding text_eq
text_eq_iff [] [] = ground arith
text_eq_iff [] (d ∷ t) = ground arith
text_eq_iff (c ∷ s) [] = ground arith
text_eq_iff (c ∷ s) (d ∷ t) = ground (arith, text_eq_iff s t)

-- A text that is empty or begins with a visible character is left alone on the left.
trim_left-trim_right : (s : Text) → trim_left (trim_right (trim_left s)) ≡ trim_right (trim_left s)
unfolding trim_left trim_right before_trimmed
trim_left-trim_right [] = refl
trim_left-trim_right (c ∷ s) = elim (Bool-cases (is_space c)) [
  | inl e ↦ rw e (trim_left-trim_right s)
  | inr e ↦ rw e (visible c (trim_right s) e)
]
  where
    visible :
        (c : ℕ) (r : Text)
        → is_space c ≡ false
        → trim_left (before_trimmed c r) ≡ before_trimmed c r
    visible c [] e = rw e (rw e refl)
    visible c (d ∷ r) e = rw e refl

before_trimmed_idem :
    (c : ℕ) (s : Text) → trim_right s ≡ s → trim_right (before_trimmed c s) ≡ before_trimmed c s
unfolding trim_right before_trimmed
before_trimmed_idem c [] h = elim (Bool-cases (is_space c)) [
  | inl e ↦ rw e refl
  | inr e ↦ rw e (rw e refl)
]
before_trimmed_idem c (d ∷ s) h = rw h refl

trim_right_idem : (s : Text) → trim_right (trim_right s) ≡ trim_right s
unfolding trim_right
trim_right_idem [] = refl
trim_right_idem (c ∷ s) = before_trimmed_idem c (trim_right s) (trim_right_idem s)

pub trim_space_idem : (s : Text) → trim_space (trim_space s) ≡ trim_space s
unfolding trim_space
trim_space_idem s = ap trim_right (trim_left-trim_right s) ∙ trim_right_idem (trim_left s)

pub is_blank-trim_space : (s : Text) → is_blank (trim_space s) ≡ is_empty (trim_space s)
unfolding is_blank
is_blank-trim_space s = ap is_empty (trim_space_idem s)

in_range-IsInt64 : (neg : Bool) (o : Option ℕ) (n : ℤ) → in_range neg o ≡ some n → IsInt64 n
in_range-IsInt64 neg none n h = cc
in_range-IsInt64 true (some m) n h = ground arith
in_range-IsInt64 false (some m) n h = ground arith

pub parse_int-IsInt64 : (s : Text) (n : ℤ) → parse_int s ≡ some n → IsInt64 n
unfolding parse_int
parse_int-IsInt64 [] n h = cc
parse_int-IsInt64 (c ∷ s) n h = elim (Bool-cases (c == b'-')) [
  | inl e ↦ in_range-IsInt64 true (unsigned s) n (rw e at h)
  | inr e ↦ elim (Bool-cases (c == b'+')) [
    | inl e' ↦ in_range-IsInt64 false (unsigned s) n (rw e' at (rw e at h))
    | inr e' ↦ in_range-IsInt64 false (unsigned (c ∷ s)) n (rw e' at (rw e at h))
  ]
]
