-- ===== src/Json/Print/Ends.antt =====
-- A printed document stands before what follows, and an object ends with its brace.
use audio_service.Base.{
  ℕ, ◌≡◌, refl, ap, ◌∙◌, sym, inl, inr, true, false, ◌||◌, Bool-cases, [], ◌∷◌, ◌++◌, ltb, ◌==◌,
}
use audio_service.Base.Text.{Text, codes}
use audio_service.Json.{
  Json, null, bool, num, str, arr, obj, Items, no_items, item, Fields, no_fields, field,
}
use audio_service.Json.Print.{
  print_char, print_chars, print, print_items, more_items, print_fields, more_fields,
}
use mathlib.Core.List.{append_assoc}

pub record Ends (s rest : Text) : Type 0 where
  pub front : Text
  pub at : s ≡ front ++ rest

Ends-refl : {s : Text} → Ends s s
Ends-refl = record { front = []; at = refl }

pub Ends-behind : (xs : Text) {s : Text} → Ends (xs ++ s) s
Ends-behind xs = record { front = xs; at = refl }

pub Ends-cons : (c : ℕ) {s rest : Text} → Ends s rest → Ends (c ∷ s) rest
Ends-cons c e = record { front = c ∷ e.front; at = ap (λ t. c ∷ t) e.at }

pub Ends-through : {s t rest : Text} → Ends s t → Ends t rest → Ends s rest
Ends-through {s} {t} {rest} d e = record {
  front = d.front ++ e.front;
  at = d.at ∙ (ap (λ x. d.front ++ x) e.at ∙ sym (append_assoc d.front e.front rest));
}

print_char-Ends : (c : ℕ) (rest : Text) → Ends (print_char c rest) rest
unfolding print_char
print_char-Ends c rest = elim (Bool-cases ((c == b'"') || (c == 92))) [
  | inl e ↦ rw e (Ends-behind (92 ∷ c ∷ []))
  | inr e ↦ rw e (elim (Bool-cases (ltb c 32)) [
    | inl k ↦ rw k (Ends-behind (_ ∷ _ ∷ _ ∷ _ ∷ _ ∷ _ ∷ []))
    | inr k ↦ rw k (Ends-behind (c ∷ []))
  ])
]

print_chars-Ends : (s rest : Text) → Ends (print_chars s rest) rest
unfolding print_chars
print_chars-Ends [] rest = Ends-behind (b'"' ∷ [])
print_chars-Ends (c ∷ s) rest =
    Ends-through (print_char-Ends c (print_chars s rest)) (print_chars-Ends s rest)

mutual
  unfolding print

  print-Ends : (v : Json) (rest : Text) → Ends (print v rest) rest
  print-Ends null rest = Ends-behind (codes "null")
  print-Ends (bool true) rest = Ends-behind (codes "true")
  print-Ends (bool false) rest = Ends-behind (codes "false")
  print-Ends (num s) rest = Ends-behind s
  print-Ends (str s) rest = Ends-cons b'"' (print_chars-Ends s rest)
  print-Ends (arr vs) rest =
      Ends-cons b'[' (Ends-through (print_items-Ends vs rest) (Ends-behind (b']' ∷ [])))
  print-Ends (obj fs) rest =
      Ends-cons b'{' (Ends-through (print_fields-Ends fs rest) (Ends-behind (b'}' ∷ [])))

  print_items-Ends : (vs : Items) (rest : Text) → Ends (print_items vs rest) (b']' ∷ rest)
  print_items-Ends no_items rest = Ends-refl
  print_items-Ends (item v vs) rest =
      Ends-through (print-Ends v (more_items vs rest)) (more_items-Ends vs rest)

  more_items-Ends : (vs : Items) (rest : Text) → Ends (more_items vs rest) (b']' ∷ rest)
  more_items-Ends no_items rest = Ends-refl
  more_items-Ends (item v vs) rest =
      Ends-cons b',' (Ends-through (print-Ends v (more_items vs rest)) (more_items-Ends vs rest))

  pub print_fields-Ends : (fs : Fields) (rest : Text) → Ends (print_fields fs rest) (b'}' ∷ rest)
  print_fields-Ends no_fields rest = Ends-refl
  print_fields-Ends (field k v fs) rest =
      let s = more_fields fs rest in
      Ends-cons b'"' (
        Ends-through (print_chars-Ends k (b':' ∷ print v s))
          (Ends-cons b':' (Ends-through (print-Ends v s) (more_fields-Ends fs rest))))

  more_fields-Ends : (fs : Fields) (rest : Text) → Ends (more_fields fs rest) (b'}' ∷ rest)
  more_fields-Ends no_fields rest = Ends-refl
  more_fields-Ends (field k v fs) rest =
      let s = more_fields fs rest in
      Ends-cons b',' (
        Ends-cons b'"' (
          Ends-through (print_chars-Ends k (b':' ∷ print v s))
            (Ends-cons b':' (Ends-through (print-Ends v s) (more_fields-Ends fs rest)))))
