-- ===== src/Json/Print/Sizes.antt =====
-- The length of a printed document.
use audio_service.Base.{
  ℕ, suc, ◌+◌, ◌≤◌, ◌≡◌, inl, inr, true, false, ◌||◌, Bool-cases, [], ◌∷◌, length, length-append,
  ltb, ◌==◌, arith,
}
use audio_service.Base.Text.{Text}
use audio_service.Json.{
  Json, null, bool, num, str, arr, obj, Items, no_items, item, Fields, no_fields, field,
}
use audio_service.Json.Number.{is_valid_number}
use audio_service.Json.Number.Append.{empty-invalid}
use audio_service.Json.Print.{
  print_char, print_chars, print, print_items, more_items, print_fields, more_fields, need,
  need_items, need_fields, IsWritten, IsWrittenItems, IsWrittenFields,
}

print_char-longer : (c : ℕ) (rest : Text) → suc (length rest) ≤ length (print_char c rest)
unfolding print_char
print_char-longer c rest = elim (Bool-cases ((c == b'"') || (c == 92))) [
  | inl e ↦ rw e (omega arith)
  | inr e ↦
      rw e
        (elim (Bool-cases (ltb c 32)) [ inl k ↦ rw k (omega arith) | inr k ↦ rw k (omega arith) ])
]

pub print_chars-longer :
    (s rest : Text) → suc (length s + length rest) ≤ length (print_chars s rest)
unfolding print_chars
print_chars-longer [] rest = omega arith
print_chars-longer (c ∷ s) rest =
    omega (arith, print_chars-longer s rest, print_char-longer c (print_chars s rest))

literal-longer : (s : Text) → is_valid_number s ≡ true → 1 ≤ length s
literal-longer [] h = cc (empty-invalid, h)
literal-longer (c ∷ s) h = omega arith

pub need-positive : (v : Json) → 1 ≤ need v
need-positive (arr vs) = omega arith
need-positive (obj fs) = omega arith
need-positive _ = omega arith

pub need_items-positive : (vs : Items) → 1 ≤ need_items vs
need_items-positive no_items = omega arith
need_items-positive (item v vs) = omega arith

pub need_fields-positive : (fs : Fields) → 1 ≤ need_fields fs
need_fields-positive no_fields = omega arith
need_fields-positive (field k v fs) = omega arith

-- A document has a character for each round of fuel that its reading takes.
mutual
  unfolding print

  pub need-le :
      (v : Json) (rest : Text) → IsWritten v → need v + length rest ≤ length (print v rest)
  need-le null rest w = omega arith
  need-le (bool true) rest w = omega arith
  need-le (bool false) rest w = omega arith
  need-le (num s) rest w = omega (arith, literal-longer s w, length-append s rest)
  need-le (str s) rest w = omega (arith, print_chars-longer s rest)
  need-le (arr vs) rest w = omega (arith, need_items-le vs rest w)
  need-le (obj fs) rest w = omega (arith, need_fields-le fs rest w)

  need_items-le :
      (vs : Items) (rest : Text)
      → IsWrittenItems vs
      → need_items vs + length rest ≤ length (print_items vs rest)
  need_items-le no_items rest w = omega arith
  need_items-le (item v vs) rest w = omega (
    arith,
    more_items-le vs rest w.1,
    need-le v (more_items vs rest) w.0,
    need-positive v,
    need_items-positive vs,
  )

  more_items-le :
      (vs : Items) (rest : Text)
      → IsWrittenItems vs
      → need_items vs + length rest ≤ length (more_items vs rest)
  more_items-le no_items rest w = omega arith
  more_items-le (item v vs) rest w = omega (
    arith,
    more_items-le vs rest w.1,
    need-le v (more_items vs rest) w.0,
    need-positive v,
    need_items-positive vs,
  )

  need_fields-le :
      (fs : Fields) (rest : Text)
      → IsWrittenFields fs
      → need_fields fs + length rest ≤ length (print_fields fs rest)
  need_fields-le no_fields rest w = omega arith
  need_fields-le (field k v fs) rest w =
      let tail = more_fields fs rest in
      omega (
        arith,
        more_fields-le fs rest w.1,
        need-le v tail w.0,
        need-positive v,
        need_fields-positive fs,
        print_chars-longer k (b':' ∷ print v tail),
      )

  more_fields-le :
      (fs : Fields) (rest : Text)
      → IsWrittenFields fs
      → need_fields fs + length rest ≤ length (more_fields fs rest)
  more_fields-le no_fields rest w = omega arith
  more_fields-le (field k v fs) rest w =
      let tail = more_fields fs rest in
      omega (
        arith,
        more_fields-le fs rest w.1,
        need-le v tail w.0,
        need-positive v,
        need_fields-positive fs,
        print_chars-longer k (b':' ∷ print v tail),
      )
