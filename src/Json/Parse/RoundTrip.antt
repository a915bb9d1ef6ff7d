-- ===== src/Json/Parse/RoundTrip.antt =====
-- A printed document is read as the document.
use audio_service.Base.{
  ℕ, zero, suc, ◌-◌, ◌≤◌, ◌≡◌, refl, ap, ◌∙◌, Bool, true, false, not, ◌||◌, ◌&&◌, none, some, [],
  ◌∷◌, ◌++◌, length, ◌==◌, if◌then◌else◌, arith,
}
use audio_service.Base.Text.{Text, is_digit, has_prefix}
use audio_service.Json.{
  Json, null, bool, num, str, arr, obj, Items, no_items, item, Fields, no_fields, field, Parsed,
  ◌>>=◌,
}
use audio_service.Json.Number.{is_valid_number, number}
use audio_service.Json.Number.Append.{stops, number-literal, number-first, empty-invalid}
use audio_service.Json.Strings.{chars}
use audio_service.Json.Strings.RoundTrip.{chars-print}
use audio_service.Json.Print.{
  print_chars, print, print_items, more_items, print_fields, more_fields, need, need_items,
  need_fields, depth, depth_items, depth_fields, IsWritten, IsWrittenItems, IsWrittenFields,
}
use audio_service.Json.Print.Sizes.{
  print_chars-longer, need-le, need-positive, need_items-positive, need_fields-positive,
}
use audio_service.Json.Parse.{
  is_blank_char, skip, first, string, word, scalar, max_depth, nest, value, items, members,
  parse_json,
}

-- A character that begins a value.
abbrev begins : ℕ → Bool
begins c = not (is_blank_char c) && not (c == b']')

first-visible : (c : ℕ) (t : Text) → is_blank_char c ≡ false → first (c ∷ t) ≡ some (c, t)
unfolding first skip
first-visible c t h = rw h refl

-- The first character of a value.
record Head (s : Text) : Type 0 where
  char : ℕ
  tail : Text
  at : s ≡ char ∷ tail
  visible : is_blank_char char ≡ false
  open_ : (char == b']') ≡ false

digit-visible : (c : ℕ) → (c == b'-') || is_digit c ≡ true → is_blank_char c ≡ false
unfolding is_blank_char
digit-visible c h = ground arith

digit-open : (c : ℕ) → (c == b'-') || is_digit c ≡ true → (c == b']') ≡ false
digit-open c h = ground arith

number-Head : (s rest : Text) → is_valid_number s ≡ true → Head (s ++ rest)
number-Head [] rest h = cc (empty-invalid, h)
number-Head (c ∷ s) rest h = record {
  char = c;
  tail = s ++ rest;
  at = refl;
  visible = digit-visible c (number-first c s h);
  open_ = digit-open c (number-first c s h);
}

print-Head : (v : Json) (rest : Text) → IsWritten v → Head (print v rest)
unfolding print is_blank_char
print-Head null rest w = record { char = _; tail = _; at = refl; visible = refl; open_ = refl }
print-Head (bool true) rest w = record {
  char = _;
  tail = _;
  at = refl;
  visible = refl;
  open_ = refl;
}
print-Head (bool false) rest w = record {
  char = _;
  tail = _;
  at = refl;
  visible = refl;
  open_ = refl;
}
print-Head (num s) rest w = number-Head s rest w
print-Head (str s) rest w = record { char = _; tail = _; at = refl; visible = refl; open_ = refl }
print-Head (arr vs) rest w = record { char = _; tail = _; at = refl; visible = refl; open_ = refl }
print-Head (obj fs) rest w = record { char = _; tail = _; at = refl; visible = refl; open_ = refl }

-- The literal of a number, of which only the first character counts.
value-number :
    (fuel room c : ℕ) (t : Text)
    → (c == b'-') || is_digit c ≡ true
    → value (suc fuel) room (c ∷ t) ≡ (number (c ∷ t) >>= (λ r. some (num r.0, r.1)))
unfolding value scalar
value-number fuel room c t h = rw (first-visible c t (digit-visible c h)) (ground arith)

number-print :
    (fuel room : ℕ) (s rest : Text)
    → is_valid_number s ≡ true
    → stops rest ≡ true
    → value (suc fuel) room (s ++ rest) ≡ some (num s, rest)
number-print fuel room [] rest w h = cc (empty-invalid, w)
number-print fuel room (c ∷ s) rest w h =
    value-number fuel room c (s ++ rest) (number-first c s w)
    ∙ rw (number-literal (c ∷ s) rest w h) refl

chars-printed :
    (s rest : Text)
    → chars (suc (length (print_chars s rest))) (print_chars s rest) ≡ some (s, rest)
chars-printed s rest = chars-print s rest _ (omega (arith, print_chars-longer s rest))

more_items-stops : (vs : Items) (rest : Text) → stops (more_items vs rest) ≡ true
unfolding print
more_items-stops no_items rest = refl
more_items-stops (item v vs) rest = refl

more_fields-stops : (fs : Fields) (rest : Text) → stops (more_fields fs rest) ≡ true
unfolding print
more_fields-stops no_fields rest = refl
more_fields-stops (field k v fs) rest = refl

first-Head : (s : Text) (hd : Head s) → first s ≡ some (hd.char, hd.tail)
first-Head s hd = ap first hd.at ∙ first-visible hd.char hd.tail hd.visible

and_false : (b : Bool) → b && false ≡ false
and_false true = refl
and_false false = refl

nest-room : (room : ℕ) (v : Parsed Json) → 1 ≤ room → nest room v ≡ v
nest-room room v h = ground arith

-- What `items` does with an item that it has read, and `members` with a member.
abbrev behind_item : ℕ → ℕ → Json × Text → Parsed Items
behind_item fuel room v = first v.1 >>= (λ d.
    let rest = items fuel room d.1 false >>= (λ q. some (item v.0 q.0, q.1)) in
    if d.0 == b']' then some (item v.0 no_items, d.1) else (if d.0 == b',' then rest else none))

abbrev behind_member : ℕ → ℕ → Text → Json × Text → Parsed Fields
behind_member fuel room k v = first v.1 >>= (λ d.
    let rest = members fuel room d.1 false >>= (λ q. some (field k v.0 q.0, q.1)) in
    if d.0 == b'}' then some (field k v.0 no_fields, d.1) else (if d.0 == b',' then rest else none))

items-step :
    (fuel room : ℕ) {s t : Text} {v : Json} (start : Bool) {q : Items × Text}
    → Head s
    → value fuel room s ≡ some (v, t)
    → behind_item fuel room (v, t) ≡ some q
    → items (suc fuel) room s start ≡ some q
unfolding value
items-step fuel room {s} start hd e b =
    rw (first-Head s hd) (rw hd.open_ (rw (and_false start) (rw e b)))

members-step :
    (fuel room : ℕ) (k s : Text) {t : Text} {v : Json} (start : Bool) {q : Fields × Text}
    → value fuel room s ≡ some (v, t)
    → behind_member fuel room k (v, t) ≡ some q
    → members (suc fuel) room (b'"' ∷ print_chars k (b':' ∷ s)) start ≡ some q
unfolding value string first skip is_blank_char
members-step fuel room k s start e b =
    rw (chars-printed k (b':' ∷ s)) (rw (and_false start) (rw e b))

mutual
  unfolding value print first skip is_blank_char scalar string word has_prefix

  value-print :
      (v : Json) (fuel room : ℕ) (rest : Text)
      → need v ≤ fuel
      → depth v ≤ room
      → IsWritten v
      → stops rest ≡ true
      → value fuel room (print v rest) ≡ some (v, rest)
  value-print v zero room rest n d w h = absurd (omega (arith, need-positive v))
  value-print null (suc fuel) room rest n d w h = refl
  value-print (bool true) (suc fuel) room rest n d w h = refl
  value-print (bool false) (suc fuel) room rest n d w h = refl
  value-print (num s) (suc fuel) room rest n d w h = number-print fuel room s rest w h
  value-print (str s) (suc fuel) room rest n d w h = rw (chars-printed s rest) refl
  value-print (arr vs) (suc fuel) room rest n d w h =
      nest-room room _ (omega arith)
      ∙ rw (items-print vs fuel (room - 1) rest (omega arith) (omega arith) w) refl
  value-print (obj fs) (suc fuel) room rest n d w h =
      nest-room room _ (omega arith)
      ∙ rw (members-print fs fuel (room - 1) rest (omega arith) (omega arith) w) refl

  items-print :
      (vs : Items) (fuel room : ℕ) (rest : Text)
      → need_items vs ≤ fuel
      → depth_items vs ≤ room
      → IsWrittenItems vs
      → items fuel room (print_items vs rest) true ≡ some (vs, rest)
  items-print vs zero room rest n d w = absurd (omega (arith, need_items-positive vs))
  items-print no_items (suc fuel) room rest n d w = refl
  items-print (item v vs) (suc fuel) room rest n d w =
      items-step fuel room true (print-Head v (more_items vs rest) w.0)
        (value-print v fuel room (more_items vs rest) (omega arith) (omega arith) w.0
          (more_items-stops vs rest))
        (more_items-print v vs fuel room rest (omega arith) (omega arith) w.1)

  more_items-print :
      (v : Json) (vs : Items) (fuel room : ℕ) (rest : Text)
      → need_items vs ≤ fuel
      → depth_items vs ≤ room
      → IsWrittenItems vs
      → behind_item fuel room (v, more_items vs rest) ≡ some (item v vs, rest)
  more_items-print v no_items fuel room rest n d w = refl
  more_items-print v (item u us) zero room rest n d w = absurd (omega arith)
  more_items-print v (item u us) (suc fuel) room rest n d w =
      rw
        (items-step fuel room false (print-Head u (more_items us rest) w.0)
          (value-print u fuel room (more_items us rest) (omega arith) (omega arith) w.0
            (more_items-stops us rest))
          (more_items-print u us fuel room rest (omega arith) (omega arith) w.1))
        refl

  members-print :
      (fs : Fields) (fuel room : ℕ) (rest : Text)
      → need_fields fs ≤ fuel
      → depth_fields fs ≤ room
      → IsWrittenFields fs
      → members fuel room (print_fields fs rest) true ≡ some (fs, rest)
  members-print fs zero room rest n d w = absurd (omega (arith, need_fields-positive fs))
  members-print no_fields (suc fuel) room rest n d w = refl
  members-print (field k v fs) (suc fuel) room rest n d w =
      members-step fuel room k (print v (more_fields fs rest)) true
        (value-print v fuel room (more_fields fs rest) (omega arith) (omega arith) w.0
          (more_fields-stops fs rest))
        (more_fields-print k v fs fuel room rest (omega arith) (omega arith) w.1)

  more_fields-print :
      (k : Text) (v : Json) (fs : Fields) (fuel room : ℕ) (rest : Text)
      → need_fields fs ≤ fuel
      → depth_fields fs ≤ room
      → IsWrittenFields fs
      → behind_member fuel room k (v, more_fields fs rest) ≡ some (field k v fs, rest)
  more_fields-print k v no_fields fuel room rest n d w = refl
  more_fields-print k v (field l u fs) zero room rest n d w = absurd (omega arith)
  more_fields-print k v (field l u fs) (suc fuel) room rest n d w =
      rw
        (members-step fuel room l (print u (more_fields fs rest)) false
          (value-print u fuel room (more_fields fs rest) (omega arith) (omega arith) w.0
            (more_fields-stops fs rest))
          (more_fields-print l u fs fuel room rest (omega arith) (omega arith) w.1))
        refl

-- A document with valid numbers, printed, is read back.
pub parse_json-print :
    (v : Json) → IsWritten v → depth v ≤ max_depth → parse_json (print v []) ≡ some v
unfolding parse_json
parse_json-print v w d =
    rw
      (value-print v (suc (length (print v []))) max_depth [] (omega (arith, need-le v [] w)) d w
        refl)
      refl
