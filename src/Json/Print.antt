-- ===== src/Json/Print.antt =====
-- The compact text of a JSON document, as a client may send it.
pub mod Sizes
pub mod Ends
use audio_service.Base.{
  ℕ, zero, suc, ◌+◌, ◌-◌, ◌/◌, ◌%◌, ◌≡◌, Bool, true, false, ◌||◌, List, [], ◌∷◌, ◌++◌, max, ltb,
  ◌==◌, if◌then◌else◌,
}
use audio_service.Base.Text.{Text, codes, is_digit, is_empty}
use audio_service.Json.{
  Json, null, bool, num, str, arr, obj, Items, no_items, item, Fields, no_fields, field,
}
use audio_service.Json.Number.{is_valid_number}

abbrev pub hex_char : ℕ → ℕ
hex_char n = if ltb n 10 then b'0' + n else b'a' + (n - 10)

-- Quotes and backslashes are escaped, and control characters are written as \u00XX.
unfoldable pub print_char : ℕ → Text → Text
print_char c rest =
    if c == b'"' || c == 92
    then 92 ∷ c ∷ rest
    else (if ltb c 32
        then 92 ∷ b'u' ∷ b'0' ∷ b'0' ∷ hex_char (c / 16) ∷ hex_char (c % 16) ∷ rest
        else c ∷ rest)

-- The characters of a string with its closing quote, before `rest`.
unfoldable pub print_chars : Text → Text → Text
unfolding print_char
print_chars [] rest = b'"' ∷ rest
print_chars (c ∷ s) rest = print_char c (print_chars s rest)

-- A document before `rest`; the `more` functions print what follows a first item or member.
unfoldable mutual
  pub print : Json → Text → Text
  print null rest = codes "null" ++ rest
  print (bool true) rest = codes "true" ++ rest
  print (bool false) rest = codes "false" ++ rest
  print (num s) rest = s ++ rest
  print (str s) rest = b'"' ∷ print_chars s rest
  print (arr vs) rest = b'[' ∷ print_items vs rest
  print (obj fs) rest = b'{' ∷ print_fields fs rest

  pub print_items : Items → Text → Text
  print_items no_items rest = b']' ∷ rest
  print_items (item v vs) rest = print v (more_items vs rest)

  pub more_items : Items → Text → Text
  more_items no_items rest = b']' ∷ rest
  more_items (item v vs) rest = b',' ∷ print v (more_items vs rest)

  pub print_fields : Fields → Text → Text
  print_fields no_fields rest = b'}' ∷ rest
  print_fields (field k v fs) rest = b'"' ∷ print_chars k (b':' ∷ print v (more_fields fs rest))

  pub more_fields : Fields → Text → Text
  more_fields no_fields rest = b'}' ∷ rest
  more_fields (field k v fs) rest =
      b',' ∷ b'"' ∷ print_chars k (b':' ∷ print v (more_fields fs rest))

-- The rounds of fuel that the parser needs, and the depth of nesting.
abbrev mutual
  pub need : Json → ℕ
  need (arr vs) = suc (need_items vs)
  need (obj fs) = suc (need_fields fs)
  need _ = 1

  pub need_items : Items → ℕ
  need_items no_items = 1
  need_items (item v vs) = suc (max (need v) (need_items vs))

  pub need_fields : Fields → ℕ
  need_fields no_fields = 1
  need_fields (field k v fs) = suc (max (need v) (need_fields fs))

abbrev mutual
  pub depth : Json → ℕ
  depth (arr vs) = suc (depth_items vs)
  depth (obj fs) = suc (depth_fields fs)
  depth _ = 0

  pub depth_items : Items → ℕ
  depth_items no_items = 0
  depth_items (item v vs) = max (depth v) (depth_items vs)

  pub depth_fields : Fields → ℕ
  depth_fields no_fields = 0
  depth_fields (field k v fs) = max (depth v) (depth_fields fs)

-- Every literal of a number is a valid one.
abbrev mutual
  pub IsWritten : Json → Type 0
  IsWritten (num s) = is_valid_number s ≡ true
  IsWritten (arr vs) = IsWrittenItems vs
  IsWritten (obj fs) = IsWrittenFields fs
  IsWritten _ = Unit

  pub IsWrittenItems : Items → Type 0
  IsWrittenItems no_items = Unit
  IsWrittenItems (item v vs) = IsWritten v × IsWrittenItems vs

  pub IsWrittenFields : Fields → Type 0
  IsWrittenFields no_fields = Unit
  IsWrittenFields (field k v fs) = IsWritten v × IsWrittenFields fs
