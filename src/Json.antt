-- ===== src/Json.antt =====
-- Package encoding/json as the program uses it: the syntax of a document over code points, and the
-- names of struct fields. The decoding into the program's structs stands with those.
pub mod Number
pub mod Strings
pub mod Parse
pub mod Struct
pub mod Print
mod Tests
use audio_service.Base.{
  ℕ, zero, suc, ◌+◌, ◌-◌, ◌*◌, ◌≤◌, ◌<◌, Bool, true, false, not, ◌&&◌, ◌||◌, Option, none, some,
  List, [], ◌∷◌, ◌++◌, map, length, drop, ltb, leb, ◌==◌, if◌then◌else◌,
}
use audio_service.Base.Text.{Text, codes, text_eq, has_prefix, is_digit, is_empty}

mutual
  pub data Json : Type 0 where
    null : Json
    bool : Bool → Json
    -- the literal as it was written
    num : Text → Json
    str : Text → Json
    arr : Items → Json
    obj : Fields → Json

  pub data Items : Type 0 where
    no_items : Items
    item : Json → Items → Items

  pub data Fields : Type 0 where
    no_fields : Fields
    field : Text → Json → Fields → Fields

infixl 5 ◌>>=◌
abbrev pub ◌>>=◌ {ℓ κ} : {A : Type ℓ} {B : Type κ} → Option A → (A → Option B) → Option B
none >>= k = none
some a >>= k = k a

-- A value read and the text behind it.
abbrev pub Parsed : Type 0 → Type 0
Parsed A = Option (A × Text)

-- Reads one expected character.
unfoldable pub expect : ℕ → Text → Option Text
expect d [] = none
expect d (c ∷ s) = if c == d then some s else none
