-- ===== src/Json/Struct.antt =====
-- json.Unmarshal into Go structs. A field keeps its value on null, and on a key that names none; a
-- value of another type is an error of the whole document. The program's documents have no key
-- twice in one object; where one has, the last counts here.
use audio_service.Base.{Bool, Option, none, some, List, [], ◌∷◌}
use audio_service.Base.Int.{ℤ}
use audio_service.Base.Text.{Text, parse_int}
use audio_service.Json.{
  Json, null, bool, num, str, arr, obj, Items, no_items, item, Fields, no_fields, field, ◌>>=◌,
}

-- The setter of a struct: what a key and a value make of it.
abbrev pub Setter : Type 0 → Type 0
Setter R = Text → Json → R → Option R

unfoldable pub set_fields : {R : Type 0} → Setter R → Fields → R → Option R
set_fields set no_fields r = some r
set_fields set (field k v fs) r = set k v r >>= (λ r'. set_fields set fs r')

-- A struct that has the value `zero` before.
unfoldable pub decode_struct : {R : Type 0} → Setter R → R → Json → Option R
decode_struct set zero (obj fs) = set_fields set fs zero
decode_struct set zero null = some zero
decode_struct set zero _ = none

unfoldable pub decode_items : {R : Type 0} → (Json → Option R) → Items → Option (List R)
decode_items f no_items = some []
decode_items f (item v vs) = f v >>= (λ r. decode_items f vs >>= (λ rs. some (r ∷ rs)))

unfoldable pub decode_slice : {R : Type 0} → (Json → Option R) → Json → Option (List R)
decode_slice f (arr vs) = decode_items f vs
decode_slice f null = some []
decode_slice f _ = none

unfoldable pub decode_text : Text → Json → Option Text
decode_text old (str s) = some s
decode_text old null = some old
decode_text old _ = none

unfoldable pub decode_int : ℤ → Json → Option ℤ
decode_int old (num s) = parse_int s
decode_int old null = some old
decode_int old _ = none

-- A pointer to a bool.
unfoldable pub decode_bool_ptr : Json → Option (Option Bool)
decode_bool_ptr (bool b) = some (some b)
decode_bool_ptr null = some none
decode_bool_ptr _ = none
