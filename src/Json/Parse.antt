-- ===== src/Json/Parse.antt =====
-- Documents.
pub mod RoundTrip
use audio_service.Base.{
  ℕ, zero, suc, ◌+◌, ◌-◌, Bool, true, false, ◌&&◌, ◌||◌, Option, none, some, [], ◌∷◌, map, length,
  drop, leb, ◌==◌, if◌then◌else◌,
}
use audio_service.Base.Text.{Text, codes, text_eq, has_prefix, is_empty}
use audio_service.Json.{
  Json, null, bool, num, str, arr, obj, Items, no_items, item, Fields, no_fields, field, Parsed,
  ◌>>=◌,
}
use audio_service.Json.Number.{number}
use audio_service.Json.Strings.{chars}

is_blank_char : ℕ → Bool
is_blank_char c = c == 32 || (c == 9 || (c == 10 || c == 13))

skip : Text → Text
unfolding is_blank_char
skip [] = []
skip (c ∷ s) = if is_blank_char c then skip s else c ∷ s

-- A literal word.
word : Text → Json → Text → Parsed Json
word w v s = if has_prefix w s then some (v, drop (length w) s) else none

-- The first character of a value behind blanks, and what follows it.
abbrev first_of : Text → Parsed ℕ
first_of [] = none
first_of (c ∷ t) = some (c, t)

first : Text → Parsed ℕ
unfolding skip
first s = first_of (skip s)

string : Text → Parsed Text
unfolding first chars
string s = do (c, t) ← first s; if c == b'"' then chars (suc (length t)) t else none

scalar : ℕ → Text → Parsed Json
unfolding word number chars
scalar c s =
    if c == b'"'
    then chars (suc (length s)) s >>= (λ r. some (str r.0, r.1))
    else (if c == b't'
        then word (codes "true") (bool true) (c ∷ s)
        else (if c == b'f'
            then word (codes "false") (bool false) (c ∷ s)
            else (if c == b'n'
                then word (codes "null") null (c ∷ s)
                else number (c ∷ s) >>= (λ r. some (num r.0, r.1)))))

abbrev pub max_depth : ℕ
max_depth = 10000

abbrev nest : ℕ → Parsed Json → Parsed Json
nest room v = if room == 0 then none else v

-- One round of fuel for each value, item or member, each of which has a character; `room` is the
-- depth that is left to nested values. `start` marks the place behind an opening bracket, where the
-- closing one may stand.
mutual
  unfolding first string scalar

  value : ℕ → ℕ → Text → Parsed Json
  value zero room s = none
  value (suc fuel) room s = first s >>= λ r.
      let list = items fuel (room - 1) r.1 true >>= (λ q. some (arr q.0, q.1)) in
      let dict = members fuel (room - 1) r.1 true >>= (λ q. some (obj q.0, q.1)) in
      if r.0 == b'['
      then nest room list
      else (if r.0 == b'{' then nest room dict else scalar r.0 r.1)

  items : ℕ → ℕ → Text → Bool → Parsed Items
  items zero room s start = none
  items (suc fuel) room s start =
      let more = value fuel room s >>= (λ v. first v.1 >>= (λ d.
        let rest = items fuel room d.1 false >>= (λ q. some (item v.0 q.0, q.1)) in
        if d.0 == b']'
        then some (item v.0 no_items, d.1)
        else (if d.0 == b',' then rest else none))) in
      first s >>= (λ r. if start && r.0 == b']' then some (no_items, r.1) else more)

  members : ℕ → ℕ → Text → Bool → Parsed Fields
  members zero room s start = none
  members (suc fuel) room s start =
      let more = string s >>= (λ k. first k.1 >>= (λ colon.
        let member = value fuel room colon.1 >>= (λ v. first v.1 >>= (λ d.
          let rest = members fuel room d.1 false >>= (λ q. some (field k.0 v.0 q.0, q.1)) in
          if d.0 == b'}'
          then some (field k.0 v.0 no_fields, d.1)
          else (if d.0 == b',' then rest else none))) in
        if colon.0 == b':' then member else none)) in
      first s >>= (λ r. if start && r.0 == b'}' then some (no_fields, r.1) else more)

-- The value of a document with nothing but blanks behind it.
unfoldable pub parse_json : Text → Option Json
unfolding value skip is_blank_char has_prefix
parse_json s =
    value (suc (length s)) max_depth s >>= (λ r. if is_empty (skip r.1) then some r.0 else none)

-- The name of a struct field matches a key up to case. Two letters outside ASCII fold into it.
fold_char : ℕ → ℕ
fold_char c =
    if leb b'A' c && leb c b'Z'
    then c + 32
    else (if c == 0x17f then b's' else (if c == 0x212a then b'k' else c))

unfoldable pub is_key : Text → Text → Bool
unfolding fold_char text_eq
is_key name key = text_eq (map fold_char name) (map fold_char key)
