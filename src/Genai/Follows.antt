-- ===== src/Genai/Follows.antt =====
-- What a document that follows a schema of google.golang.org/genai is, and that it can be written.
use audio_service.Base.{ℕ, suc, ◌≤◌, ◌≡◌, Bool, true, some, max, arith}
use audio_service.Base.Int.{ℤ, ◌≤ℤ◌}
use audio_service.Base.Text.{Text, itoa}
use audio_service.Base.Float.{Floats}
use audio_service.Genai.{
  Schema, text_schema, boolean_schema, integer_schema, number_schema, array_schema, object_schema,
  Properties, no_properties, property,
}
use audio_service.Json.{
  Json, bool, num, str, arr, obj, Items, no_items, item, Fields, no_fields, field,
}
use audio_service.Json.Number.{is_valid_number}
use audio_service.Json.Number.Decimal.{itoa-valid}
use audio_service.Json.Print.{
  depth, depth_items, depth_fields, IsWritten, IsWrittenItems, IsWrittenFields,
}

abbrev pub AllItems : (Json → Type 0) → Items → Type 0
AllItems P no_items = Unit
AllItems P (item v vs) = P v × AllItems P vs

-- How deep the documents of a schema are.
abbrev mutual
  pub height : Schema → ℕ
  height (array_schema s) = suc (height s)
  height (object_schema ps required ordering) = suc (height_properties ps)
  height _ = 0

  pub height_properties : Properties → ℕ
  height_properties no_properties = 0
  height_properties (property k s ps) = max (height s) (height_properties ps)

module _ (fl : Floats) where
  open fl use {parse_float32}

  -- A whole number is written in decimal, any other as a literal of JSON that strconv reads; the
  -- bounds of these are left out. An object has each property once, in the order of the schema.
  abbrev mutual
    pub Follows : Schema → Json → Type 0
    Follows text_schema v = (s : Text) × (v ≡ str s)
    Follows boolean_schema v = (b : Bool) × (v ≡ bool b)
    Follows (integer_schema lo hi) v = (n : ℤ) × (v ≡ num (itoa n)) × (lo ≤ℤ n) × (n ≤ℤ hi)
    Follows (number_schema lo hi) v =
        (s : Text) × (f : ℕ) × (v ≡ num s) × (is_valid_number s ≡ true) × (parse_float32 s ≡ some f)
    Follows (array_schema s) v = (vs : Items) × (v ≡ arr vs) × AllItems (Follows s) vs
    Follows (object_schema ps required ordering) v =
        (fs : Fields) × (v ≡ obj fs) × FollowsFields ps fs

    pub FollowsFields : Properties → Fields → Type 0
    FollowsFields no_properties fs = fs ≡ no_fields
    FollowsFields (property k s ps) fs =
        (v : Json) × (rest : Fields) × (fs ≡ field k v rest) × Follows s v × FollowsFields ps rest

  AllItems-IsWritten :
      (P : Json → Type 0) (vs : Items)
      → ((v : Json) → P v → IsWritten v)
      → AllItems P vs
      → IsWrittenItems vs
  AllItems-IsWritten P no_items f h = tt
  AllItems-IsWritten P (item v vs) f h = (f v h.0, AllItems-IsWritten P vs f h.1)

  mutual
    pub Follows-IsWritten : (s : Schema) (v : Json) → Follows s v → IsWritten v
    Follows-IsWritten text_schema v (s, e) = rw e tt
    Follows-IsWritten boolean_schema v (b, e) = rw e tt
    Follows-IsWritten (integer_schema lo hi) v (n, e, h, k) = rw e (itoa-valid n)
    Follows-IsWritten (number_schema lo hi) v (s, f, e, h, p) = rw e h
    Follows-IsWritten (array_schema s) v (vs, e, h) =
        rw e (AllItems-IsWritten (Follows s) vs (Follows-IsWritten s) h)
    Follows-IsWritten (object_schema ps required ordering) v (fs, e, h) =
        rw e (FollowsFields-IsWritten ps fs h)

    FollowsFields-IsWritten :
        (ps : Properties) (fs : Fields) → FollowsFields ps fs → IsWrittenFields fs
    FollowsFields-IsWritten no_properties fs e = rw e tt
    FollowsFields-IsWritten (property k s ps) fs (v, rest, e, h, k') =
        rw e (Follows-IsWritten s v h, FollowsFields-IsWritten ps rest k')

  AllItems-depth :
      (P : Json → Type 0) (n : ℕ) (vs : Items)
      → ((v : Json) → P v → depth v ≤ n)
      → AllItems P vs
      → depth_items vs ≤ n
  AllItems-depth P n no_items f h = omega arith
  AllItems-depth P n (item v vs) f h = omega (arith, f v h.0, AllItems-depth P n vs f h.1)

  mutual
    pub Follows-depth : (s : Schema) (v : Json) → Follows s v → depth v ≤ height s
    Follows-depth text_schema v (s, e) = rw e (omega arith)
    Follows-depth boolean_schema v (b, e) = rw e (omega arith)
    Follows-depth (integer_schema lo hi) v (n, e, h, k) = rw e (omega arith)
    Follows-depth (number_schema lo hi) v (s, f, e, h, p) = rw e (omega arith)
    Follows-depth (array_schema s) v (vs, e, h) =
        rw e (omega (arith, AllItems-depth (Follows s) (height s) vs (Follows-depth s) h))
    Follows-depth (object_schema ps required ordering) v (fs, e, h) =
        rw e (omega (arith, FollowsFields-depth ps fs h))

    FollowsFields-depth :
        (ps : Properties) (fs : Fields)
        → FollowsFields ps fs
        → depth_fields fs ≤ height_properties ps
    FollowsFields-depth no_properties fs e = rw e (omega arith)
    FollowsFields-depth (property k s ps) fs (v, rest, e, h, k') =
        rw e (omega (arith, Follows-depth s v h, FollowsFields-depth ps rest k'))
