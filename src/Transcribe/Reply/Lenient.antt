-- ===== src/Transcribe/Reply/Lenient.antt =====
-- Which offsets of the model are kept.
use audio_service.Base.{◌↔◌, ◌≡◌, refl, ◌⊎◌, inl, inr, true, Bool-cases, Option, none, some}
use audio_service.Base.Int.{ℤ, IsInt64}
use audio_service.Base.Text.{Text, parse_int}
use audio_service.Base.Text.Laws.{parse_int-IsInt64}
use audio_service.Json.{Json, null, bool, str, num, arr, obj}
use audio_service.Json.Number.{is_valid_number}
use audio_service.Transcribe.Reply.{lenient_ms}

-- An offset as it stands in the document: a number, or a string that holds one.
abbrev pub Spells : Option Json → Text → Type 0
Spells o s = (o ≡ some (num s)) ⊎ ((o ≡ some (str s)) × (is_valid_number s ≡ true))

-- The number that an offset stands for, read from a text of the document.
abbrev pub Reads : Option Json → ℤ → Type 0
Reads o n = (s : Text) × Spells o s × (parse_int s ≡ some n)

lenient_ms-Reads : (o : Option Json) (n : ℤ) → lenient_ms o ≡ some n → Reads o n
unfolding lenient_ms
lenient_ms-Reads (some (num s)) n h = (s, inl refl, h)
lenient_ms-Reads (some (str s)) n h = elim (Bool-cases (is_valid_number s)) [
  | inl valid ↦ (s, inr (refl, valid), rw valid at h)
  | inr invalid ↦ cc (rw invalid at h)
]
lenient_ms-Reads none n h = cc
lenient_ms-Reads (some null) n h = cc
lenient_ms-Reads (some (bool b)) n h = cc
lenient_ms-Reads (some (arr vs)) n h = cc
lenient_ms-Reads (some (obj fs)) n h = cc

lenient_ms_of_Reads : (o : Option Json) (n : ℤ) → Reads o n → lenient_ms o ≡ some n
unfolding lenient_ms
lenient_ms_of_Reads o n (s, inl e, h) = rw e h
lenient_ms_of_Reads o n (s, inr (e, valid), h) = rw e (rw valid h)

-- An offset is kept exactly where the document has a number, or a string that is a number, whose
-- text is a whole number in the range of an int64; that number is the offset.
pub lenient_ms_iff : (o : Option Json) (n : ℤ) → (lenient_ms o ≡ some n) ↔ Reads o n
lenient_ms_iff o n = (lenient_ms-Reads o n, lenient_ms_of_Reads o n)

-- What is kept is an int64.
pub lenient_ms-IsInt64 : (o : Option Json) (n : ℤ) → lenient_ms o ≡ some n → IsInt64 n
lenient_ms-IsInt64 o n h =
    let (s, spelled, read) = lenient_ms-Reads o n h in parse_int-IsInt64 s n read
