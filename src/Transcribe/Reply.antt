-- ===== src/Transcribe/Reply.antt =====
-- `parseModelJSON`, `stripCodeFence`, `lenientMs` and `UnmarshalJSON` of
-- internal/transcribe/transcribe.go.
pub mod Lenient
pub mod Printed
pub mod Fence
pub mod Compact
pub mod RoundTrip
pub mod Follows
use audio_service.Base.{
  ℕ, Bool, Option, none, some, List, [], ◌∷◌, ◌++◌, length, take, ◌-◌, if◌then◌else◌,
}
use audio_service.Base.Int.{ℤ}
use audio_service.Base.Text.{
  Text, codes, text_eq, is_empty, has_prefix, trim_space, after_newline, parse_int,
}
use audio_service.Base.Float.{Floats}
use audio_service.Fault.{Error, opaque_error, Result, ok, err}
use audio_service.Json.{Json, null, bool, num, str, arr, obj, ◌>>=◌}
use audio_service.Json.Number.{is_valid_number}
use audio_service.Json.Parse.{parse_json, is_key}
use audio_service.Json.Struct.{
  Setter, set_fields, decode_struct, decode_items, decode_slice, decode_text, decode_bool_ptr,
}
use audio_service.Transcribe.{ModelUtterance, ModelReply}
use mathlib.Core.List.{reverse}

-- Decoding into a json.Number takes a number, or a string that is a valid number; null leaves the
-- empty text, which is no integer.
unfoldable pub lenient_ms : Option Json → Option ℤ
unfolding is_valid_number
lenient_ms none = none
lenient_ms (some (num s)) = parse_int s
lenient_ms (some (str s)) = if is_valid_number s then parse_int s else none
lenient_ms (some null) = none
lenient_ms (some (bool b)) = none
lenient_ms (some (arr vs)) = none
lenient_ms (some (obj fs)) = none

-- The struct `w` of `UnmarshalJSON`: the offsets as they stand in the document.
pub record RawUtterance : Type 0 where
  pub text : Text
  pub start_ms : Option Json
  pub end_ms : Option Json
  pub confidence : Option ℕ
  pub language : Text
  pub is_speech : Option Bool

abbrev zero_raw : RawUtterance
zero_raw = record {
  text = [];
  start_ms = none;
  end_ms = none;
  confidence = none;
  language = [];
  is_speech = none;
}

abbrev cooked : RawUtterance → ModelUtterance
cooked w = record {
  text = w.text;
  start_ms = lenient_ms w.start_ms;
  end_ms = lenient_ms w.end_ms;
  confidence = w.confidence;
  language = w.language;
  is_speech = w.is_speech;
}

-- strings.TrimSuffix(s, "```")
unfoldable pub trim_fence : Text → Text
unfolding has_prefix
trim_fence s = if has_prefix (codes "```") (reverse s) then take (length s - 3) s else s

-- Drops the first line.
abbrev behind_first_line : Text → Option Text → Text
behind_first_line s none = s
behind_first_line s (some t) = t

unfoldable pub strip_code_fence : Text → Text
unfolding has_prefix after_newline trim_space trim_fence
strip_code_fence s =
    if has_prefix (codes "```") s
    then trim_space (trim_fence (trim_space (behind_first_line s (after_newline s))))
    else s

module _ (fl : Floats) where
  open fl use {parse_float32}

  -- A pointer to a float32.
  unfoldable pub decode_float32_ptr : Json → Option (Option ℕ)
  decode_float32_ptr (num s) = parse_float32 s >>= (λ f. some (some f))
  decode_float32_ptr null = some none
  decode_float32_ptr _ = none

  set_raw : Setter RawUtterance
  unfolding is_key decode_text decode_bool_ptr decode_float32_ptr
  set_raw k v u =
      if is_key (codes "text") k
      then decode_text u.text v >>= (λ t. some (record u { text = t }))
      else (if is_key (codes "start_ms") k
          then some (record u { start_ms = some v })
          else (if is_key (codes "end_ms") k
              then some (record u { end_ms = some v })
              else (if is_key (codes "confidence") k
                  then decode_float32_ptr v >>= (λ c. some (record u { confidence = c }))
                  else (if is_key (codes "language") k
                      then decode_text u.language v >>= (λ t. some (record u { language = t }))
                      else (if is_key (codes "is_speech") k
                          then decode_bool_ptr v >>= (λ b. some (record u { is_speech = b }))
                          else some u)))))

  unfoldable pub unmarshal_utterance : Json → Option ModelUtterance
  unfolding set_raw decode_struct set_fields lenient_ms
  unmarshal_utterance v = decode_struct set_raw zero_raw v >>= (λ w. some (cooked w))

  pub set_reply : Setter ModelReply
  unfolding is_key decode_text decode_slice decode_items unmarshal_utterance
  set_reply k v r =
      if is_key (codes "detected_language") k
      then decode_text r.detected_language v >>= (λ t. some (record r { detected_language = t }))
      else (if is_key (codes "utterances") k
          then decode_slice unmarshal_utterance v >>= (λ us. some (record r { utterances = us }))
          else some r)

  unfoldable pub decode_reply : Text → Option ModelReply
  unfolding parse_json set_reply decode_struct set_fields
  decode_reply s =
      parse_json s
      >>= (λ v. decode_struct set_reply (record { detected_language = []; utterances = [] }) v)

  -- The detail of the decoder's message is left out.
  reply_or_err : Option ModelReply → Result ModelReply
  reply_or_err none = err (opaque_error (codes "transcribe: decode model reply"))
  reply_or_err (some r) = ok r

  unfoldable pub parse_model_json : Text → Result ModelReply
  unfolding reply_or_err
  parse_model_json s =
      let t = strip_code_fence (trim_space s) in
      if is_empty t
      then err (opaque_error (codes "transcribe: empty model reply"))
      else reply_or_err (decode_reply t)
