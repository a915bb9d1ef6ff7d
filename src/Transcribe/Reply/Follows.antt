-- ===== src/Transcribe/Reply/Follows.antt =====
-- What `parseModelJSON` of internal/transcribe/transcribe.go makes of a reply that follows the
-- schema of the request.
use audio_service.Base.{◌≤◌, ◌≡◌, refl, true, some, List, [], ◌∷◌, All, arith}
use audio_service.Base.Int.{ℤ, pos, ◌≤ℤ◌, IsInt64}
use audio_service.Base.Text.{Text, text_eq}
use audio_service.Base.Text.Decimal.{parse_int-itoa}
use audio_service.Base.Float.{Floats}
use audio_service.Fault.{ok}
use audio_service.Genai.Follows.{Follows, AllItems, height, Follows-IsWritten, Follows-depth}
use audio_service.Json.{Json, obj, Items, no_items, item, Fields}
use audio_service.Json.Parse.{is_key, max_depth}
use audio_service.Json.Print.{depth}
use audio_service.Json.Struct.{
  set_fields, decode_struct, decode_text, decode_bool_ptr, decode_items, decode_slice,
}
use audio_service.Transcribe.{Segment, ModelUtterance, ModelReply}
use audio_service.Transcribe.Request.{window_ms, utterance_schema, response_schema}
use audio_service.Transcribe.Reply.{
  lenient_ms, decode_float32_ptr, set_raw, unmarshal_utterance, set_reply, parse_model_json,
}
use audio_service.Transcribe.Reply.Fence.{fenced, one_line}
use audio_service.Transcribe.Reply.Compact.{object_text, parse_model_json-object_text}

-- Both offsets are there, from 0 to `w`.
pub record Spanned (w : ℤ) (u : ModelUtterance) : Type 0 where
  pub start : ℤ
  pub end : ℤ
  pub has_start : u.start_ms ≡ some start
  pub has_end : u.end_ms ≡ some end
  pub start_nonneg : pos 0 ≤ℤ start
  pub start_inside : start ≤ℤ w
  pub end_nonneg : pos 0 ≤ℤ end
  pub end_inside : end ≤ℤ w

offset-IsInt64 : (w n : ℤ) → IsInt64 w → pos 0 ≤ℤ n → n ≤ℤ w → IsInt64 n
offset-IsInt64 w n b l h = ground arith

-- A window whose length is still an int64 where it is sent as a float64.
module _ (fl : Floats) (seg : Segment) (fits : IsInt64 (window_ms seg)) where
  utterance-read :
      (v : Json)
      → Follows fl (utterance_schema seg) v
      → (u : ModelUtterance) × (unmarshal_utterance fl v ≡ some u) × Spanned (window_ms seg) u
  unfolding unmarshal_utterance set_raw decode_struct set_fields is_key text_eq decode_text
      decode_bool_ptr decode_float32_ptr lenient_ms
  utterance-read v
        (
          fs,
          e,
          (
            va,
            ra,
            ea,
            (a, da, la, ha),
            (
              vb,
              rb,
              eb,
              (b, db, lb, hb),
              (
                vc,
                rc,
                ec,
                (text, dc),
                (
                  vd,
                  rd,
                  ed,
                  (speech, dd),
                  (ve, re, ee, (language, de), (vf, rf, ef, (s, f, df, valid, read), last)),
                ),
              ),
            ),
          ),
        ) =
      (
        record {
          text = text;
          start_ms = some a;
          end_ms = some b;
          confidence = some f;
          language = language;
          is_speech = some speech;
        },
        rw (e, ea, da, eb, db, ec, dc, ed, dd, ee, de, ef, df, last)
            (rw
              (
                read,
                parse_int-itoa a (offset-IsInt64 (window_ms seg) a fits la ha),
                parse_int-itoa b (offset-IsInt64 (window_ms seg) b fits lb hb),
              )
              refl),
        record {
          start = a;
          end = b;
          has_start = refl;
          has_end = refl;
          start_nonneg = la;
          start_inside = ha;
          end_nonneg = lb;
          end_inside = hb;
        },
      )

  utterances-read :
      (vs : Items)
      → AllItems (Follows fl (utterance_schema seg)) vs
      → (us : List ModelUtterance) × (decode_items (unmarshal_utterance fl) vs ≡ some us)
        × All (Spanned (window_ms seg)) us
  unfolding decode_items
  utterances-read no_items h = ([], refl, tt)
  utterances-read (item v vs) h =
      let (u, e, s) = utterance-read v h.0 in
      let (us, es, ss) = utterances-read vs h.1 in (u ∷ us, rw e (rw es refl), (s, ss))

  reply-read :
      (v : Json)
      → Follows fl (response_schema seg) v
      → (r : ModelReply) × (decode_struct
            (set_reply fl)
            (record { detected_language = []; utterances = [] })
            v
          ≡ some r)
        × All (Spanned (window_ms seg)) r.utterances
  unfolding response_schema set_reply decode_struct set_fields is_key text_eq decode_text
      decode_slice
  reply-read v (fs, e, (va, ra, ea, (language, da), (vb, rb, eb, (vs, db, each), last))) =
      let (us, es, ss) = utterances-read vs each in
      (
        record { detected_language = language; utterances = us },
        rw (e, ea, da, eb, db, last) (rw es refl),
        ss,
      )

  response_schema-height : height (response_schema seg) ≤ max_depth
  unfolding response_schema
  response_schema-height = omega arith

  -- An object that follows the schema is read, bare or in a fence.
  pub parse_model_json-Follows :
      (fs : Fields) (language : Text)
      → Follows fl (response_schema seg) (obj fs)
      → one_line language ≡ true
      → (r : ModelReply) × (parse_model_json fl (object_text fs) ≡ ok r)
        × (parse_model_json fl (fenced language (object_text fs)) ≡ ok r)
        × All (Spanned (window_ms seg)) r.utterances
  parse_model_json-Follows fs language h l =
      let (r, e, spans) = reply-read (obj fs) h in
      let deep : depth (obj fs) ≤ max_depth =
        omega (arith, Follows-depth fl (response_schema seg) (obj fs) h, response_schema-height) in
      let (bare, inside) =
        parse_model_json-object_text fl fs r language
          (Follows-IsWritten fl (response_schema seg) (obj fs) h) deep e l in
      (r, bare, inside, spans)
