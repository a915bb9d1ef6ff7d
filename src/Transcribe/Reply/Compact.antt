-- ===== src/Transcribe/Reply/Compact.antt =====
-- `parseModelJSON` of internal/transcribe/transcribe.go on the compact text of an object of JSON,
-- bare or in a fence of Markdown.
use audio_service.Base.{◌≤◌, ◌≡◌, refl, ap, true, false, some, [], ◌∷◌}
use audio_service.Base.Text.{Text, codes, is_empty, is_space, trim_space, has_prefix}
use audio_service.Base.Text.Trim.{Visible}
use audio_service.Base.Float.{Floats}
use audio_service.Fault.{ok}
use audio_service.Json.{Json, obj, Fields}
use audio_service.Json.Parse.{max_depth}
use audio_service.Json.Struct.{decode_struct}
use audio_service.Json.Print.{print, print_fields, depth, IsWritten}
use audio_service.Json.Print.Ends.{print_fields-Ends}
use audio_service.Json.Parse.RoundTrip.{parse_json-print}
use audio_service.Transcribe.{ModelReply}
use audio_service.Transcribe.Reply.{
  strip_code_fence, set_reply, decode_reply, reply_or_err, parse_model_json,
}
use audio_service.Transcribe.Reply.Fence.{fenced, one_line, strip-plain, strip-fenced}

abbrev pub object_text : Fields → Text
object_text fs = print (obj fs) []

object_text-Visible : (fs : Fields) → Visible (object_text fs)
unfolding print is_space
object_text-Visible fs =
    let e = print_fields-Ends fs [] in
    record {
      first = b'{';
      tail = print_fields fs [];
      begin = refl;
      front = b'{' ∷ e.front;
      last = b'}';
      end = ap (λ t. b'{' ∷ t) e.at;
      first_visible = refl;
      last_visible = refl;
    }

object_text-nonempty : (fs : Fields) → is_empty (object_text fs) ≡ false
unfolding print
object_text-nonempty fs = refl

object_text-unfenced : (fs : Fields) → has_prefix (codes "```") (object_text fs) ≡ false
unfolding print has_prefix
object_text-unfenced fs = refl

module _ (fl : Floats) where
  decode_reply-print :
      (v : Json) (r : ModelReply)
      → IsWritten v
      → depth v ≤ max_depth
      → decode_struct (set_reply fl) (record { detected_language = []; utterances = [] }) v ≡ some r
      → decode_reply fl (print v []) ≡ some r
  unfolding decode_reply
  decode_reply-print v r w d h = rw (parse_json-print v w d) h

  -- The decoding of a text that the fences leave as the object.
  decoded :
      (fs : Fields) (r : ModelReply) (t : Text)
      → decode_reply fl (object_text fs) ≡ some r
      → strip_code_fence (trim_space t) ≡ object_text fs
      → parse_model_json fl t ≡ ok r
  unfolding parse_model_json reply_or_err
  decoded fs r t s h = rw h (rw (object_text-nonempty fs) (rw s refl))

  pub parse_model_json-object_text :
      (fs : Fields) (r : ModelReply) (language : Text)
      → IsWritten (obj fs)
      → depth (obj fs) ≤ max_depth
      → decode_struct (set_reply fl) (record { detected_language = []; utterances = [] }) (obj fs)
        ≡ some r
      → one_line language ≡ true
      → (parse_model_json fl (object_text fs) ≡ ok r)
        × (parse_model_json fl (fenced language (object_text fs)) ≡ ok r)
  parse_model_json-object_text fs r language w d h l =
      let s = decode_reply-print (obj fs) r w d h in
      (
        decoded fs r (object_text fs) s
            (strip-plain (object_text fs) (object_text-Visible fs) (object_text-unfenced fs)),
        decoded fs r (fenced language (object_text fs)) s
            (strip-fenced language (object_text fs) l (object_text-Visible fs)),
      )
