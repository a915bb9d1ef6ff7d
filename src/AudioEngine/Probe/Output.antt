-- ===== src/AudioEngine/Probe/Output.antt =====
-- The decoding of ffprobe's JSON, and `toResult`, `parseSecondsToMs` and `parseIntField`.
use audio_service.Base.{Bool, false, ◌||◌, Option, none, some, List, [], ◌∷◌, if◌then◌else◌}
use audio_service.Base.Int.{ℤ, pos, ltb_ℤ}
use audio_service.Base.Text.{Text, codes, text_eq, is_empty, trim_space, parse_int}
use audio_service.Base.Float.{Floats}
use audio_service.Fault.{because, invalid_audio}
use audio_service.Effects.{Result, ok, err}
use audio_service.Json.{◌>>=◌}
use audio_service.Json.Parse.{parse_json, is_key}
use audio_service.Json.Struct.{
  Setter, set_fields, decode_struct, decode_items, decode_slice, decode_text, decode_int,
}
use audio_service.AudioEngine.Probe.{ProbeResult, FfprobeStream, FfprobeFormat, FfprobeOutput}

abbrev zero_stream : FfprobeStream
zero_stream = record {
  codec_type = [];
  codec_name = [];
  channels = pos 0;
  sample_rate = [];
  duration = [];
}

abbrev zero_output : FfprobeOutput
zero_output = record { streams = []; format = record { format_name = []; duration = [] } }

set_stream : Setter FfprobeStream
unfolding is_key decode_text decode_int
set_stream k v s =
    if is_key (codes "codec_type") k
    then decode_text s.codec_type v >>= (λ t. some (record s { codec_type = t }))
    else (if is_key (codes "codec_name") k
        then decode_text s.codec_name v >>= (λ t. some (record s { codec_name = t }))
        else (if is_key (codes "channels") k
            then decode_int s.channels v >>= (λ n. some (record s { channels = n }))
            else (if is_key (codes "sample_rate") k
                then decode_text s.sample_rate v >>= (λ t. some (record s { sample_rate = t }))
                else (if is_key (codes "duration") k
                    then decode_text s.duration v >>= (λ t. some (record s { duration = t }))
                    else some s))))

set_format : Setter FfprobeFormat
unfolding is_key decode_text
set_format k v f =
    if is_key (codes "format_name") k
    then decode_text f.format_name v >>= (λ t. some (record f { format_name = t }))
    else (if is_key (codes "duration") k
        then decode_text f.duration v >>= (λ t. some (record f { duration = t }))
        else some f)

set_output : Setter FfprobeOutput
unfolding is_key set_stream set_format decode_struct decode_slice
set_output k v o =
    if is_key (codes "streams") k
    then decode_slice (decode_struct set_stream zero_stream) v
      >>= (λ l. some (record o { streams = l }))
    else (if is_key (codes "format") k
        then decode_struct set_format o.format v >>= (λ f. some (record o { format = f }))
        else some o)

-- `json.Unmarshal(stdout.Bytes(), &out)`
unfoldable pub decode_output : Text → Option FfprobeOutput
unfolding parse_json set_output set_fields decode_items
decode_output s = parse_json s >>= (λ v. decode_struct set_output zero_output v)

-- The loop that stops at the first audio stream.
unfoldable pub first_audio : List FfprobeStream → Option FfprobeStream
unfolding text_eq
first_audio [] = none
first_audio (s ∷ ss) = if text_eq s.codec_type (codes "audio") then some s else first_audio ss

-- `s == "" || s == "N/A"`
abbrev pub is_absent : Text → Bool
is_absent s = is_empty s || text_eq s (codes "N/A")

abbrev pub natural_or_zero : Option ℤ → ℤ
natural_or_zero none = pos 0
natural_or_zero (some n) = if ltb_ℤ n (pos 0) then pos 0 else n

unfoldable pub parse_int_field : Text → ℤ
parse_int_field s =
    let t = trim_space s in if is_absent t then pos 0 else natural_or_zero (parse_int t)

module _ (fl : Floats) where
  open fl use {Float, parse, of_int, to_int64, mul, less_eq, is_inf, is_nan}

  abbrev pub millis_of : Option Float → ℤ
  millis_of none = pos 0
  millis_of (some f) =
      if less_eq f (of_int (pos 0)) || (is_inf f || is_nan f)
      then pos 0
      else to_int64 (mul f (of_int (pos 1000)))

  unfoldable pub parse_seconds_to_ms : Text → ℤ
  parse_seconds_to_ms s = let t = trim_space s in if is_absent t then pos 0 else millis_of (parse t)

  -- The container's duration where it is positive, and otherwise the stream's.
  unfoldable pub duration_of : Text → Text → ℤ
  duration_of container stream =
      let ms = parse_seconds_to_ms container in
      if ltb_ℤ (pos 0) ms then ms else parse_seconds_to_ms stream

  abbrev result_of : FfprobeOutput → Option FfprobeStream → Result ProbeResult
  result_of o none = err (because invalid_audio (codes "no audio stream"))
  result_of o (some stream) = ok (record {
    duration_ms = duration_of o.format.duration stream.duration;
    channels = stream.channels;
    sample_rate = parse_int_field stream.sample_rate;
    container = o.format.format_name;
    codec = stream.codec_name;
    silent = false;
  })

  unfoldable pub to_result : FfprobeOutput → Result ProbeResult
  to_result o = result_of o (first_audio o.streams)
