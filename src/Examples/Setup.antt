-- ===== src/Examples/Setup.antt =====
-- Numbers, programs and answers for the examples.
use audio_service.Base.{
  ℕ, ◌+◌, ◌*◌, ◌/◌, ◌%◌, ◌^◌, ◌<◌, ◌≡◌, true, false, Option, none, some, List, [], ◌∷◌, ltb, leb,
  if◌then◌else◌, arith,
}
use mathlib.Core.Path.{ap₂}
use audio_service.Base.Int.{ℤ, pos, pos_part, wrap64, wrap64-IsInt64}
use audio_service.Base.Text.{Text, codes, text_eq, parse_int}
use audio_service.Base.Float.{Floats, decimal_seconds}
use audio_service.Fault.{ok}
use audio_service.Genai.{GenResponse}
use audio_service.Effects.{Ctx, Command, Exit, response, World}
use audio_service.AudioEngine.Engine.{Engine, seconds}
use audio_service.Server.{Server, TranscribeSegmentRequest}

-- Numbers that are no less than 0, in billionths.
abbrev billion : ℕ
billion = 10 ^ 9

abbrev of_whole : ℤ → ℕ
of_whole n = pos_part n * billion

abbrev three_decimals : ℕ → Text
three_decimals x = decimal_seconds (x / billion) (x % billion / 10 ^ 6)

abbrev parse_whole : Option ℤ → Option ℕ
parse_whole none = none
parse_whole (some n) = some (of_whole n)

pub three_decimals-seconds :
    (s ms : ℕ)
    → ms < 1000
    → three_decimals
        (of_whole (pos s) + of_whole (pos (ms * 10 ^ 6)) * billion / of_whole (pos (10 ^ 9)))
      ≡ decimal_seconds s ms
three_decimals-seconds s ms h =
    let x = of_whole (pos s) + of_whole (pos (ms * 10 ^ 6)) * billion / of_whole (pos (10 ^ 9)) in
    let whole : x / billion ≡ s = omega arith in
    let part : x % billion / 10 ^ 6 ≡ ms = omega arith in ap₂ decimal_seconds whole part

abbrev pub billionths : Floats
billionths = record {
  Float = ℕ;
  parse = λ s. parse_whole (parse_int s);
  parse_float32 = λ s. some 0;
  of_int = of_whole;
  literal = λ n k. n * billion / 10 ^ k;
  to_int64 = λ f. wrap64 (pos (f / billion));
  add = λ a b. a + b;
  mul = λ a b. a * b / billion;
  div = λ a b. a * billion / b;
  less = ltb;
  less_eq = leb;
  is_inf = λ a. false;
  is_nan = λ a. false;
  fixed3 = three_decimals;
  to_int64-IsInt64 = λ f. wrap64-IsInt64 (pos (f / billion));
  fixed3-seconds = λ s ms h k. three_decimals-seconds s ms k;
}

abbrev pub ffprobe_path : Text
ffprobe_path = codes "ffprobe"

abbrev pub engine : Engine
engine = record {
  ffprobe = ffprobe_path;
  ffmpeg = codes "ffmpeg";
  probe_timeout = seconds 90;
  normalize_timeout = seconds 1800;
  transcribe_timeout = seconds 600;
  target_sample_rate = pos 16000;
  tmp_dir = codes "/tmp";
  capacity = 2;
  scavenge_on_idle = false;
}

-- A sound of two seconds.
abbrev pub metadata_json : Text
metadata_json =
    codes
      "{\"streams\":[{\"codec_type\":\"audio\",\"codec_name\":\"mp3\",\"channels\":2}],\"format\":{\"duration\":\"2\"}}"

abbrev pub sound : List ℕ
sound = 79 ∷ 103 ∷ 103 ∷ 83 ∷ []

abbrev exit_with : List ℕ → Exit
exit_with out = record { failure = none; ctx_err = none; stdout = out ∷ []; stderr = [] }

abbrev pub run_program : Ctx → Command → Exit
run_program ctx c =
    if text_eq c.program ffprobe_path then exit_with metadata_json else exit_with sound

abbrev pub reply_json : Text
reply_json =
    codes
      "{\"detected_language\":\"en\",\"utterances\":[{\"text\":\"hi\",\"start_ms\":100,\"end_ms\":9000}]}"

abbrev pub gemini_response : GenResponse
gemini_response = record {
  candidates = some (codes "STOP") ∷ [];
  usage = some (pos 7, pos 9);
  text = reply_json;
}

abbrev pub world : World
world = record {
  slot = λ ctx. none;
  run = run_program;
  create_temp = λ dir. none;
  stat_temp = none;
  rewind_temp = none;
  new_put = λ url. none;
  put = λ ctx url file. response (pos 200) (codes "200 OK");
  generate = λ ctx req. ok gemini_response;
}

abbrev pub server : Server
server = record {
  engine = engine;
  transcriber = record { has_inner = true };
  default_model = codes "gemini";
}

abbrev pub request : TranscribeSegmentRequest
request = record {
  normalized_url = codes " http://store/a.ogg ";
  start_ms = pos 1000;
  end_ms = pos 3000;
  language_hint = [];
  model = [];
}
