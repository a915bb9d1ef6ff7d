-- ===== src/Examples/Process.antt =====
-- Examples for the start of the process and for its logging.
use audio_service.Base.{
  ℕ, ◌<◌, ◌≤◌, ◌≡◌, refl, false, Option, none, some, All, List, [], ◌∷◌, ◌++◌, length, ◌*◌, ◌^◌,
  if◌then◌else◌, arith,
}
use audio_service.Base.Int.{pos}
use audio_service.Base.Text.{Text, codes, text_eq, trim_space, parse_int, is_blank, is_empty}
use audio_service.Base.Utf8.{runes}
use audio_service.Fault.{ok}
use audio_service.AudioEngine.Engine.{new_engine, or_default, or_positive}
use audio_service.Transcribe.Client.{new_client}
use audio_service.Settings.{Settings, load, listen_address}
use audio_service.RuntimeTune.{read_limit, cgroup_memory_limit, cgroup_v2_max, apply_settings}
use audio_service.RuntimeTune.Limit.{IsMeant, apply_settings-IsMeant}
use audio_service.Boot.{Host, Booted, boot, started}
use audio_service.Boot.Ready.{IsServing, boot-IsServing}
use audio_service.Server.Handlers.{Outcome, replied}
use audio_service.Logging.{level_error, Carried, level_for_code, enrich, resolved_id}
use audio_service.Logging.Rpc.{
  set_header, called, logged, Surroundings, code_of, rpc_attrs, intercept,
}
use audio_service.Logging.Rpc.Correlation.{tenant_attrs, intercept-correlates}
use audio_service.Boot.Main.{Outside, signalled, run_main}
use audio_service.Boot.Main.Lifetime.{Shows, run_main-Shows}
use audio_service.AudioEngine.Pool.System.{System, start, total}
use audio_service.AudioEngine.Pool.Progress.{running, to_come}
use audio_service.AudioEngine.Pool.Drain.{Works, IsDone}
use audio_service.Server.Service.{outcome_of, Rpc, probe_rpc}
use audio_service.Server.Service.Shared.{called_service, Serves, idle, call, boot-Serves}
use audio_service.Logging.Rpc.Access.{rpc_line, method_of, Judged, outcome_of-Judged}
use audio_service.Logging.Setup.{base_handler, new_base_handler, log, new_logs}
use audio_service.Logging.Setup.Derived.{
  Derivation, by_attrs, by_group, derive, ids_of, derived-enriches,
}
use audio_service.Examples.Setup.{billionths, server, world}

abbrev settings : Text → Settings ℕ
settings listen = record {
  listen = listen;
  workers = pos 2;
  probe_timeout = pos (90 * 10 ^ 9);
  normalize_timeout = pos (1800 * 10 ^ 9);
  transcribe_timeout = pos (600 * 10 ^ 9);
  ffprobe_path = codes "ffprobe";
  ffmpeg_path = codes "ffmpeg";
  target_sample_rate = pos 16000;
  tmp_dir = codes "/tmp";
  gemini_api_key = codes "key";
  transcribe_model = codes "gemini";
  gc_percent = pos 50;
  memory_limit_ratio = 900_000_000;
  scavenge_on_idle = false;
  log_level = codes "info";
  log_format = codes "json";
}

bare_port : load (ok (settings (codes "50051"))) ≡ ok (settings (codes ":50051"))
unfolding load listen_address
bare_port = refl

-- Version 2 has no limit, version 1 has one of 512 MiB.
abbrev root : Text → Option (List ℕ)
root name = if text_eq name cgroup_v2_max then some (codes "max\n") else some (codes "536870912\n")

container : cgroup_memory_limit root ≡ some (pos 536_870_912)
unfolding cgroup_memory_limit read_limit text_eq runes trim_space parse_int
container = refl

abbrev no_env : Text → Option Text
no_env name = none

apply_settings-IsMeant_example :
    All
      (IsMeant billionths (settings []) root no_env)
      (apply_settings billionths (settings []) root no_env)
apply_settings-IsMeant_example = apply_settings-IsMeant billionths (settings []) root no_env

abbrev host : Host ℕ
host = record {
  environment = ok (settings (codes "50051"));
  look_path = λ name. none;
  make_client = λ key. none;
  listen = λ address. none;
}

abbrev booted : Booted
booted = record { address = codes ":50051"; server = server }

boots : boot host ≡ ok booted
unfolding boot started load listen_address new_engine new_client or_default or_positive is_blank
boots = refl

boot-IsServing_example : IsServing host booted
boot-IsServing_example = boot-IsServing host booted boots

abbrev surroundings : Surroundings
surroundings = record {
  metadata = none;
  random = some (1 ∷ 254 ∷ []);
  code_name = λ c. codes "OK";
  error_text = λ st. codes "rpc error: code = Internal desc = " ++ st.message;
  latency_ms = codes "12";
  peer = none;
}

abbrev nobody : Carried
nobody = record { request_id = none; tenant_id = none }

abbrev probe_method : Text
probe_method = codes "/audio.v1.AudioService/Probe"

abbrev handler : Carried → Outcome ℕ
handler ctx = replied 7

filled : (b : List ℕ) → surroundings.random ≡ some b → 0 < length b
filled b h = ground arith

intercept-correlates_example :
    (is_empty (resolved_id surroundings.metadata surroundings.random) ≡ false)
    × ((enrich surroundings.metadata surroundings.random nobody).request_id
        ≡ some (resolved_id surroundings.metadata surroundings.random))
    × ((intercept surroundings nobody probe_method handler).outcome
        ≡ handler (enrich surroundings.metadata surroundings.random nobody))
    × ((intercept surroundings nobody probe_method handler).events
        ≡ set_header (resolved_id surroundings.metadata surroundings.random)
          ∷ called (enrich surroundings.metadata surroundings.random nobody)
          ∷ logged
              (level_for_code probe_method
                (code_of (intercept surroundings nobody probe_method handler).outcome))
              (rpc_attrs surroundings probe_method
                  (intercept surroundings nobody probe_method handler).outcome
                ++ ((codes "request_id", resolved_id surroundings.metadata surroundings.random)
                    ∷ tenant_attrs (enrich surroundings.metadata surroundings.random nobody)))
          ∷ [])
intercept-correlates_example = intercept-correlates surroundings nobody probe_method handler filled

abbrev outside : Outside billionths
outside = record { host = host; root = root; env = no_env; ending = signalled }

run_main-Shows_example : Shows billionths outside (boot host) (run_main billionths outside)
run_main-Shows_example = run_main-Shows billionths outside

abbrev probe_call : Rpc
probe_call = probe_rpc (record { source_url = codes "http://h/a.mp3"; filename = codes "a.mp3" })

-- Two calls that have arrived.
abbrev called_twice : System
called_twice =
    called_service billionths server world probe_call
      (called_service billionths server world probe_call start)

called_twice-Serves : Serves billionths booted.server called_twice
called_twice-Serves = call (call idle world probe_call) world probe_call

boot-Serves_example :
    (total running called_twice.threads ≤ booted.server.engine.capacity)
    × (t : System) × Works booted.server.engine.capacity booted.server.engine.scavenge_on_idle
        (total to_come called_twice.threads)
        called_twice
        t
    × IsDone booted.server.engine.capacity booted.server.engine.scavenge_on_idle t
boot-Serves_example = boot-Serves billionths host booted boots called_twice-Serves

abbrev derivations : List Derivation
derivations = by_group (codes "g") ∷ by_attrs ((codes "k", codes "v") ∷ []) ∷ []

abbrev traced : Carried
traced = record { request_id = some (codes "7f"); tenant_id = none }

derived-enriches_example :
    log (derive derivations (new_logs (settings [])).logger) traced level_error (codes "m") []
    ≡ log
        (derive derivations (base_handler (new_base_handler (settings []))))
        traced
        level_error
        (codes "m")
        ([] ++ ids_of traced)
derived-enriches_example =
    derived-enriches (settings []) derivations traced level_error (codes "m") []

outcome_of-Judged_example :
    Judged
      (settings [])
      surroundings
      nobody
      (method_of probe_call)
      (outcome_of billionths server world probe_call)
      (rpc_line
        (settings [])
        surroundings
        nobody
        (method_of probe_call)
        (outcome_of billionths server world probe_call))
outcome_of-Judged_example =
    outcome_of-Judged billionths server world (settings []) surroundings nobody probe_call
