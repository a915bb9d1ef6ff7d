-- ===== src/Boot/Main.antt =====
-- main of cmd/audio-service/main.go, from its start to the exit of the process.
pub mod Lifetime
use audio_service.Base.{ℕ, Option, none, some, List, [], ◌∷◌, ◌++◌, if◌then◌else◌, not}
use audio_service.Base.Text.{Text, codes}
use audio_service.Base.Float.{Floats}
use audio_service.Fault.{Error, Result, ok, err}
use audio_service.AudioEngine.Engine.{Engine, new_engine, close_engine}
use audio_service.Transcribe.Client.{Client, new_client, available}
use audio_service.Settings.{Settings, load}
use audio_service.Logging.Setup.{Handler, new_logs}
use audio_service.RuntimeTune.{Setting, apply_settings}
use audio_service.Server.{Server}
use audio_service.Boot.{Host, Booted, serving, engine_config}

abbrev pub service_name : Text
service_name = codes "audio.v1.AudioService"

-- What main does that others can see. `status_set` is the status SERVING of a key of the health
-- service, `watching` the start of the goroutine that waits for a signal, `noted` a line
-- at the level Info.
pub data Act : Type 0 where
  fatal : Error → Act
  logs_installed : Handler → Act
  memory_set : List Setting → Act
  reported : Text → Error → Act
  warned_no_key : Act
  status_set : Text → Act
  watching : Act
  noted : Text → Act
  served : Booted → Act
  graceful_stop : Act
  engine_closed : Act

-- How `Serve` ends: without an error after GracefulStop, or with one. What the goroutine does before
-- a failure is left out.
pub data Ending : Type 0 where
  signalled : Ending
  serve_failed : Error → Ending

pub record Life : Type 0 where
  pub acts : List Act
  pub exit_code : ℕ

abbrev before : List Act → Life → Life
before done l = record l { acts = done ++ l.acts }

-- log.Fatalf, and os.Exit(1), which does not run the deferred Close.
abbrev stop : Act → Life
stop a = record { acts = a ∷ []; exit_code = 1 }

abbrev pub warning : Client → List Act
warning client = if not (available client) then warned_no_key ∷ [] else []

-- The deferred function.
abbrev closing : Option Error → List Act
closing none = []
closing (some e) = reported (codes "close engine") e ∷ []

abbrev pub ending_acts : Engine → Ending → List Act
ending_acts engine signalled =
    noted (codes "shutting down") ∷ graceful_stop ∷ engine_closed ∷ closing (close_engine engine)
ending_acts engine (serve_failed e) = reported (codes "serve") e ∷ []

abbrev pub ending_code : Ending → ℕ
ending_code signalled = 0
ending_code (serve_failed e) = 1

-- From the listener on.
abbrev pub announced : Booted → List Act
announced b =
    status_set service_name ∷ status_set [] ∷ watching ∷ noted (codes "listening") ∷ served b ∷ []

module _ (fl : Floats) where
  open fl use {Float}

  -- What main meets: the answers of the surroundings, the file system and the environment that
  -- runtimetune reads, and the end of `Serve`.
  pub record Outside : Type 0 where
    pub host : Host Float
    pub root : Text → Option (List ℕ)
    pub env : Text → Option Text
    pub ending : Ending

  abbrev pub with_listener : Outside → Booted → Option Error → Life
  with_listener o b (some e) = stop (reported (codes "listen") e)
  with_listener o b none = record {
    acts = announced b ++ ending_acts b.server.engine o.ending;
    exit_code = ending_code o.ending;
  }

  abbrev pub with_client : Outside → Settings Float → Engine → Result Client → Life
  with_client o cfg engine (err e) = stop (reported (codes "init transcriber") e)
  with_client o cfg engine (ok client) =
      before (warning client)
        (with_listener o (serving cfg engine client) (o.host.listen cfg.listen))

  abbrev pub with_engine : Outside → Settings Float → Result Engine → Life
  with_engine o cfg (err e) = stop (reported (codes "init engine") e)
  with_engine o cfg (ok engine) =
      with_client o cfg engine (new_client o.host.make_client cfg.gemini_api_key)

  abbrev pub with_settings : Outside → Result (Settings Float) → Life
  with_settings o (err e) = stop (fatal e)
  with_settings o (ok cfg) =
      before
        (logs_installed (new_logs cfg).logger
          ∷ memory_set (apply_settings fl cfg o.root o.env)
          ∷ [])
        (with_engine o cfg (new_engine o.host.look_path (engine_config cfg)))

  unfoldable pub run_main : Outside → Life
  run_main o = with_settings o (load o.host.environment)
