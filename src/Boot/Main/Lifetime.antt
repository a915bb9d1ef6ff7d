-- ===== src/Boot/Main/Lifetime.antt =====
-- The order of what main of cmd/audio-service/main.go does, and the exit code.
use audio_service.Base.{
  ℕ, ◌≡◌, refl, sym, ap, ◌∙◌, inl, inr, true, false, Bool, Bool-cases, Option, none, some, List, [],
  ◌∷◌, ◌++◌, All,
}
use audio_service.Base.Text.{codes}
use audio_service.Base.Float.{Floats}
use audio_service.Fault.{Error, Result, ok, err}
use audio_service.AudioEngine.Engine.{Engine, new_engine}
use audio_service.Transcribe.Client.{Client, new_client, available}
use audio_service.Settings.{Settings, load}
use audio_service.Logging.Setup.{new_logs}
use audio_service.RuntimeTune.{apply_settings}
use audio_service.Boot.{Booted, boot, started, serving, engine_config, opened, ◌>>=◌}
use audio_service.Boot.Main.{
  Act, fatal, logs_installed, memory_set, reported, status_set, watching, noted, served,
  graceful_stop, engine_closed, Life, before, stop, warning, Outside, ending_acts, ending_code,
  with_listener, with_client, with_engine, with_settings, run_main, Ending, signalled, serve_failed,
  service_name,
}
use mathlib.Core.List.{append_assoc}

-- Nothing that a client can see.
abbrev pub is_unseen : Act → Bool
is_unseen (status_set key) = false
is_unseen watching = false
is_unseen (served b) = false
is_unseen graceful_stop = false
is_unseen engine_closed = false
is_unseen _ = true

abbrev pub IsUnseen : Act → Type 0
IsUnseen a = is_unseen a ≡ true

-- The error that a line tells of.
abbrev pub told : Act → Option Error
told (fatal e) = some e
told (reported text e) = some e
told _ = none

-- A process that ends before it serves.
pub record Failing (l : Life) (e : Error) : Type 0 where
  pub first : List Act
  pub last : Act
  pub unseen : All IsUnseen first
  pub tells : told last ≡ some e
  pub order : l.acts ≡ first ++ last ∷ []
  pub code : l.exit_code ≡ 1

-- What follows the end of `Serve`, and the exit code.
pub data EndsAs : Ending → List Act → ℕ → Type 0 where
  by_signal :
      EndsAs signalled (noted (codes "shutting down") ∷ graceful_stop ∷ engine_closed ∷ []) 0
  by_error : (e : Error) → EndsAs (serve_failed e) (reported (codes "serve") e ∷ []) 1

module _ (fl : Floats) where
  -- A process that serves.
  pub record Serving (o : Outside fl) (l : Life) (b : Booted) : Type 0 where
    pub first : List Act
    pub unseen : All IsUnseen first
    pub last : List Act
    pub order :
        l.acts
        ≡ first
          ++ (status_set service_name
              ∷ status_set []
              ∷ watching
              ∷ noted (codes "listening")
              ∷ served b
              ∷ last)
    pub end : EndsAs o.ending last l.exit_code

  -- What is seen of a process, by how its start ends.
  abbrev pub Shows : Outside fl → Result Booted → Life → Type 0
  Shows o (err e) l = Failing l e
  Shows o (ok b) l = Serving o l b

  All-append : (xs ys : List Act) → All IsUnseen xs → All IsUnseen ys → All IsUnseen (xs ++ ys)
  All-append [] ys p q = q
  All-append (x ∷ xs) ys p q = (p.0, All-append xs ys p.1 q)

  before-Shows :
      (o : Outside fl) (r : Result Booted) (xs : List Act) (l : Life)
      → All IsUnseen xs
      → Shows o r l
      → Shows o r (before xs l)
  before-Shows o (err e) xs l u s = record {
    first = xs ++ s.first;
    last = s.last;
    unseen = All-append xs s.first u s.unseen;
    tells = s.tells;
    order = ap (λ ys. xs ++ ys) s.order ∙ sym (append_assoc xs s.first (s.last ∷ []));
    code = s.code;
  }
  before-Shows o (ok b) xs l u s = record {
    first = xs ++ s.first;
    unseen = All-append xs s.first u s.unseen;
    last = s.last;
    order = ap (λ ys. xs ++ ys) s.order ∙ sym (append_assoc xs s.first _);
    end = s.end;
  }

  stop-Shows : (o : Outside fl) (a : Act) (e : Error) → told a ≡ some e → Shows o (err e) (stop a)
  stop-Shows o a e h = record {
    first = [];
    last = a;
    unseen = tt;
    tells = h;
    order = refl;
    code = refl;
  }

  ending_acts-EndsAs :
      (engine : Engine) (e : Ending) → EndsAs e (ending_acts engine e) (ending_code e)
  ending_acts-EndsAs engine signalled = by_signal
  ending_acts-EndsAs engine (serve_failed e) = by_error e

  with_listener-Shows :
      (o : Outside fl) (b : Booted) (r : Option Error)
      → Shows o (opened r >>= λ u. ok b) (with_listener fl o b r)
  with_listener-Shows o b (some e) = stop-Shows o _ e refl
  with_listener-Shows o b none = record {
    first = [];
    unseen = tt;
    last = ending_acts b.server.engine o.ending;
    order = refl;
    end = ending_acts-EndsAs b.server.engine o.ending;
  }

  warning-IsUnseen : (client : Client) → All IsUnseen (warning client)
  warning-IsUnseen client = elim (Bool-cases (available client)) [
    | inl e ↦ rw e tt
    | inr e ↦ rw e (refl, tt)
  ]

  module _ (o : Outside fl) (cfg : Settings fl.Float) where
    with_client-Shows :
        (engine : Engine) (r : Result Client)
        → Shows o
            (r >>= λ client.
              opened (o.host.listen cfg.listen) >>= λ u. ok (serving cfg engine client))
            (with_client fl o cfg engine r)
    with_client-Shows engine (err e) = stop-Shows o _ e refl
    with_client-Shows engine (ok client) =
        before-Shows o _ (warning client) _ (warning-IsUnseen client)
          (with_listener-Shows o (serving cfg engine client) (o.host.listen cfg.listen))

    with_engine-Shows :
        (r : Result Engine)
        → Shows o
            (r >>= λ engine. new_client o.host.make_client cfg.gemini_api_key >>= λ client.
              opened (o.host.listen cfg.listen) >>= λ u. ok (serving cfg engine client))
            (with_engine fl o cfg r)
    with_engine-Shows (err e) = stop-Shows o _ e refl
    with_engine-Shows (ok engine) =
        with_client-Shows engine (new_client o.host.make_client cfg.gemini_api_key)

  with_settings-Shows :
      (o : Outside fl) (r : Result (Settings fl.Float))
      → Shows o (r >>= started o.host) (with_settings fl o r)
  unfolding started
  with_settings-Shows o (err e) = stop-Shows o _ e refl
  with_settings-Shows o (ok cfg) =
      before-Shows o _
        (logs_installed (new_logs cfg).logger
          ∷ memory_set (apply_settings fl cfg o.root o.env)
          ∷ [])
        _ (refl, (refl, tt))
        (with_engine-Shows o cfg (new_engine o.host.look_path (engine_config cfg)))

  -- The life of the process is that of its start. If the start ends with an error, the process does
  -- nothing that a client can see, reports this error last, and exits with 1. If the start gives a
  -- server, both keys of the health service are set to SERVING before the server serves; on a
  -- signal it stops gracefully, closes the engine and exits with 0, and if `Serve` fails it reports
  -- that and exits with 1.
  pub run_main-Shows : (o : Outside fl) → Shows o (boot o.host) (run_main fl o)
  unfolding boot run_main
  run_main-Shows o = with_settings-Shows o (load o.host.environment)
