-- ===== src/Boot.antt =====
-- cmd/audio-service/main.go up to the start of the server: the settings, the engine, the transcriber
-- and the listener, in this order. The settings of the memory are in RuntimeTune; what main logs,
-- the health service and the shutdown are left out.
pub mod Ready
pub mod Main
use audio_service.Base.{ℕ, Bool, Option, none, some, List, []}
use audio_service.Base.Int.{ℤ}
use audio_service.Base.Text.{Text}
use audio_service.Fault.{Error, Result, ok, err}
use audio_service.AudioEngine.Engine.{Config, Engine, new_engine}
use audio_service.Transcribe.Client.{Client, new_client}
use audio_service.Settings.{Settings, load}
use audio_service.Server.{Server, new_server}

abbrev pub engine_config : {F : Type 0} → Settings F → Config
engine_config cfg = record {
  ffprobe_path = cfg.ffprobe_path;
  ffmpeg_path = cfg.ffmpeg_path;
  workers = cfg.workers;
  probe_timeout = cfg.probe_timeout;
  normalize_timeout = cfg.normalize_timeout;
  transcribe_timeout = cfg.transcribe_timeout;
  target_sample_rate = cfg.target_sample_rate;
  tmp_dir = cfg.tmp_dir;
  scavenge_on_idle = cfg.scavenge_on_idle;
}

-- A process that serves on an address.
pub record Booted : Type 0 where
  pub address : Text
  pub server : Server

infixl 5 ◌>>=◌
abbrev pub ◌>>=◌ : {A B : Type 0} → Result A → (A → Result B) → Result B
ok a >>= f = f a
err e >>= f = err e

-- The listener's error is that of net.Listen.
abbrev opened : Option Error → Result (Unit {0})
opened none = ok tt
opened (some e) = err e

-- What the surroundings answer: the environment, exec.LookPath, genai.NewClient and net.Listen.
pub record Host (F : Type 0) : Type 0 where
  pub environment : Result (Settings F)
  pub look_path : Text → Option Error
  pub make_client : Text → Option Error
  pub listen : Text → Option Error

abbrev pub serving : {F : Type 0} → Settings F → Engine → Client → Booted
serving cfg engine client = record {
  address = cfg.listen;
  server = new_server engine client cfg.transcribe_model;
}

-- The steps after the settings are read.
unfoldable pub started : {F : Type 0} → Host F → Settings F → Result Booted
started host cfg = new_engine host.look_path (engine_config cfg) >>= λ engine.
    new_client host.make_client cfg.gemini_api_key >>= λ client.
    opened (host.listen cfg.listen) >>= λ u. ok (serving cfg engine client)

-- An error is the exit of the process.
unfoldable pub boot : {F : Type 0} → Host F → Result Booted
boot host = load host.environment >>= started host
