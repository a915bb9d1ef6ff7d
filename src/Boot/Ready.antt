-- ===== src/Boot/Ready.antt =====
-- What holds of a process that serves.
use audio_service.Base.{◌≡◌, refl, ◌⊎◌, true, not, Option, none, some, [], arith}
use audio_service.Base.Text.{Text, contains, is_blank}
use audio_service.Fault.{Error, Result, ok, err}
use audio_service.AudioEngine.Engine.{new_engine}
use audio_service.AudioEngine.Engine.Boot.{IsReady, new_engine-IsReady}
use audio_service.Transcribe.Client.{Client, new_client, available}
use audio_service.Settings.{Settings, load, colon}
use audio_service.Settings.Listen.{load-listen}
use audio_service.Boot.{Host, Booted, boot, started, serving, engine_config, opened, ◌>>=◌}

bind-ok :
    {A B : Type 0} (r : Result A) (f : A → Result B) {b : B}
    → (r >>= f) ≡ ok b
    → (a : A) × (r ≡ ok a) × (f a ≡ ok b)
bind-ok (ok a) f h = (a, refl, h)
bind-ok (err e) f h = cc

new_client-available :
    (make : Text → Option Error) (key : Text) (c : Client)
    → new_client make key ≡ ok c
    → available c ≡ not (is_blank key)
unfolding new_client
new_client-available make key c h = ground arith

opened-none : (o : Option Error) {u : Unit {0}} → opened o ≡ ok u → o ≡ none
opened-none none h = refl
opened-none (some e) h = cc

-- What holds of the settings and the server.
pub record IsServing {F : Type 0} (host : Host F) (b : Booted) : Type 0 where
  pub settings : Settings F
  pub loaded : load host.environment ≡ ok settings
  pub engine : IsReady host.look_path b.server.engine
  pub key : available b.server.transcriber ≡ not (is_blank settings.gemini_api_key)
  pub address : (b.address ≡ []) ⊎ (contains b.address colon ≡ true)
  pub listening : host.listen b.address ≡ none
  pub model : b.server.default_model ≡ settings.transcribe_model

-- The steps after the settings are read.
started-IsServing :
    {F : Type 0} (host : Host F) (cfg : Settings F) (b : Booted)
    → load host.environment ≡ ok cfg
    → started host cfg ≡ ok b
    → IsServing host b
unfolding started
started-IsServing host cfg b loaded h =
    let (engine, built, h1) = bind-ok (new_engine host.look_path (engine_config cfg)) _ h in
    let (client, made, h2) = bind-ok (new_client host.make_client cfg.gemini_api_key) _ h1 in
    let (u, bound, h3) = bind-ok (opened (host.listen cfg.listen)) _ h2 in
    let ready = load-listen host.environment cfg loaded in
    let at_start : IsServing host (serving cfg engine client) = record {
      settings = cfg;
      loaded = loaded;
      engine = new_engine-IsReady host.look_path (engine_config cfg) engine built;
      key = new_client-available host.make_client cfg.gemini_api_key client made;
      address = ready.0;
      listening = opened-none (host.listen cfg.listen) bound;
      model = refl;
    } in
    let same : serving cfg engine client ≡ b = ground arith in rw same at at_start

-- A process that serves has loaded its settings. It has an engine that is ready: at least one slot,
-- positive timeouts and rate, both programs found. It has the key for transcription exactly if the
-- configured one is not blank, the configured model as its default, and it listens, without an
-- error, on an address that is empty or holds a colon.
pub boot-IsServing : {F : Type 0} (host : Host F) (b : Booted) → boot host ≡ ok b → IsServing host b
unfolding boot
boot-IsServing host b h =
    let (cfg, loaded, rest) = bind-ok (load host.environment) (started host) h in
    started-IsServing host cfg b loaded rest
