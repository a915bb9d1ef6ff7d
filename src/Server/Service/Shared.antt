-- ===== src/Server/Service/Shared.antt =====
-- Any number of calls of the service, internal/server/server.go, in a process that main of
-- cmd/audio-service/main.go has started: they share the engine of internal/audioengine/engine.go.
use audio_service.Base.{ℕ, ◌≤◌, ◌≡◌, refl, Bool, true, false, ◌∷◌}
use audio_service.Base.Float.{Floats}
use audio_service.Fault.{ok}
use audio_service.Effects.{World}
use audio_service.AudioEngine.Pool.Bracket.{nothing}
use audio_service.AudioEngine.Pool.System.{
  System, start, Step, arrive, advance, swaps, reclaimed, Reach, here, later, total,
}
use audio_service.AudioEngine.Pool.Progress.{running, to_come, running-le-capacity}
use audio_service.AudioEngine.Pool.Drain.{Works, IsDone, finish}
use audio_service.Boot.{Host, Booted, boot}
use audio_service.Boot.Ready.{boot-IsServing}
use audio_service.Server.{Server}
use audio_service.Server.Service.{Rpc, events_of, events_of-Leads}

-- Every step but an arrival.
abbrev pub goes_on :
    {capacity : ℕ} {on_idle : Bool} {s t : System} → Step capacity on_idle s t → Bool
goes_on (arrive es sound) = false
goes_on (advance xs ys e es h at ready) = true
goes_on (swaps h) = true
goes_on (reclaimed h) = true

abbrev pub called_service : Floats → Server → World → Rpc → System → System
called_service fl srv w rpc s = record s {
  threads = record { held = nothing; rest = events_of fl srv w rpc } ∷ s.threads;
}

module _ (fl : Floats) (srv : Server) where
  -- The states of an engine to which nothing arrives but calls of the service, each with its own
  -- answers of the world.
  pub data Serves : System → Type 0 where
    idle : Serves start
    call :
        {s : System} → Serves s → (w : World) (rpc : Rpc) → Serves (called_service fl srv w rpc s)
    goes :
        {s t : System}
        → Serves s
        → (st : Step srv.engine.capacity srv.engine.scavenge_on_idle s t) → goes_on st ≡ true
        → Serves t

  Serves-Reach : {s : System} → Serves s → Reach srv.engine.capacity srv.engine.scavenge_on_idle s
  Serves-Reach idle = here
  Serves-Reach (call r w rpc) = later (Serves-Reach r) (arrive _ (events_of-Leads fl srv w rpc))
  Serves-Reach (goes r st g) = later (Serves-Reach r) st

-- In a process that has started, whatever calls of Probe, Normalize and TranscribeSegment have
-- come, with whatever requests and answers of the world, and in whatever order they have made their
-- steps: no more of them are at a run of ffprobe or ffmpeg than the engine has workers; and as many
-- further steps as they have left end all of them, with all slots free and nothing marked as
-- active.
pub boot-Serves :
    (fl : Floats) (host : Host fl.Float) (b : Booted)
    → boot host ≡ ok b
    → {s : System} → Serves fl b.server s
    → (total running s.threads ≤ b.server.engine.capacity)
      × (t : System) × Works b.server.engine.capacity b.server.engine.scavenge_on_idle
          (total to_come s.threads)
          s
          t
      × IsDone b.server.engine.capacity b.server.engine.scavenge_on_idle t
boot-Serves fl host b booted {s} r =
    let n = b.server.engine.capacity in
    let i = b.server.engine.scavenge_on_idle in
    let reached = Serves-Reach fl b.server r in
    let ready = (boot-IsServing host b booted).engine in
    let (t, w, done) = finish n i (total to_come s.threads) reached ready.slots refl in
    (running-le-capacity n i reached, t, w, done)
