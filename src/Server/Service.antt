-- ===== src/Server/Service.antt =====
-- The three methods of `Server` in internal/server/server.go as the calls of one service.
pub mod Shared
use audio_service.Base.{List, All}
use audio_service.Base.Int.{ℤ}
use audio_service.Base.Float.{Floats}
use audio_service.Effects.{World, Event}
use audio_service.AudioEngine.Engine.{Engine}
use audio_service.AudioEngine.Timed.{IsTimed}
use audio_service.AudioEngine.Pool.Bracket.{nothing, Leads}
use audio_service.Server.{
  Server, ProbeRequest, ProbeResponse, NormalizeRequest, NormalizeResponse,
  TranscribeSegmentRequest, TranscribeSegmentResponse,
}
use audio_service.Server.Handlers.{
  Outcome, handle_probe, handle_normalize, handle_transcribe_segment,
}
use audio_service.Server.Handlers.Balance.{
  handle_probe-Leads, handle_normalize-Leads, handle_transcribe_segment-Leads,
}
use audio_service.Server.Handlers.Timed.{
  handle_probe-IsTimed, handle_normalize-IsTimed, handle_transcribe_segment-IsTimed,
}

pub data Rpc : Type 0 where
  probe_rpc : ProbeRequest → Rpc
  normalize_rpc : NormalizeRequest → Rpc
  transcribe_segment_rpc : TranscribeSegmentRequest → Rpc

-- The response of a call, by its method.
abbrev pub Response : Rpc → Type 0
Response (probe_rpc req) = ProbeResponse
Response (normalize_rpc req) = NormalizeResponse
Response (transcribe_segment_rpc req) = TranscribeSegmentResponse

-- The deadline that the engine sets for the work of a call.
abbrev pub timeout_of : Engine → Rpc → ℤ
timeout_of e (probe_rpc req) = e.probe_timeout
timeout_of e (normalize_rpc req) = e.normalize_timeout
timeout_of e (transcribe_segment_rpc req) = e.transcribe_timeout

module _ (fl : Floats) (s : Server) (w : World) where
  -- What a call does, in order.
  abbrev pub events_of : Rpc → List Event
  events_of (probe_rpc req) = (handle_probe fl s w req).events
  events_of (normalize_rpc req) = (handle_normalize fl s w req).events
  events_of (transcribe_segment_rpc req) = (handle_transcribe_segment fl s w req).events

  abbrev pub outcome_of : (rpc : Rpc) → Outcome (Response rpc)
  outcome_of (probe_rpc req) = (handle_probe fl s w req).outcome
  outcome_of (normalize_rpc req) = (handle_normalize fl s w req).outcome
  outcome_of (transcribe_segment_rpc req) = (handle_transcribe_segment fl s w req).outcome

  -- Whatever the request of a call of the service and the answers of the world, the call gives back
  -- its worker slot and its marks of activity and removes its temporary file. It never waits for a
  -- second slot; it runs processes and uploads only while it holds a slot and a mark, and it asks
  -- Gemini only while it holds a mark and no slot.
  pub events_of-Leads : (rpc : Rpc) → Leads (events_of rpc) nothing nothing
  events_of-Leads (probe_rpc req) = handle_probe-Leads fl s w req
  events_of-Leads (normalize_rpc req) = handle_normalize-Leads fl s w req
  events_of-Leads (transcribe_segment_rpc req) = handle_transcribe_segment-Leads fl s w req

  -- Whatever the request of a call of the service and the answers of the world, each process and
  -- each upload has the engine's deadline for that kind of call, and a call of Gemini has no
  -- deadline but that of the RPC.
  pub events_of-IsTimed : (rpc : Rpc) → All (IsTimed (timeout_of s.engine rpc)) (events_of rpc)
  events_of-IsTimed (probe_rpc req) = handle_probe-IsTimed fl s w req
  events_of-IsTimed (normalize_rpc req) = handle_normalize-IsTimed fl s w req
  events_of-IsTimed (transcribe_segment_rpc req) = handle_transcribe_segment-IsTimed fl s w req
