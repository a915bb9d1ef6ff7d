-- ===== src/Logging/Rpc.antt =====
-- The interceptors of internal/logging/interceptor.go around a handler.
pub mod Correlation
pub mod Access
use audio_service.Base.{Bool, Option, none, some, List, [], ◌∷◌, ◌++◌, ℕ}
use audio_service.Base.Text.{Text, codes}
use audio_service.Server.Status.{Code, Status, code_ok}
use audio_service.Server.Handlers.{Outcome, replied, failed}
use audio_service.Logging.{
  Level, Carried, Attr, Metadata, level_for_code, enriched_attrs, enrich, resolved_id,
}

-- status.Code
abbrev pub code_of : {A : Type 0} → Outcome A → Code
code_of (replied a) = code_ok
code_of (failed st) = st.code

-- What an interceptor does, in order: the response header, the call of the handler with its
-- context, and the line with its level and attributes.
pub data RpcEvent : Type 0 where
  set_header : Text → RpcEvent
  called : Carried → RpcEvent
  logged : Level → List Attr → RpcEvent

pub record Served (A : Type 0) : Type 0 where
  pub events : List RpcEvent
  pub outcome : Outcome A

-- What the surroundings of an RPC answer: the metadata, the random bytes, the name of a code, the
-- text of a status as an error, the time that the handler took, and the address of the peer.
pub record Surroundings : Type 0 where
  pub metadata : Metadata
  pub random : Option (List ℕ)
  pub code_name : Code → Text
  pub error_text : Status → Text
  pub latency_ms : Text
  pub peer : Option Text

abbrev pub optional : Text → Option Text → List Attr
optional key none = []
optional key (some v) = (key, v) ∷ []

abbrev error_message : {A : Type 0} → (Status → Text) → Outcome A → Option Text
error_message error_text (replied a) = none
error_message error_text (failed st) = some (error_text st)

-- The attributes that `logRPC` builds.
unfoldable pub rpc_attrs : {A : Type 0} → Surroundings → Text → Outcome A → List Attr
rpc_attrs s method o =
    (codes "component", codes "grpc")
      ∷ (codes "method", method)
      ∷ (codes "code", s.code_name (code_of o))
      ∷ (codes "latency_ms", s.latency_ms)
      ∷ optional (codes "peer") s.peer
    ++ optional (codes "err") (error_message s.error_text o)

-- `logRPC`, through the context handler.
unfoldable pub log_rpc : {A : Type 0} → Surroundings → Carried → Text → Outcome A → RpcEvent
log_rpc s ctx method o =
    logged (level_for_code method (code_of o)) (enriched_attrs ctx (rpc_attrs s method o))

-- The unary interceptor.
unfoldable pub intercept :
    {A : Type 0} → Surroundings → Carried → Text → (Carried → Outcome A) → Served A
intercept s ctx method handler =
    let ctx' = enrich s.metadata s.random ctx in
    let o = handler ctx' in
    record {
      events =
          set_header (resolved_id s.metadata s.random) ∷ called ctx' ∷ log_rpc s ctx' method o ∷ [];
      outcome = o;
    }

-- grpc.ServerStream as far as handlers of streams see a context, and `wrappedStream`, whose other
-- methods are those of the stream inside.
pub data ServerStream : Type 0 where
  server_stream : Carried → ServerStream
  wrapped_stream : ServerStream → Carried → ServerStream

abbrev pub stream_context : ServerStream → Carried
stream_context (server_stream ctx) = ctx
stream_context (wrapped_stream ss ctx) = ctx

-- The interceptor for streams.
unfoldable pub intercept_stream :
    Surroundings → ServerStream → Text → (ServerStream → Outcome (Unit {0})) → Served (Unit {0})
intercept_stream s ss method handler =
    let ctx' = enrich s.metadata s.random (stream_context ss) in
    let o = handler (wrapped_stream ss ctx') in
    record {
      events =
          set_header (resolved_id s.metadata s.random) ∷ called ctx' ∷ log_rpc s ctx' method o ∷ [];
      outcome = o;
    }
