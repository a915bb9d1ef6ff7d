-- ===== src/Logging/Rpc/Access.antt =====
-- The access line of a call of the service, from the handler in internal/server/server.go through
-- logRPC in internal/logging/interceptor.go to the logger that `New` makes.
use audio_service.Base.{
  ◌≡◌, refl, ◌∙◌, ◌⊎◌, inl, inr, Bool, true, false, Option, none, some, List, [], ◌∷◌, ◌++◌, ap,
  map, leb, if◌then◌else◌, arith,
}
use audio_service.Base.Text.{Text, codes, has_prefix, trim_space, to_lower}
use audio_service.Base.Float.{Floats}
use audio_service.Effects.{World}
use audio_service.Server.{Server}
use audio_service.Server.Status.{
  Code, Status, code_ok, code_invalid_argument, code_internal, code_deadline_exceeded,
  code_canceled, code_unavailable, code_resource_exhausted,
}
use audio_service.Server.Handlers.{Outcome, replied, failed}
use audio_service.Server.Handlers.Codes.{
  is_engine, is_fault, Fails, is_engine-is_fault, handle_probe-Fails, handle_normalize-Fails,
  handle_transcribe_segment-Fails,
}
use audio_service.Server.Service.{outcome_of, Rpc, probe_rpc, normalize_rpc, transcribe_segment_rpc}
use audio_service.Settings.{Settings}
use audio_service.Logging.{
  Level, level_info, level_warn, level_error, parse_level, is_health_method, level_of,
  level_for_code, Carried, Attr, enriched_attrs,
}
use audio_service.Logging.Levels.{IsQuiet, Hidden, parse_level-Hidden, error-shown}
use audio_service.Logging.Rpc.{Surroundings, optional, code_of, rpc_attrs}
use audio_service.Logging.Setup.Derived.{ids_of, enriched_attrs_lem}
use audio_service.Json.Parse.{is_key}
use audio_service.Logging.Setup.{
  new_base_handler, handle, enabled, log, rank, Line, text_format, json_format, new_logs,
}

-- The end of `logRPC`, with the logger of the process.
unfoldable pub rpc_line :
    {F A : Type 0} → Settings F → Surroundings → Carried → Text → Outcome A → Option Line
unfolding log new_logs level_for_code rpc_attrs
rpc_line cfg s ctx method o =
    log (new_logs cfg).logger ctx (level_for_code method (code_of o)) (codes "rpc")
      (rpc_attrs s method o)

-- The full names of the methods.
abbrev pub method_of : Rpc → Text
method_of (probe_rpc req) = codes "/audio.v1.AudioService/Probe"
method_of (normalize_rpc req) = codes "/audio.v1.AudioService/Normalize"
method_of (transcribe_segment_rpc req) = codes "/audio.v1.AudioService/TranscribeSegment"

-- A line with the message "rpc" outside all groups, in the configured format.
abbrev pub line_at : {F : Type 0} → Settings F → Level → List Attr → Line
line_at cfg level attrs = record {
  format = if is_key (codes "text") (trim_space cfg.log_format) then text_format else json_format;
  level = level;
  message = codes "rpc";
  attrs = map (λ a. ([], a)) attrs;
}

abbrev kept_if : Bool → Line → Option Line
kept_if b l = if b then some l else none

-- The configured level, in lower case and without blanks around it.
abbrev pub level_name : {F : Type 0} → Settings F → Text
level_name cfg = to_lower (trim_space cfg.log_level)

-- A line is left out exactly under a condition.
abbrev pub ShownUnless : Type 0 → Line → Option Line → Type 0
ShownUnless P line l = (P × (l ≡ none)) ⊎ ((¬ P) × (l ≡ some line))

shown_unless :
    {P : Type 0} (b : Bool) (line : Line) → Hidden P b → ShownUnless P line (kept_if b line)
shown_unless b line (inl (p, e)) = inl (p, rw e refl)
shown_unless b line (inr (n, e)) = inr (n, rw e refl)

abbrev pub is_server_fault : Code → Bool
is_server_fault code_internal = true
is_server_fault code_unavailable = true
is_server_fault _ = false

abbrev pub is_client_fault : Code → Bool
is_client_fault code_invalid_argument = true
is_client_fault code_deadline_exceeded = true
is_client_fault code_canceled = true
is_client_fault code_resource_exhausted = true
is_client_fault _ = false

blamed :
    (c : Code)
    → is_fault c ≡ true
    → ((is_server_fault c ≡ true) × (level_of c ≡ level_error))
      ⊎ ((is_client_fault c ≡ true) × (level_of c ≡ level_warn))
blamed c h = ground arith

no_health : (rpc : Rpc) (c : Code) → level_for_code (method_of rpc) c ≡ level_of c
unfolding level_for_code is_health_method has_prefix
no_health (probe_rpc req) c = refl
no_health (normalize_rpc req) c = refl
no_health (transcribe_segment_rpc req) c = refl

module _ {F : Type 0} (cfg : Settings F) (s : Surroundings) (ctx : Carried) where
  -- The attributes of the line of a call, with an error or without, and the ids of the context.
  abbrev pub line_attrs : Text → Code → List Attr → List Attr
  line_attrs method code error =
      ((codes "component", codes "grpc")
          ∷ (codes "method", method)
          ∷ (codes "code", s.code_name code)
          ∷ (codes "latency_ms", s.latency_ms)
          ∷ optional (codes "peer") s.peer
        ++ error)
      ++ ids_of ctx

  abbrev pub error_attr : Status → List Attr
  error_attr st = (codes "err", s.error_text st) ∷ []

  -- Success is hidden by the level warn and error, a fault of the server never, and a fault of the
  -- client by the level error.
  abbrev pub Judged : {A : Type 0} → Text → Outcome A → Option Line → Type 0
  Judged method (replied a) l =
      ShownUnless (IsQuiet (level_name cfg)) (line_at cfg level_info (line_attrs method code_ok []))
        l
  Judged method (failed st) l =
      ((is_server_fault st.code ≡ true)
        × (l ≡ some (line_at cfg level_error (line_attrs method st.code (error_attr st)))))
      ⊎ ((is_client_fault st.code ≡ true)
          × ShownUnless (level_name cfg ≡ codes "error")
              (line_at cfg level_warn (line_attrs method st.code (error_attr st))) l)

  rpc_line-enriched :
      {A : Type 0} (method : Text) (o : Outcome A) (level : Level)
      → level_for_code method (code_of o) ≡ level
      → rpc_line cfg s ctx method o
        ≡ kept_if
            (leb (rank (parse_level cfg.log_level)) (rank level))
            (line_at cfg level (enriched_attrs ctx (rpc_attrs s method o)))
  unfolding rpc_line log handle enabled new_logs new_base_handler enriched_attrs
  rpc_line-enriched method o level h = rw h refl

  rpc_line-level :
      {A : Type 0} (method : Text) (o : Outcome A) (level : Level)
      → level_for_code method (code_of o) ≡ level
      → rpc_line cfg s ctx method o
        ≡ kept_if
            (leb (rank (parse_level cfg.log_level)) (rank level))
            (line_at cfg level (rpc_attrs s method o ++ ids_of ctx))
  rpc_line-level method o level h =
      rpc_line-enriched method o level h
      ∙ ap
          (λ attrs.
            kept_if (leb (rank (parse_level cfg.log_level)) (rank level)) (line_at cfg level attrs))
          (enriched_attrs_lem ctx (rpc_attrs s method o))

  outcome-Judged :
      (rpc : Rpc) {A : Type 0} (o : Outcome A)
      → Fails is_fault o
      → Judged (method_of rpc) o (rpc_line cfg s ctx (method_of rpc) o)
  unfolding rpc_attrs
  outcome-Judged rpc {A = A} (replied a) h =
      rw
        (rpc_line-level {A = A} (method_of rpc) (replied a) level_info (no_health rpc code_ok)
          ∙ refl)
        (shown_unless _ _ (parse_level-Hidden cfg.log_level).0)
  outcome-Judged rpc {A = A} (failed st) h = elim (blamed st.code h) [
    | inl (fault, e) ↦ inl (
      fault,
      rpc_line-level {A = A} (method_of rpc) (failed st) level_error (no_health rpc st.code ∙ e)
          ∙ rw (error-shown (parse_level cfg.log_level)) refl,
    )
    | inr (fault, e) ↦ inr (
      fault,
      rw (rpc_line-level {A = A} (method_of rpc) (failed st) level_warn (no_health rpc st.code ∙ e))
          (shown_unless _ _ (parse_level-Hidden cfg.log_level).1),
    )
  ]

Fails-weaken : {A : Type 0} (o : Outcome A) → Fails is_engine o → Fails is_fault o
Fails-weaken (replied a) h = tt
Fails-weaken (failed st) h = is_engine-is_fault st.code h

outcome_of-Fails :
    (fl : Floats) (s : Server) (w : World) (rpc : Rpc) → Fails is_fault (outcome_of fl s w rpc)
outcome_of-Fails fl s w (probe_rpc req) = Fails-weaken _ (handle_probe-Fails fl s w req)
outcome_of-Fails fl s w (normalize_rpc req) = Fails-weaken _ (handle_normalize-Fails fl s w req)
outcome_of-Fails fl s w (transcribe_segment_rpc req) = handle_transcribe_segment-Fails fl s w req

-- The access line of a call of the service, whatever its request, the answers of the world and the
-- settings. A reply is logged as information, which is shown unless the configured level is warn,
-- warning or error, in any case and with any blanks around it. A failing call has one of six codes:
-- Internal and Unavailable are logged as errors, which are shown at every configured level;
-- InvalidArgument, DeadlineExceeded, Canceled and ResourceExhausted are logged as warnings, which are
-- shown unless the configured level is error. A line that is shown has the configured format, and
-- the method, the name of the code, the latency, the peer where it is known, the text of the
-- error, which is that of its status, where there is one, and the ids of its context.
pub outcome_of-Judged :
    {F : Type 0} (fl : Floats) (server : Server) (w : World) (cfg : Settings F) (s : Surroundings)
    (ctx : Carried) (rpc : Rpc)
    → Judged cfg s ctx
        (method_of rpc)
        (outcome_of fl server w rpc)
        (rpc_line cfg s ctx (method_of rpc) (outcome_of fl server w rpc))
outcome_of-Judged fl server w cfg s ctx rpc =
    outcome-Judged cfg s ctx rpc (outcome_of fl server w rpc) (outcome_of-Fails fl server w rpc)
