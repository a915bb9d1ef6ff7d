-- ===== src/Logging/Setup/Derived.antt =====
-- What derived loggers of internal/logging keep, and what gRPC's own lines look like.
use audio_service.Base.{
  ◌≡◌, refl, sym, ap, ◌∙◌, if◌then◌else◌, ◌↔◌, leb, Bool, true, false, Option, none, some, List, [],
  ◌∷◌, ◌++◌,
}
use audio_service.Base.Text.{Text, codes}
use mathlib.Core.List.{append_assoc}
use audio_service.Settings.{Settings}
use audio_service.Logging.{
  Level, level_debug, level_info, level_warn, level_error, parse_level, Carried, Attr, attr_of,
  present, enriched_attrs, bridge_info, bridge_error, bridge_fatal, bridge,
}
use audio_service.Logging.Setup.{
  Base, new_base_handler, Handler, base_handler, context_handler, with_attrs, with_group, Line,
  rank, handle, enabled, log, no_ids, new_logs, bridged,
}

-- logger.With and logger.WithGroup
pub data Derivation : Type 0 where
  by_attrs : List Attr → Derivation
  by_group : Text → Derivation

abbrev derive_one : Handler → Derivation → Handler
derive_one h (by_attrs attrs) = with_attrs h attrs
derive_one h (by_group name) = with_group h name

abbrev pub derive : List Derivation → Handler → Handler
derive [] h = h
derive (d ∷ ds) h = derive ds (derive_one h d)

derive_one-context :
    (d : Derivation) (h : Handler)
    → derive_one (context_handler h) d ≡ context_handler (derive_one h d)
unfolding with_attrs with_group
derive_one-context (by_attrs attrs) h = refl
derive_one-context (by_group name) h = refl

derive-context :
    (ds : List Derivation) (h : Handler)
    → derive ds (context_handler h) ≡ context_handler (derive ds h)
derive-context [] h = refl
derive-context (d ∷ ds) h = rw (derive_one-context d h) (derive-context ds (derive_one h d))

log-context :
    (h : Handler) (ctx : Carried) (level : Level) (message : Text) (attrs : List Attr)
    → log (context_handler h) ctx level message attrs
      ≡ log h ctx level message (enriched_attrs ctx attrs)
unfolding log handle enabled
log-context h ctx level message attrs = refl

-- An id that a context carries, as an attribute; an empty one is none.
abbrev pub id_attr : Text → Option Text → List Attr
id_attr key none = []
id_attr key (some []) = []
id_attr key (some (c ∷ id)) = (key, c ∷ id) ∷ []

abbrev pub ids_of : Carried → List Attr
ids_of ctx =
    id_attr (codes "request_id") ctx.request_id ++ id_attr (codes "tenant_id") ctx.tenant_id

present-id_attr : (key : Text) (o : Option Text) → attr_of key (present o) ≡ id_attr key o
unfolding present
present-id_attr key none = refl
present-id_attr key (some []) = refl
present-id_attr key (some (c ∷ id)) = refl

pub enriched_attrs_lem :
    (ctx : Carried) (attrs : List Attr) → enriched_attrs ctx attrs ≡ attrs ++ ids_of ctx
unfolding enriched_attrs
enriched_attrs_lem ctx attrs =
    rw
      (
        present-id_attr (codes "request_id") ctx.request_id,
        present-id_attr (codes "tenant_id") ctx.tenant_id,
      )
      (append_assoc attrs _ _)

-- However a logger is derived from the one that `New` makes, by attributes and by groups in any
-- order, it logs a record exactly as slog's own handler would, derived in the same way, with further
-- attributes of the record at its end: the request id of the context and then its tenant id, each if
-- it is there and not empty. The ids are not lost on the way.
pub derived-enriches :
    {F : Type 0} (cfg : Settings F) (ds : List Derivation) (ctx : Carried) (level : Level)
    (message : Text) (attrs : List Attr)
    → log (derive ds (new_logs cfg).logger) ctx level message attrs
      ≡ log
          (derive ds (base_handler (new_base_handler cfg)))
          ctx
          level
          message
          (attrs ++ ids_of ctx)
unfolding new_logs
derived-enriches cfg ds ctx level message attrs =
    rw (derive-context ds (base_handler (new_base_handler cfg))) (
      log-context (derive ds (base_handler (new_base_handler cfg))) ctx level message attrs
      ∙ ap (log (derive ds (base_handler (new_base_handler cfg))) ctx level message)
          (enriched_attrs_lem ctx attrs))

-- The line of a call of gRPC's logger.
abbrev pub grpc_line : Base → Level → Text → Line
grpc_line b level text = record {
  format = b.format;
  level = level;
  message = text;
  attrs = ([], (codes "component", codes "grpc.internal")) ∷ [];
}

error_shown : (least : Level) → leb (rank least) (rank level_error) ≡ true
error_shown level_debug = refl
error_shown level_info = refl
error_shown level_warn = refl
error_shown level_error = refl

debug_shown_iff :
    (least : Level) → (leb (rank least) (rank level_debug) ≡ true) ↔ (least ≡ level_debug)
debug_shown_iff level_debug = (λ h. refl, λ h. refl)
debug_shown_iff level_info = (λ h. cc, λ h. cc)
debug_shown_iff level_warn = (λ h. cc, λ h. cc)
debug_shown_iff level_error = (λ h. cc, λ h. cc)

-- The route of a call of gRPC's logger.
routed :
    {F : Type 0} (cfg : Settings F) (text : Text) (level : Level)
    → log (new_logs cfg).grpc no_ids level text [] ≡ (
        if leb (rank (parse_level cfg.log_level)) (rank level)
        then some (grpc_line (new_base_handler cfg) level text)
        else none)
unfolding new_logs log handle enabled with_attrs new_base_handler enriched_attrs present
routed cfg text level = refl

shown_if : (b : Bool) (l : Line) → ((if b then some l else none) ≡ some l) ↔ (b ≡ true)
shown_if true l = (λ h. refl, λ h. refl)
shown_if false l = (λ h. cc, λ h. cc)

module _ {F : Type 0} (cfg : Settings F) (text : Text) where
  -- A line of gRPC's own logger has the attribute component=grpc.internal and the configured format.
  -- What it logs as information is shown, at the level debug, exactly if the configured level is
  -- debug; its errors are shown at every configured level, and so is a fatal one, which alone ends
  -- the process.
  pub bridged-levels :
      ((bridged (new_logs cfg) bridge_info text).0
          ≡ some (grpc_line (new_base_handler cfg) level_debug text)
        ↔ (parse_level cfg.log_level ≡ level_debug))
      × (bridged (new_logs cfg) bridge_error text
          ≡ (some (grpc_line (new_base_handler cfg) level_error text), false))
      × (bridged (new_logs cfg) bridge_fatal text
          ≡ (some (grpc_line (new_base_handler cfg) level_error text), true))
  unfolding bridged bridge
  bridged-levels =
      let least = parse_level cfg.log_level in
      let (there, back) = shown_if (leb (rank least) (rank level_debug)) _ in
      let (is_debug, shown) = debug_shown_iff least in
      let visible = error_shown least in
      (
        (
          λ h. is_debug (there (sym (routed cfg text level_debug) ∙ h)),
          λ h. routed cfg text level_debug ∙ back (shown h),
        ),
        ap (λ l. (l, false)) (routed cfg text level_error ∙ rw visible refl),
        ap (λ l. (l, true)) (routed cfg text level_error ∙ rw visible refl),
      )
