-- ===== src/Logging/Setup.antt =====
-- The handlers of log/slog as internal/logging/logging.go and context.go build and derive them, and
-- what `New` installs.
pub mod Derived
use audio_service.Base.{ℕ, Bool, Option, none, some, List, [], ◌∷◌, ◌++◌, map, leb, if◌then◌else◌}
use audio_service.Base.Text.{Text, codes, is_empty, trim_space}
use audio_service.Json.Parse.{is_key}
use audio_service.Settings.{Settings}
use audio_service.Logging.{
  Level, level_debug, level_info, level_warn, level_error, parse_level, Carried, Attr,
  enriched_attrs, BridgeCall, bridge,
}

pub data Format : Type 0 where
  json_format text_format : Format

-- An attribute under the groups that were open.
abbrev pub Qualified : Type 0
Qualified = List Text × Attr

-- slog's own handlers: the least level, and what WithAttrs and WithGroup have left.
pub record Base : Type 0 where
  pub format : Format
  pub least : Level
  pub attached : List Qualified
  pub groups : List Text

-- `strings.EqualFold(s, "text")`; the keys of JSON objects are compared by the same function.
unfoldable pub new_base_handler : {F : Type 0} → Settings F → Base
unfolding parse_level is_key trim_space
new_base_handler cfg =
    let format =
      if is_key (codes "text") (trim_space cfg.log_format) then text_format else json_format in
    record { format = format; least = parse_level cfg.log_level; attached = []; groups = [] }

-- slog.Handler: one of slog, or a `ContextHandler` around another.
pub data Handler : Type 0 where
  base_handler : Base → Handler
  context_handler : Handler → Handler

abbrev qualify : List Text → Attr → Qualified
qualify groups a = (groups, a)

unfoldable pub with_attrs : Handler → List Attr → Handler
with_attrs (base_handler b) attrs =
    base_handler (record b { attached = b.attached ++ map (qualify b.groups) attrs })
with_attrs (context_handler h) attrs = context_handler (with_attrs h attrs)

-- slog leaves an empty name out.
unfoldable pub with_group : Handler → Text → Handler
with_group (base_handler b) name =
    if is_empty name
    then base_handler b
    else base_handler (record b { groups = b.groups ++ name ∷ [] })
with_group (context_handler h) name = context_handler (with_group h name)

pub record Line : Type 0 where
  pub format : Format
  pub level : Level
  pub message : Text
  pub attrs : List Qualified

unfoldable pub handle : Handler → Carried → Level → Text → List Attr → Line
unfolding enriched_attrs
handle (base_handler b) ctx level message attrs = record {
  format = b.format;
  level = level;
  message = message;
  attrs = b.attached ++ map (qualify b.groups) attrs;
}
handle (context_handler h) ctx level message attrs =
    handle h ctx level message (enriched_attrs ctx attrs)

-- The order of the levels.
abbrev pub rank : Level → ℕ
rank level_debug = 0
rank level_info = 1
rank level_warn = 2
rank level_error = 3

unfoldable pub enabled : Handler → Level → Bool
enabled (base_handler b) level = leb (rank b.least) (rank level)
enabled (context_handler h) level = enabled h level

-- logger.Log
unfoldable pub log : Handler → Carried → Level → Text → List Attr → Option Line
unfolding handle enabled
log h ctx level message attrs =
    if enabled h level then some (handle h ctx level message attrs) else none

abbrev pub no_ids : Carried
no_ids = record { request_id = none; tenant_id = none }

-- What `New` leaves behind: the logger, which is slog's default, and the routes of the package log
-- and of grpclog to it.
pub record Logs : Type 0 where
  pub logger : Handler
  pub stdlib : Text → Option Line
  pub grpc : Handler

unfoldable pub new_logs : {F : Type 0} → Settings F → Logs
unfolding new_base_handler with_attrs log
new_logs cfg =
    let logger = context_handler (base_handler (new_base_handler cfg)) in
    record {
      logger = logger;
      stdlib = λ text. log logger no_ids level_info text [];
      grpc = with_attrs logger ((codes "component", codes "grpc.internal") ∷ []);
    }

-- A call of the bridge: its line, and whether the process exits.
unfoldable pub bridged : Logs → BridgeCall → Text → Option Line × Bool
unfolding bridge log
bridged logs call text = (log logs.grpc no_ids (bridge call).0 text [], (bridge call).1)
