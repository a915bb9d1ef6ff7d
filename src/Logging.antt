-- ===== src/Logging.antt =====
-- internal/logging: levels, correlation ids and the access log line of an RPC.
pub mod Rpc
pub mod Setup
pub mod Levels
use audio_service.Base.{
  ℕ, ◌+◌, ◌-◌, ◌/◌, ◌%◌, Bool, true, false, ◌||◌, Option, none, some, List, [], ◌∷◌, ◌++◌, ltb,
  if◌then◌else◌,
}
use audio_service.Base.Int.{ℤ, pos, leb_ℤ}
use audio_service.Base.Text.{Text, codes, text_eq, is_empty, trim_space, to_lower, has_prefix}
use audio_service.Server.Status.{
  Code, code_ok, code_internal, code_unknown, code_unavailable, code_data_loss,
}

-- slog.Level
pub data Level : Type 0 where
  level_debug level_info level_warn level_error : Level

unfoldable pub parse_level : Text → Level
parse_level s =
    let t = to_lower (trim_space s) in
    if text_eq t (codes "debug")
    then level_debug
    else (if text_eq t (codes "warn") || text_eq t (codes "warning")
        then level_warn
        else (if text_eq t (codes "error") then level_error else level_info))

unfoldable pub is_health_method : Text → Bool
unfolding has_prefix
is_health_method method = has_prefix (codes "/grpc.health.v1.Health/") method

-- Without the exception for health probes.
abbrev pub level_of : Code → Level
level_of code_ok = level_info
level_of code_internal = level_error
level_of code_unknown = level_error
level_of code_unavailable = level_error
level_of code_data_loss = level_error
level_of _ = level_warn

unfoldable pub level_for_code : Text → Code → Level
level_for_code method code = if is_health_method method then level_debug else level_of code

-- The two values that a context carries.
pub record Carried : Type 0 where
  pub request_id : Option Text
  pub tenant_id : Option Text

abbrev pub with_request_id : Carried → Text → Carried
with_request_id ctx id = record ctx { request_id = some id }

abbrev pub with_tenant_id : Carried → Text → Carried
with_tenant_id ctx id = record ctx { tenant_id = some id }

-- `id, ok && id != ""`
unfoldable pub present : Option Text → Option Text
present none = none
present (some id) = if is_empty id then none else some id

abbrev pub Attr : Type 0
Attr = Text × Text

abbrev pub attr_of : Text → Option Text → List Attr
attr_of key none = []
attr_of key (some v) = (key, v) ∷ []

-- `ContextHandler.Handle`, before it delegates.
unfoldable pub enriched_attrs : Carried → List Attr → List Attr
enriched_attrs ctx attrs =
    attrs
    ++ attr_of (codes "request_id") (present ctx.request_id)
    ++ attr_of (codes "tenant_id") (present ctx.tenant_id)

-- metadata.FromIncomingContext with md.Get; `none` where the context has no metadata.
abbrev pub Metadata : Type 0
Metadata = Option (Text → List Text)

abbrev first_value : List Text → Text
first_value [] = []
first_value (v ∷ vs) = trim_space v

unfoldable pub metadata_value : Metadata → Text → Text
metadata_value none key = []
metadata_value (some get) key = first_value (get key)

abbrev hex_digit : ℕ → ℕ
hex_digit n = if ltb n 10 then b'0' + n else b'a' + (n - 10)

-- hex.EncodeToString
abbrev pub hex : List ℕ → Text
hex [] = []
hex (b ∷ bs) = hex_digit (b / 16) ∷ hex_digit (b % 16) ∷ hex bs

-- `random` is what rand.Read has filled the sixteen bytes with, `none` for an error.
unfoldable pub new_request_id : Option (List ℕ) → Text
new_request_id none = codes "unknown"
new_request_id (some b) = hex b

abbrev pub request_id_header : Text
request_id_header = codes "x-request-id"

abbrev pub tenant_id_header : Text
tenant_id_header = codes "x-tenant-id"

-- The inbound id, or a fresh one.
unfoldable pub resolved_id : Metadata → Option (List ℕ) → Text
resolved_id md random =
    let id = metadata_value md request_id_header in
    if is_empty id then new_request_id random else id

unfoldable pub enrich : Metadata → Option (List ℕ) → Carried → Carried
enrich md random ctx =
    let ctx' = with_request_id ctx (resolved_id md random) in
    let tid = metadata_value md tenant_id_header in
    if is_empty tid then ctx' else with_tenant_id ctx' tid

-- The calls of `grpcBridge`, and what each logs; the fatal ones exit afterwards.
pub data BridgeCall : Type 0 where
  bridge_info bridge_warning bridge_error bridge_fatal : BridgeCall

unfoldable pub bridge : BridgeCall → Level × Bool
bridge bridge_info = (level_debug, false)
bridge bridge_warning = (level_warn, false)
bridge bridge_error = (level_error, false)
bridge bridge_fatal = (level_error, true)

-- `V`
unfoldable pub verbosity_enabled : ℤ → Bool
verbosity_enabled l = leb_ℤ l (pos 0)
