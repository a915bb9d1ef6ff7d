-- ===== src/Server/Status.antt =====
-- `mapEngineErr`, `mapTranscribeErr` and `geminiHTTPStatus` of internal/server/server.go.
pub mod Laws
pub mod Deadlines
use audio_service.Base.{ℕ, Bool, ◌&&◌, ◌||◌, Option, none, some, ◌==◌, if◌then◌else◌}
use audio_service.Base.Int.{ℤ, pos, negsuc, leb_ℤ}
use audio_service.Base.Text.{Text}
use audio_service.Fault.{
  Error, errors_is, api_status, error_text, invalid_audio, silent, normalize, unavailable,
  degenerate_output, deadline_exceeded, canceled,
}

-- The codes of package google.golang.org/grpc/codes.
pub data Code : Type 0 where
  code_ok code_canceled code_unknown code_invalid_argument code_deadline_exceeded : Code
  code_not_found code_already_exists code_permission_denied code_resource_exhausted : Code
  code_failed_precondition code_aborted code_out_of_range code_unimplemented : Code
  code_internal code_unavailable code_data_loss code_unauthenticated : Code

pub record Status : Type 0 where
  pub code : Code
  pub message : Text

abbrev status : Code → Error → Status
status c e = record { code = c; message = error_text e }

unfoldable pub engine_code : Error → Code
engine_code e =
    if errors_is e invalid_audio || errors_is e silent
    then code_invalid_argument
    else (if errors_is e normalize
        then code_internal
        else (if errors_is e deadline_exceeded
            then code_deadline_exceeded
            else (if errors_is e canceled then code_canceled else code_internal)))

unfoldable pub map_engine_err : Error → Status
map_engine_err e = status (engine_code e) e

-- Equality of an HTTP status with a constant.
abbrev pub is_status : ℤ → ℕ → Bool
is_status (pos n) k = n == k
is_status (negsuc n) k = Bool.false

unfoldable pub gemini_http_status : Error → ℤ
gemini_http_status e = elim (api_status e) [ none ↦ pos 0 | some c ↦ c ]

unfoldable pub http_code : ℤ → Code
http_code c =
    if is_status c 429
    then code_resource_exhausted
    else (if is_status c 408 || is_status c 504
        then code_deadline_exceeded
        else (if leb_ℤ (pos 500) c && leb_ℤ c (pos 599)
            then code_unavailable
            else (if is_status c 400 || is_status c 422 then code_internal else code_internal)))

unfoldable pub transcribe_code : Error → Code
transcribe_code e =
    if errors_is e unavailable || errors_is e degenerate_output
    then code_unavailable
    else (if errors_is e deadline_exceeded
        then code_deadline_exceeded
        else (if errors_is e canceled then code_canceled else http_code (gemini_http_status e)))

unfoldable pub map_transcribe_err : Error → Status
map_transcribe_err e = status (transcribe_code e) e
