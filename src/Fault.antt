-- ===== src/Fault.antt =====
-- Go errors: the sentinels of the packages, the wrapping by the verb %w, and errors.Is and
-- errors.As over the chain.
use audio_service.Base.{◌≡◌, ap, Bool, false, ◌++◌, Option, none, some}
use audio_service.Base.Int.{ℤ}
use audio_service.Base.Text.{Text, codes}

-- ErrInvalidAudio, ErrSilent, ErrNormalize of audioengine; ErrUnavailable, ErrDegenerateOutput of
-- transcribe; DeadlineExceeded, Canceled of context.
pub data Sentinel : Type 0 where
  invalid_audio silent normalize : Sentinel
  unavailable degenerate_output : Sentinel
  deadline_exceeded canceled : Sentinel

pub data Error : Type 0 where
  sentinel : Sentinel → Error
  -- an error that wraps nothing
  opaque_error : Text → Error
  -- a genai.APIError with its HTTP status and message
  api_error : ℤ → Text → Error
  -- fmt.Errorf with one %w, between two texts
  wrapped : Text → Error → Text → Error

abbrev pub same_sentinel : Sentinel → Sentinel → Bool
same_sentinel invalid_audio invalid_audio = Bool.true
same_sentinel silent silent = Bool.true
same_sentinel normalize normalize = Bool.true
same_sentinel unavailable unavailable = Bool.true
same_sentinel degenerate_output degenerate_output = Bool.true
same_sentinel deadline_exceeded deadline_exceeded = Bool.true
same_sentinel canceled canceled = Bool.true
same_sentinel _ _ = false

-- errors.Is
unfoldable pub errors_is : Error → Sentinel → Bool
errors_is (sentinel s) t = same_sentinel s t
errors_is (opaque_error m) t = false
errors_is (api_error c m) t = false
errors_is (wrapped pre e post) t = errors_is e t

-- errors.As at genai.APIError: its HTTP status
unfoldable pub api_status : Error → Option ℤ
api_status (sentinel s) = none
api_status (opaque_error m) = none
api_status (api_error c m) = some c
api_status (wrapped pre e post) = api_status e

abbrev pub sentinel_text : Sentinel → Text
sentinel_text invalid_audio = codes "audioengine: invalid or unreadable audio"
sentinel_text silent = codes "audioengine: silent or zero-length audio"
sentinel_text normalize = codes "audioengine: normalization failed"
sentinel_text unavailable = codes "transcribe: gemini api key not configured"
sentinel_text degenerate_output =
    codes "transcribe: model output hit the token cap (degenerate reply)"
sentinel_text deadline_exceeded = codes "context deadline exceeded"
sentinel_text canceled = codes "context canceled"

-- err.Error()
unfoldable pub error_text : Error → Text
error_text (sentinel s) = sentinel_text s
error_text (opaque_error m) = m
error_text (api_error c m) = m
error_text (wrapped pre e post) = pre ++ error_text e ++ post

-- `fmt.Errorf("%w: text", s)`
abbrev pub because : Sentinel → Text → Error
because s text = wrapped (codes "") (sentinel s) (codes ": " ++ text)

-- A value or an error.
pub data Result {ℓ} (A : Type ℓ) : Type ℓ where
  ok : A → Result A
  err : Error → Result A

abbrev value_or : {A : Type 0} → A → Result A → A
value_or a (ok b) = b
value_or a (err e) = a

pub ok-injective : {A : Type 0} {a b : A} → ok a ≡ ok b → a ≡ b
ok-injective {A} {a} h = ap (value_or a) h
