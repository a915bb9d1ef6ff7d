-- ===== src/Server/Status/Laws.antt =====
-- Which failures a caller may retry.
use audio_service.Base.{◌≡◌, refl, ◌≢◌, ◌⊎◌, inl, inr, ◌↔◌, true, false, Option, none, some, arith}
use audio_service.Base.Text.{Text}
use mathlib.Core.Option.{some-injective}
use audio_service.Base.Int.{ℤ, pos, ◌≤ℤ◌}
use audio_service.Fault.{
  Error, sentinel, opaque_error, api_error, wrapped, api_status, errors_is, invalid_audio, silent,
  unavailable, degenerate_output, deadline_exceeded, canceled,
}
use audio_service.Server.Status.{
  code_ok, code_invalid_argument, code_unavailable, map_engine_err, engine_code, map_transcribe_err,
  transcribe_code, http_code, gemini_http_status,
}

-- An engine error is InvalidArgument, which a client does not retry, exactly when its chain holds
-- the sentinel for invalid or for silent audio.
pub map_engine_err-terminal_iff :
    (e : Error)
    → ((map_engine_err e).code ≡ code_invalid_argument)
      ↔ ((errors_is e invalid_audio ≡ true) ⊎ (errors_is e silent ≡ true))
unfolding map_engine_err engine_code
map_engine_err-terminal_iff e = ground arith

-- An error that is an answer of the API with an HTTP status, in any number of wrappings.
pub data Answered (status : ℤ) : Error → Type 0 where
  answered : (m : Text) → Answered status (api_error status m)
  inside :
      {e : Error} → (pre post : Text) → Answered status e → Answered status (wrapped pre e post)

api_status-Answered : (e : Error) (c : ℤ) → api_status e ≡ some c → Answered c e
unfolding api_status
api_status-Answered (sentinel s) c h = cc
api_status-Answered (opaque_error m) c h = cc
api_status-Answered (api_error d m) c h = rw (some-injective d c h) (answered m)
api_status-Answered (wrapped pre e post) c h = inside pre post (api_status-Answered e c h)

Answered-gemini_http_status : {c : ℤ} {e : Error} → Answered c e → gemini_http_status e ≡ c
unfolding gemini_http_status api_status
Answered-gemini_http_status (answered m) = refl
Answered-gemini_http_status (inside pre post a) = Answered-gemini_http_status a

status_or_zero : Option ℤ → ℤ
status_or_zero none = pos 0
status_or_zero (some c) = c

found_status :
    (e : Error) (o : Option ℤ)
    → api_status e ≡ o
    → pos 500 ≤ℤ status_or_zero o
    → Answered (status_or_zero o) e
unfolding status_or_zero
found_status e none h l = absurd (omega (arith, l))
found_status e (some c) h l = api_status-Answered e c h

-- A status of 500 or more is one that the API answered with.
gemini_http_status-Answered :
    (e : Error) → pos 500 ≤ℤ gemini_http_status e → Answered (gemini_http_status e) e
unfolding gemini_http_status status_or_zero
gemini_http_status-Answered e h = found_status e (api_status e) refl h

map_transcribe_err-unavailable :
    (e : Error)
    → ((map_transcribe_err e).code ≡ code_unavailable) ↔ (
        ((errors_is e unavailable ≡ true) ⊎ (errors_is e degenerate_output ≡ true))
        ⊎ ((errors_is e deadline_exceeded ≡ false)
            × (errors_is e canceled ≡ false)
            × (pos 500 ≤ℤ gemini_http_status e)
            × (gemini_http_status e ≤ℤ pos 599)
            × (gemini_http_status e ≢ pos 504)))
unfolding map_transcribe_err transcribe_code http_code
map_transcribe_err-unavailable e = ground arith

-- A transcription error is Unavailable exactly when it is the missing key or a degenerate reply, or,
-- the context being neither expired nor cancelled, an answer of the API, in any number of wrappings,
-- with a status from 500 to 599 other than 504.
pub map_transcribe_err-unavailable_iff :
    (e : Error)
    → ((map_transcribe_err e).code ≡ code_unavailable) ↔ (
        ((errors_is e unavailable ≡ true) ⊎ (errors_is e degenerate_output ≡ true))
        ⊎ ((errors_is e deadline_exceeded ≡ false)
            × (errors_is e canceled ≡ false)
            × (c : ℤ) × Answered c e
            × (pos 500 ≤ℤ c)
            × (c ≤ℤ pos 599)
            × (c ≢ pos 504)))
map_transcribe_err-unavailable_iff e =
    let (there, back) = map_transcribe_err-unavailable e in
    (
      λ h. elim (there h) [
        | inl own ↦ inl own
        | inr (live, kept, least, most, other) ↦ inr (
          live,
          kept,
          gemini_http_status e,
          gemini_http_status-Answered e least,
          least,
          most,
          other,
        )
      ],
      λ h. elim h [
        | inl own ↦ back (inl own)
        | inr (live, kept, c, a, least, most, other) ↦
            let same = Answered-gemini_http_status a in
            back (inr (live, kept, rw same least, rw same most, rw same other))
      ],
    )

-- No transcription error is reported as success or as the caller's fault.
pub map_transcribe_err-not_terminal :
    (e : Error)
    → ((map_transcribe_err e).code ≢ code_ok)
      × ((map_transcribe_err e).code ≢ code_invalid_argument)
unfolding map_transcribe_err transcribe_code http_code
map_transcribe_err-not_terminal e = ground arith
