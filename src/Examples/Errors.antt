-- ===== src/Examples/Errors.antt =====
-- Examples for the classification and the mapping of errors.
use audio_service.Base.{All, ◌++◌, ◌∷◌, inr, arith, ◌≡◌, ◌≢◌, ◌⊎◌, ◌↔◌, refl, some, true, false, []}
use audio_service.Base.Int.{ℤ, pos, ◌≤ℤ◌}
use audio_service.Base.Text.{Text, codes, to_lower}
use audio_service.Fault.{
  Error, opaque_error, api_error, because, errors_is, invalid_audio, silent, unavailable,
  degenerate_output, deadline_exceeded, canceled, err,
}
use audio_service.Effects.{Exit, expired}
use audio_service.AudioEngine.Redact.{
  redact_url_credentials, https, question, placeholder, is_url_char, is_solid, is_re_space,
}
use audio_service.AudioEngine.Redact.Secrets.{IsUrl, url_text, redact_url_credentials-hides}
use audio_service.AudioEngine.Classify.{transient_markers, invalid_markers, classify_probe_err}
use audio_service.AudioEngine.Classify.Verdict.{AnyOccurs, classify_probe_err-invalid_iff}
use audio_service.AudioEngine.Probe.Steps.{meta_of_exit}
use audio_service.AudioEngine.Segment.{segment_of_exit}
use audio_service.AudioEngine.Normalize.{encoded}
use audio_service.Server.Status.{
  code_invalid_argument, code_unavailable, code_internal, map_engine_err, map_transcribe_err,
}
use audio_service.Server.Status.Laws.{
  Answered, map_engine_err-terminal_iff, map_transcribe_err-unavailable_iff,
}
use audio_service.Server.Status.Deadlines.{context_code, map_engine_err-context}

abbrev exit_status : Error
exit_status = opaque_error (codes "exit status 1")

abbrev overloaded : Error
overloaded = api_error (pos 503) (codes "overloaded")

abbrev no_sound : Error
no_sound = because invalid_audio (codes "no audio stream")

map_engine_err-terminal_iff_example :
    ((map_engine_err no_sound).code ≡ code_invalid_argument)
    ↔ ((errors_is no_sound invalid_audio ≡ true) ⊎ (errors_is no_sound silent ≡ true))
map_engine_err-terminal_iff_example = map_engine_err-terminal_iff no_sound

map_transcribe_err-unavailable_iff_example :
    ((map_transcribe_err overloaded).code ≡ code_unavailable) ↔ (
      ((errors_is overloaded unavailable ≡ true) ⊎ (errors_is overloaded degenerate_output ≡ true))
      ⊎ ((errors_is overloaded deadline_exceeded ≡ false)
          × (errors_is overloaded canceled ≡ false)
          × (c : ℤ) × Answered c overloaded
          × (pos 500 ≤ℤ c)
          × (c ≤ℤ pos 599)
          × (c ≢ pos 504)))
map_transcribe_err-unavailable_iff_example = map_transcribe_err-unavailable_iff overloaded

abbrev not_found : Text
not_found = codes "[https @ 0x1] HTTP error 403 Forbidden\nInvalid data found when processing input"

classify_probe_err-invalid_iff_example :
    (errors_is (classify_probe_err not_found exit_status) invalid_audio ≡ true) ↔ (
      (¬ AnyOccurs (to_lower not_found) transient_markers)
      × AnyOccurs (to_lower not_found) invalid_markers)
classify_probe_err-invalid_iff_example = classify_probe_err-invalid_iff not_found exit_status

abbrev killed : Exit
killed = record { failure = some exit_status; ctx_err = some expired; stdout = []; stderr = [] }

map_engine_err-context_example :
    ((e : Error) × (meta_of_exit killed (some exit_status) ≡ err e)
      × ((map_engine_err e).code ≡ context_code expired))
    × ((e : Error) × (segment_of_exit killed (some exit_status) ≡ err e)
        × ((map_engine_err e).code ≡ context_code expired))
    × ((e : Error) × (encoded killed (some exit_status) ≡ err e)
        × ((map_engine_err e).code ≡ code_internal))
map_engine_err-context_example = map_engine_err-context killed exit_status expired refl

redact_test :
    redact_url_credentials (codes "https://h/o?X-Sig=1: 403 (http://a http://b?c?d)")
    ≡ codes "https://h/o?<redacted> 403 (http://a http://b?<redacted>"
unfolding redact_url_credentials
redact_test = refl

abbrev path : Text
path = codes "s/a"

abbrev signature : Text
signature = codes "Sig=1"

presigned : IsUrl https path signature (codes " 403")
unfolding is_url_char is_solid is_re_space
presigned = record {
  begins = inr refl;
  path = (refl, (refl, (refl, tt)));
  some_path = omega arith;
  secret = (refl, (refl, (refl, (refl, (refl, tt)))));
  some_query = omega arith;
  ends = refl;
}

no_h : All (λ c. c ≢ b'h') (codes "> ")
no_h = (ground arith, (ground arith, tt))

redact_url_credentials-hides_example :
    redact_url_credentials (codes "> " ++ url_text https path signature (codes " 403"))
    ≡ codes "> "
      ++ ((https ++ path) ++ (question ∷ placeholder) ++ redact_url_credentials (codes " 403"))
redact_url_credentials-hides_example =
    redact_url_credentials-hides (codes "> ") https path signature (codes " 403") no_h presigned
