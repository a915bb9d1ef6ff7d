-- ===== src/AudioEngine/Classify.antt =====
-- `classifyProbeErr`, `firstLine` and `redactErr` of internal/audioengine.
pub mod Verdict
use audio_service.Base.{
  Bool, true, false, ◌||◌, Option, none, some, List, [], ◌∷◌, ◌++◌, if◌then◌else◌,
}
use audio_service.Base.Text.{Text, codes, is_empty, trim_space, before_newline, contains, to_lower}
use audio_service.Fault.{Error, opaque_error, error_text, because, invalid_audio}
use audio_service.AudioEngine.Redact.{redact_url_credentials}

-- The loop over a list of markers: does one occur in the text?
unfoldable pub any_marker : List Text → Text → Bool
unfolding contains
any_marker [] s = false
any_marker (m ∷ ms) s = contains s m || any_marker ms s

abbrev pub transient_markers : List Text
transient_markers =
    codes "connection refused"
    ∷ codes "could not resolve"
    ∷ codes "failed to resolve"
    ∷ codes "connection reset"
    ∷ codes "connection timed out"
    ∷ codes "timed out"
    ∷ codes "no route to host"
    ∷ codes "network is unreachable"
    ∷ codes "server returned 4"
    ∷ codes "server returned 5"
    ∷ codes "http error"
    ∷ codes "tls"
    ∷ codes "i/o error"
    ∷ codes "protocol not found"
    ∷ []

abbrev pub invalid_markers : List Text
invalid_markers =
    codes "invalid data found"
    ∷ codes "moov atom not found"
    ∷ codes "could not find codec parameters"
    ∷ codes "unknown format"
    ∷ codes "header missing"
    ∷ codes "failed to read frame size"
    ∷ codes "could not seek to"
    ∷ codes "failed to find two consecutive mpeg audio frames"
    ∷ []

abbrev run_error_line : Option Error → Text
run_error_line none = codes "unknown error"
run_error_line (some e) = redact_url_credentials (error_text e)

unfoldable pub first_line : Text → Option Error → Text
first_line stderr run_err =
    let s = trim_space stderr in
    if is_empty s then run_error_line run_err else redact_url_credentials (before_newline s)

unfoldable pub classify_probe_err : Text → Error → Error
classify_probe_err stderr run_err =
    let s = to_lower stderr in
    if any_marker transient_markers s
    then opaque_error (codes "audioengine: ffprobe transient: " ++ first_line stderr (some run_err))
    else (if any_marker invalid_markers s
        then because invalid_audio (first_line stderr (some run_err))
        else opaque_error
            (codes "audioengine: ffprobe failed: " ++ first_line stderr (some run_err)))

-- `redactErr` of an error that is not nil
unfoldable pub redact_err : Error → Error
redact_err err = opaque_error (redact_url_credentials (error_text err))
