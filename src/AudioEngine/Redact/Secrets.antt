-- ===== src/AudioEngine/Redact/Secrets.antt =====
-- What the redaction removes.
use audio_service.Base.{
  ◌<◌, ◌≡◌, ◌≢◌, refl, ap, ◌∙◌, ◌⊎◌, inl, inr, true, some, [], ◌∷◌, ◌++◌, length, drop, All, arith,
}
use audio_service.Base.Text.{Text, has_prefix}
use audio_service.AudioEngine.Redact.{
  redact_url_credentials, match_url, match_query, scheme, http, https, span_of, rest_of,
  is_url_char, is_solid, question, placeholder,
}
use audio_service.AudioEngine.Redact.Runs.{
  Stops, span_of-append, rest_of-append, redact-before, redact-match,
}

-- The parts of a URL with a query, and what follows it.
pub record IsUrl (sch run query rest : Text) : Type 0 where
  pub begins : (sch ≡ http) ⊎ (sch ≡ https)
  pub path : All (λ c. is_url_char c ≡ true) run
  pub some_path : 0 < length run
  pub secret : All (λ c. is_solid c ≡ true) query
  pub some_query : 0 < length query
  pub ends : Stops is_solid rest

abbrev pub url_text : Text → Text → Text → Text → Text
url_text sch run query rest = sch ++ (run ++ (question ∷ (query ++ rest)))

match_query_lem :
    (sch run query rest : Text)
    → 0 < length run
    → 0 < length query
    → All (λ c. is_solid c ≡ true) query
    → Stops is_solid rest
    → match_query sch run (question ∷ (query ++ rest))
      ≡ some (record { url = sch ++ run; query = query; rest = rest })
match_query_lem sch (c ∷ run) (x ∷ query) rest h k solid ends =
    rw (span_of-append is_solid (x ∷ query) rest solid ends)
      (rw (rest_of-append is_solid (x ∷ query) rest solid ends) refl)
match_query_lem sch [] query rest h k solid ends = absurd (omega arith)
match_query_lem sch (c ∷ run) [] rest h k solid ends = absurd (omega arith)

scheme_lem :
    (sch t : Text)
    → (sch ≡ http) ⊎ (sch ≡ https)
    → (scheme (sch ++ t) ≡ some sch) × (drop (length sch) (sch ++ t) ≡ t)
unfolding scheme has_prefix
scheme_lem sch t (inl e) = rw e (refl, refl)
scheme_lem sch t (inr e) = rw e (refl, refl)

match_url-scheme :
    (s sch tail : Text)
    → scheme s ≡ some sch
    → drop (length sch) s ≡ tail
    → match_url s ≡ match_query sch (span_of is_url_char tail) (rest_of is_url_char tail)
unfolding match_url
match_url-scheme s sch tail e d = ground (arith, d)

match_url_lem :
    (sch run query rest : Text)
    → IsUrl sch run query rest
    → match_url (url_text sch run query rest)
      ≡ some (record { url = sch ++ run; query = query; rest = rest })
match_url_lem sch run query rest u =
    let behind = question ∷ (query ++ rest) in
    let start = scheme_lem sch (run ++ behind) u.begins in
    let stop : Stops is_url_char behind = unfold is_url_char in refl in
    match_url-scheme (url_text sch run query rest) sch (run ++ behind) start.0 start.1
    ∙ rw (span_of-append is_url_char run behind u.path stop) (
        rw (rest_of-append is_url_char run behind u.path stop)
          (match_query_lem sch run query rest u.some_path u.some_query u.secret u.ends))

-- A URL of http or https with a query, behind a text without the letter h, loses its query: of it
-- and its question mark the placeholder is left, the text before it and the URL up to the question
-- mark are kept, and what follows the query is redacted in turn.
pub redact_url_credentials-hides :
    (before sch run query rest : Text)
    → All (λ c. c ≢ b'h') before
    → IsUrl sch run query rest
    → redact_url_credentials (before ++ url_text sch run query rest)
      ≡ before ++ ((sch ++ run) ++ (question ∷ placeholder) ++ redact_url_credentials rest)
redact_url_credentials-hides before sch run query rest h u =
    redact-before before (url_text sch run query rest) h
    ∙ ap (λ t. before ++ t)
        (redact-match (url_text sch run query rest)
          (record { url = sch ++ run; query = query; rest = rest })
          (match_url_lem sch run query rest u))
