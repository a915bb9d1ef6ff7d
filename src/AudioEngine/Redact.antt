-- ===== src/AudioEngine/Redact.antt =====
-- `redactURLCredentials` and `presignedQueryRe` of internal/audioengine/engine.go.
pub mod Runs
pub mod Secrets
use audio_service.Base.{
  ℕ, zero, suc, Bool, true, false, not, ◌&&◌, ◌||◌, Option, none, some, List, [], ◌∷◌, ◌++◌, length,
  drop, leb, ◌==◌, if◌then◌else◌,
}
use audio_service.Base.Text.{Text, codes, has_prefix}

-- The class \s of package regexp.
unfoldable pub is_re_space : ℕ → Bool
is_re_space c = c == 9 || (c == 10 || (c == 12 || (c == 13 || c == 32)))

abbrev pub question : ℕ
question = b'?'

-- The class [^\s?].
unfoldable pub is_url_char : ℕ → Bool
unfolding is_re_space
is_url_char c = not (is_re_space c || c == question)

-- The class \S.
unfoldable pub is_solid : ℕ → Bool
unfolding is_re_space
is_solid c = not (is_re_space c)

-- The longest prefix of characters of a class, and the text behind it.
module _ (p : ℕ → Bool) where
  unfoldable pub span_of : Text → Text
  span_of [] = []
  span_of (c ∷ s) = if p c then c ∷ span_of s else []

  unfoldable pub rest_of : Text → Text
  rest_of [] = []
  rest_of (c ∷ s) = if p c then rest_of s else c ∷ s

abbrev pub http : Text
http = codes "http://"

abbrev pub https : Text
https = codes "https://"

-- The scheme that a text begins with: `https?://`.
unfoldable pub scheme : Text → Option Text
unfolding has_prefix
scheme s = if has_prefix https s then some https else if has_prefix http s then some http else none

pub record UrlMatch : Type 0 where
  pub url : Text
  pub query : Text
  pub rest : Text

-- `[^\s?]+` behind a scheme, then `\?`, then `\S+`. Neither run can be shorter in a match: the
-- character behind the first is the question mark, which the run cannot hold.
abbrev pub match_query : Text → Text → Text → Option UrlMatch
match_query sch [] after = none
match_query sch (c ∷ run) [] = none
match_query sch (c ∷ run) (d ∷ q) =
    if d == question
    then elim (span_of is_solid q) [
      | [] ↦ none
      | x ∷ query ↦
          some (record { url = sch ++ c ∷ run; query = x ∷ query; rest = rest_of is_solid q })
    ]
    else none

-- A match of the expression at the beginning of a text.
unfoldable pub match_url : Text → Option UrlMatch
unfolding scheme span_of rest_of is_url_char is_solid
match_url s = elim (scheme s) [
  | none ↦ none
  | some sch ↦
      let tail = drop (length sch) s in
      match_query sch (span_of is_url_char tail) (rest_of is_url_char tail)
]

abbrev pub placeholder : Text
placeholder = codes "<redacted>"

-- ReplaceAllString(s, "${1}?<redacted>"): matches from left to right, none inside another. Each
-- round consumes a character, so as much fuel as there are characters is enough.
unfoldable pub redact_from : ℕ → Text → Text
unfolding match_url
redact_from zero s = s
redact_from (suc fuel) [] = []
redact_from (suc fuel) (c ∷ s) = elim (match_url (c ∷ s)) [
  | none ↦ c ∷ redact_from fuel s
  | some m ↦ m.url ++ (question ∷ placeholder) ++ redact_from fuel m.rest
]

unfoldable pub redact_url_credentials : Text → Text
unfolding redact_from
redact_url_credentials s = redact_from (length s) s
