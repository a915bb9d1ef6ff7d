-- ===== src/AudioEngine/Redact/Runs.antt =====
-- The runs of the expression `presignedQueryRe`, and the rounds of its replacement.
use audio_service.Base.{
  ℕ, zero, suc, ◌≤◌, ◌<◌, ◌≡◌, ◌≢◌, refl, sym, ap, ◌∙◌, inl, inr, Bool, true, false, none, some,
  Option-cases, [], ◌∷◌, ◌++◌, length, drop, All, arith,
}
use audio_service.Base.Text.{Text, has_prefix}
use audio_service.AudioEngine.Redact.{
  redact_url_credentials, redact_from, match_url, match_query, UrlMatch, scheme, span_of, rest_of,
  is_url_char, is_solid, question, placeholder,
}

-- The text does not go on with a character of a class.
abbrev pub Stops : (ℕ → Bool) → Text → Type 0
Stops p [] = Unit
Stops p (c ∷ s) = p c ≡ false

module _ (p : ℕ → Bool) where
  pub span_of-append : (x r : Text) → All (λ c. p c ≡ true) x → Stops p r → span_of p (x ++ r) ≡ x
  unfolding span_of
  span_of-append [] [] h k = refl
  span_of-append [] (c ∷ r) h k = rw k refl
  span_of-append (c ∷ x) r h k = rw (h.0, span_of-append x r h.1 k) refl

  pub rest_of-append : (x r : Text) → All (λ c. p c ≡ true) x → Stops p r → rest_of p (x ++ r) ≡ r
  unfolding rest_of
  rest_of-append [] [] h k = refl
  rest_of-append [] (c ∷ r) h k = rw k refl
  rest_of-append (c ∷ x) r h k = rw (h.0) (rest_of-append x r h.1 k)

  length-rest_of : (s : Text) → length (rest_of p s) ≤ length s
  unfolding rest_of
  length-rest_of [] = omega arith
  length-rest_of (c ∷ s) = ground (arith, length-rest_of s)

length-drop : (n : ℕ) (s : Text) → length (drop n s) ≤ length s
length-drop zero s = omega arith
length-drop (suc n) [] = omega arith
length-drop (suc n) (c ∷ s) = omega (arith, length-drop n s)

match_query-shorter :
    (sch run after : Text) (m : UrlMatch)
    → match_query sch run after ≡ some m
    → length m.rest < length after
match_query-shorter sch [] after m h = cc
match_query-shorter sch (c ∷ run) [] m h = cc
match_query-shorter sch (c ∷ run) (d ∷ q) m h = ground (arith, length-rest_of is_solid q)

pub match_url-shorter : (s : Text) (m : UrlMatch) → match_url s ≡ some m → length m.rest < length s
unfolding match_url
match_url-shorter s m h = elim (Option-cases (scheme s)) [
  | inl e ↦ cc (rw e at h)
  | inr (sch, e) ↦
      let tail = drop (length sch) s in
      omega (
        arith,
        match_query-shorter sch (span_of is_url_char tail) (rest_of is_url_char tail) m (rw e at h),
        length-rest_of is_url_char tail,
        length-drop (length sch) s,
      )
]

redact_from-miss :
    (n c : ℕ) (s : Text)
    → match_url (c ∷ s) ≡ none
    → redact_from (suc n) (c ∷ s) ≡ c ∷ redact_from n s
unfolding redact_from
redact_from-miss n c s e = ground arith

redact_from-hit :
    (n c : ℕ) (s : Text) (m : UrlMatch)
    → match_url (c ∷ s) ≡ some m
    → redact_from (suc n) (c ∷ s) ≡ m.url ++ (question ∷ placeholder) ++ redact_from n m.rest
unfolding redact_from
redact_from-hit n c s m e = ground arith

-- The fuel does not matter once it is enough.
redact_from-fuel :
    (m n : ℕ) (s : Text) → length s ≤ m → length s ≤ n → redact_from m s ≡ redact_from n s
redact_from-fuel zero zero [] h k = refl
redact_from-fuel zero (suc n) [] h k = unfold redact_from in refl
redact_from-fuel (suc m) zero [] h k = unfold redact_from in refl
redact_from-fuel (suc m) (suc n) [] h k = unfold redact_from in refl
redact_from-fuel zero n (c ∷ s) h k = absurd (omega arith)
redact_from-fuel (suc m) zero (c ∷ s) h k = absurd (omega arith)
redact_from-fuel (suc m) (suc n) (c ∷ s) h k = elim (Option-cases (match_url (c ∷ s))) [
  | inl e ↦
      redact_from-miss m c s e
      ∙ (ap (λ t. c ∷ t) (redact_from-fuel m n s (omega arith) (omega arith))
          ∙ sym (redact_from-miss n c s e))
  | inr (x, e) ↦
      let shorter = match_url-shorter (c ∷ s) x e in
      redact_from-hit m c s x e
      ∙ (ap (λ t. x.url ++ (question ∷ placeholder) ++ t)
            (redact_from-fuel m n x.rest (omega (arith, shorter)) (omega (arith, shorter)))
          ∙ sym (redact_from-hit n c s x e))
]

match_url-nil : match_url [] ≡ none
unfolding match_url scheme has_prefix
match_url-nil = refl

-- A character that begins no scheme is left alone.
match_url-other : (c : ℕ) (s : Text) → c ≢ b'h' → match_url (c ∷ s) ≡ none
unfolding match_url scheme has_prefix
match_url-other c s h = ground arith

pub redact-before :
    (before t : Text)
    → All (λ c. c ≢ b'h') before
    → redact_url_credentials (before ++ t) ≡ before ++ redact_url_credentials t
unfolding redact_url_credentials
redact-before [] t h = refl
redact-before (c ∷ before) t h =
    redact_from-miss (length (before ++ t)) c (before ++ t) (match_url-other c (before ++ t) h.0)
    ∙ ap (λ s. c ∷ s) (redact-before before t h.1)

pub redact-match :
    (s : Text) (m : UrlMatch)
    → match_url s ≡ some m
    → redact_url_credentials s ≡ m.url ++ (question ∷ placeholder) ++ redact_url_credentials m.rest
unfolding redact_url_credentials
redact-match [] m h = cc (match_url-nil, h)
redact-match (c ∷ s) m h =
    redact_from-hit (length s) c s m h
    ∙ ap (λ t. m.url ++ (question ∷ placeholder) ++ t)
        (redact_from-fuel (length s) (length m.rest) m.rest
          (omega (arith, match_url-shorter (c ∷ s) m h)) (omega arith))
