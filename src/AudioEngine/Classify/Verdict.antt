-- ===== src/AudioEngine/Classify/Verdict.antt =====
-- When a failure of ffprobe or ffmpeg is a verdict on the content.
use audio_service.Base.{
  ◌≡◌, refl, ap, ◌∙◌, ◌↔◌, true, false, Bool-cases, inl, inr, List, [], ◌∷◌, ◌++◌, arith,
}
use audio_service.Base.Text.{Text, codes, to_lower, has_prefix, contains}
use audio_service.Fault.{Error, Sentinel, opaque_error, errors_is, invalid_audio}
use audio_service.AudioEngine.Classify.{
  any_marker, transient_markers, invalid_markers, classify_probe_err,
}

-- The text stands in the other one, between two others.
pub record Occurs (marker text : Text) : Type 0 where
  pub before : Text
  pub behind : Text
  pub at : text ≡ before ++ (marker ++ behind)

has_prefix-split : (p s : Text) → has_prefix p s ≡ true → (r : Text) × (s ≡ p ++ r)
unfolding has_prefix
has_prefix-split [] s h = (s, refl)
has_prefix-split (c ∷ p) [] h = cc
has_prefix-split (c ∷ p) (d ∷ s) h =
    let (r, e) = has_prefix-split p s (ground (arith, h)) in
    let same : d ≡ c = ground (arith, h) in (r, rw same (ap (λ t. c ∷ t) e))

has_prefix-append : (p r : Text) → has_prefix p (p ++ r) ≡ true
unfolding has_prefix
has_prefix-append [] r = refl
has_prefix-append (c ∷ p) r = ground (arith, has_prefix-append p r)

contains-Occurs : (s m : Text) → contains s m ≡ true → Occurs m s
unfolding contains
contains-Occurs [] m h =
    let (r, e) = has_prefix-split m [] h in record { before = []; behind = r; at = e }
contains-Occurs (c ∷ s) m h = elim (Bool-cases (has_prefix m (c ∷ s))) [
  | inl e ↦
      let (r, at) = has_prefix-split m (c ∷ s) e in record { before = []; behind = r; at = at }
  | inr e ↦
      let o = contains-Occurs s m (rw e at h) in
      record { before = c ∷ o.before; behind = o.behind; at = ap (λ t. c ∷ t) o.at }
]

contains_of_prefix : (s m : Text) → has_prefix m s ≡ true → contains s m ≡ true
unfolding contains
contains_of_prefix [] m h = h
contains_of_prefix (c ∷ s) m h = rw h refl

contains-append : (before behind m : Text) → contains (before ++ (m ++ behind)) m ≡ true
unfolding contains
contains-append [] behind m = contains_of_prefix (m ++ behind) m (has_prefix-append m behind)
contains-append (c ∷ before) behind m = ground (arith, contains-append before behind m)

-- One of the markers stands in the text.
pub data AnyOccurs (text : Text) : List Text → Type 0 where
  first : {m : Text} {ms : List Text} → Occurs m text → AnyOccurs text (m ∷ ms)
  further : {m : Text} {ms : List Text} → AnyOccurs text ms → AnyOccurs text (m ∷ ms)

any_marker-AnyOccurs : (ms : List Text) (s : Text) → any_marker ms s ≡ true → AnyOccurs s ms
unfolding any_marker
any_marker-AnyOccurs [] s h = cc
any_marker-AnyOccurs (m ∷ ms) s h = elim (Bool-cases (contains s m)) [
  | inl e ↦ first (contains-Occurs s m e)
  | inr e ↦ further (any_marker-AnyOccurs ms s (rw e at h))
]

AnyOccurs-any_marker : (s : Text) {ms : List Text} → AnyOccurs s ms → any_marker ms s ≡ true
unfolding any_marker
AnyOccurs-any_marker s (first {m} o) =
    ground (arith, ap (λ t. contains t m) o.at ∙ contains-append o.before o.behind m)
AnyOccurs-any_marker s (further o) = ground (arith, AnyOccurs-any_marker s o)

classify_probe_err-invalid :
    (stderr : Text) (run_err : Error)
    → (errors_is (classify_probe_err stderr run_err) invalid_audio ≡ true) ↔ (
        (any_marker transient_markers (to_lower stderr) ≡ false)
        × (any_marker invalid_markers (to_lower stderr) ≡ true))
unfolding classify_probe_err errors_is
classify_probe_err-invalid stderr run_err = ground arith

-- A failure is classed as invalid audio exactly when one of the content markers stands somewhere in
-- stderr, in lower case, and none of the transient ones does.
pub classify_probe_err-invalid_iff :
    (stderr : Text) (run_err : Error)
    → (errors_is (classify_probe_err stderr run_err) invalid_audio ≡ true) ↔ (
        (¬ AnyOccurs (to_lower stderr) transient_markers)
        × AnyOccurs (to_lower stderr) invalid_markers)
classify_probe_err-invalid_iff stderr run_err =
    let (there, back) = classify_probe_err-invalid stderr run_err in
    let s = to_lower stderr in
    (
      λ h. (
        λ o. cc (AnyOccurs-any_marker s o, (there h).0),
        any_marker-AnyOccurs invalid_markers s (there h).1,
      ),
      λ h. back (absent transient_markers s h.0, AnyOccurs-any_marker s h.1),
    )
  where
    absent : (ms : List Text) (s : Text) → (¬ AnyOccurs s ms) → any_marker ms s ≡ false
    absent ms s n = elim (Bool-cases (any_marker ms s)) [
      | inl e ↦ absurd (n (any_marker-AnyOccurs ms s e))
      | inr e ↦ e
    ]

-- Whatever the failure, its error matches no sentinel but that for invalid audio.
pub classify_probe_err-no_other :
    (stderr : Text) (run_err : Error) (s : Sentinel)
    → errors_is (classify_probe_err stderr run_err) s ≡ true
    → s ≡ invalid_audio
unfolding classify_probe_err errors_is
classify_probe_err-no_other stderr run_err s h = ground arith

image_as_mp3 :
    errors_is
      (classify_probe_err
        (codes "[mp3] Failed to find two consecutive MPEG audio frames.")
        (opaque_error (codes "exit status 1")))
      invalid_audio
    ≡ true
unfolding classify_probe_err errors_is any_marker to_lower
image_as_mp3 = refl
