-- ===== src/AudioEngine/Probe/Reading.antt =====
-- What `ffprobeMeta` and `toResult` of internal/audioengine/probe.go read, said of the process and of
-- the streams.
use audio_service.Base.{
  ◌≤◌, ◌≡◌, ◌≢◌, refl, sym, ap, ◌⊎◌, true, false, Bool-cases, inl, inr, Option, none, some,
  Option-cases, List, [], ◌∷◌, ◌++◌, All, length, arith,
}
use audio_service.Base.Int.{ℤ, pos, ◌≤ℤ◌, ◌<ℤ◌, ltb_ℤ}
use audio_service.Base.Text.{Text, codes, text_eq, trim_space, parse_int}
use audio_service.Base.Text.Laws.{text_eq_iff}
use audio_service.Base.Utf8.{runes}
use audio_service.Base.Float.{Floats}
use audio_service.Fault.{ok, ok-injective}
use audio_service.Effects.{Exit}
use audio_service.AudioEngine.Buffer.{CappedBuffer}
use audio_service.AudioEngine.Exec.{captured, max_probe_output_bytes}
use audio_service.AudioEngine.Segment.Cut.{captured-whole}
use audio_service.AudioEngine.Segment.Success.{captured-fits}
use audio_service.AudioEngine.Probe.{ProbeResult, FfprobeOutput, FfprobeStream}
use audio_service.AudioEngine.Probe.Output.{
  decode_output, first_audio, to_result, duration_of, parse_int_field, parse_seconds_to_ms,
  natural_or_zero, is_absent,
}
use audio_service.AudioEngine.Probe.Steps.{output_or_err, metadata, meta_of_exit}
use mathlib.Core.List.{flatten}

-- A stream of audio with none before it.
pub record IsFirstAudio (s : FfprobeStream) (ss : List FfprobeStream) : Type 0 where
  pub before : List FfprobeStream
  pub behind : List FfprobeStream
  pub at : ss ≡ before ++ s ∷ behind
  pub is_audio : s.codec_type ≡ codes "audio"
  pub others : All (λ (t : FfprobeStream). t.codec_type ≢ codes "audio") before

different :
    (s : FfprobeStream)
    → text_eq s.codec_type (codes "audio") ≡ false
    → s.codec_type ≢ codes "audio"
different s h e = cc ((text_eq_iff s.codec_type (codes "audio")).1 e, h)

unequal :
    (s : FfprobeStream)
    → s.codec_type ≢ codes "audio"
    → text_eq s.codec_type (codes "audio") ≡ false
unequal s h = elim (Bool-cases (text_eq s.codec_type (codes "audio"))) [
  | inl e ↦ absurd (h ((text_eq_iff s.codec_type (codes "audio")).0 e))
  | inr e ↦ e
]

pub first_audio-IsFirstAudio :
    (ss : List FfprobeStream) (s : FfprobeStream) → first_audio ss ≡ some s → IsFirstAudio s ss
unfolding first_audio
first_audio-IsFirstAudio [] s h = cc
first_audio-IsFirstAudio (t ∷ ss) s h = elim (Bool-cases (text_eq t.codec_type (codes "audio"))) [
  | inl e ↦
      let same : t ≡ s = cc (rw e at h) in
      record {
        before = [];
        behind = ss;
        at = ap (λ u. u ∷ ss) same;
        is_audio = (text_eq_iff s.codec_type (codes "audio")).0 (rw same at e);
        others = tt;
      }
  | inr e ↦
      let f = first_audio-IsFirstAudio ss s (rw e at h) in
      record {
        before = t ∷ f.before;
        behind = f.behind;
        at = ap (λ l. t ∷ l) f.at;
        is_audio = f.is_audio;
        others = (different t e, f.others);
      }
]

first_audio-append :
    (before behind : List FfprobeStream) (s : FfprobeStream)
    → s.codec_type ≡ codes "audio"
    → All (λ (t : FfprobeStream). t.codec_type ≢ codes "audio") before
    → first_audio (before ++ s ∷ behind) ≡ some s
unfolding first_audio
first_audio-append [] behind s a o = rw ((text_eq_iff s.codec_type (codes "audio")).1 a) refl
first_audio-append (t ∷ before) behind s a (n, o) =
    rw (unequal t n) (first_audio-append before behind s a o)

pub IsFirstAudio-first_audio :
    (ss : List FfprobeStream) (s : FfprobeStream) → IsFirstAudio s ss → first_audio ss ≡ some s
IsFirstAudio-first_audio ss s f =
    rw f.at (first_audio-append f.before f.behind s f.is_audio f.others)

-- ffprobe ended without an error, and its whole standard output, within the limit, is a document
-- with this content.
pub record Prints (x : Exit) (output : FfprobeOutput) : Type 0 where
  pub unfailed : x.failure ≡ none
  pub bounded : length (flatten x.stdout) ≤ max_probe_output_bytes
  pub parsed : decode_output (runes (flatten x.stdout)) ≡ some output

output_or_err-ok :
    (o : Option FfprobeOutput) (output : FfprobeOutput)
    → output_or_err o ≡ ok output
    → o ≡ some output
unfolding output_or_err
output_or_err-ok none output h = cc
output_or_err-ok (some o) output h = ap some (ok-injective h)

metadata-whole :
    (out : CappedBuffer) (output : FfprobeOutput)
    → metadata out ≡ ok output
    → (out.overflow ≡ false) × (decode_output (runes out.buf) ≡ some output)
unfolding metadata
metadata-whole out output h = elim (Bool-cases out.overflow) [
  | inl over ↦ cc (rw over at h)
  | inr fits ↦ (fits, output_or_err-ok (decode_output (runes out.buf)) output (rw fits at h))
]

pub meta_of_exit-Prints :
    (x : Exit) (output : FfprobeOutput) → meta_of_exit x x.failure ≡ ok output → Prints x output
unfolding meta_of_exit
meta_of_exit-Prints x output h = elim (Option-cases x.failure) [
  | inr (e, failed) ↦ cc (rw failed at h)
  | inl unfailed ↦
      let out = captured max_probe_output_bytes x.stdout in
      let (fits, parsed) = metadata-whole out output (rw unfailed at h) in
      let (kept, bounded) = captured-whole max_probe_output_bytes x.stdout fits in
      record { unfailed = unfailed; bounded = bounded; parsed = rw kept at parsed }
]

metadata-fits :
    (out : CappedBuffer) (output : FfprobeOutput)
    → out.overflow ≡ false
    → decode_output (runes out.buf) ≡ some output
    → metadata out ≡ ok output
unfolding metadata output_or_err
metadata-fits out output fits parsed = rw fits (rw parsed refl)

pub Prints-meta_of_exit :
    (x : Exit) (output : FfprobeOutput) → Prints x output → meta_of_exit x x.failure ≡ ok output
unfolding meta_of_exit
Prints-meta_of_exit x output p =
    let (kept, fits) = captured-fits max_probe_output_bytes x.stdout p.bounded in
    rw p.unfailed
      (metadata-fits (captured max_probe_output_bytes x.stdout) output fits (rw kept p.parsed))

-- The whole number that a field spells, where that is not negative, and 0 where it spells no such
-- number.
abbrev pub IsCount : Text → ℤ → Type 0
IsCount field n =
    (pos 0 ≤ℤ n)
    × ((parse_int (trim_space field) ≡ some n)
        ⊎ ((n ≡ pos 0) × ((m : ℤ) → parse_int (trim_space field) ≡ some m → m <ℤ pos 0)))

natural-IsCount :
    (o : Option ℤ)
    → (pos 0 ≤ℤ natural_or_zero o)
      × ((o ≡ some (natural_or_zero o))
          ⊎ ((natural_or_zero o ≡ pos 0) × ((m : ℤ) → o ≡ some m → m <ℤ pos 0)))
natural-IsCount none = (omega arith, inr (refl, λ m h. cc))
natural-IsCount (some n) = elim (Bool-cases (ltb_ℤ n (pos 0))) [
  | inl less ↦ rw less (omega arith, inr (refl, λ m h. negative n m less h))
  | inr least ↦ rw least (ground (arith, least), inl refl)
]
  where
    negative : (n m : ℤ) → ltb_ℤ n (pos 0) ≡ true → some n ≡ some m → m <ℤ pos 0
    negative n m less h = ground (arith, less, h)

unspelled : (t : Text) → t ≡ codes "N/A" → parse_int t ≡ none
unfolding parse_int
unspelled t h = rw h refl

absent-unspelled : (t : Text) → is_absent t ≡ true → parse_int t ≡ none
unfolding parse_int
absent-unspelled [] h = refl
absent-unspelled (c ∷ t) h = unspelled (c ∷ t) ((text_eq_iff (c ∷ t) (codes "N/A")).0 h)

parse_int_field-IsCount : (field : Text) → IsCount field (parse_int_field field)
unfolding parse_int_field
parse_int_field-IsCount field = elim (Bool-cases (is_absent (trim_space field))) [
  | inl absent ↦
      let none_ = absent-unspelled (trim_space field) absent in
      rw absent (omega arith, inr (refl, λ m h. cc (h, none_)))
  | inr spelled ↦ rw spelled (natural-IsCount (parse_int (trim_space field)))
]

module _ (fl : Floats) where
  -- The container's duration where that is positive, and otherwise the stream's.
  abbrev pub IsDuration : Text → Text → ℤ → Type 0
  IsDuration container stream ms =
      ((pos 0 <ℤ parse_seconds_to_ms fl container) × (ms ≡ parse_seconds_to_ms fl container))
      ⊎ ((parse_seconds_to_ms fl container ≤ℤ pos 0) × (ms ≡ parse_seconds_to_ms fl stream))

  duration_of-IsDuration :
      (container stream : Text) → IsDuration container stream (duration_of fl container stream)
  unfolding duration_of
  duration_of-IsDuration container stream = ground arith

  -- The fields of a result, as they are in the document.
  pub record IsReport (output : FfprobeOutput) (stream : FfprobeStream) (res : ProbeResult)
      : Type 0 where
    pub container : res.container ≡ output.format.format_name
    pub codec : res.codec ≡ stream.codec_name
    pub channels : res.channels ≡ stream.channels
    pub sample_rate : IsCount stream.sample_rate res.sample_rate
    pub duration : IsDuration output.format.duration stream.duration res.duration_ms

  pub to_result-IsReport :
      (output : FfprobeOutput) (stream : FfprobeStream) (res : ProbeResult)
      → first_audio output.streams ≡ some stream
      → to_result fl output ≡ ok res
      → IsReport output stream res
  unfolding to_result
  to_result-IsReport output stream res first h =
      let same = ok-injective (rw first at h) in
      record {
        container = ap (λ (r : ProbeResult). r.container) (sym same);
        codec = ap (λ (r : ProbeResult). r.codec) (sym same);
        channels = ap (λ (r : ProbeResult). r.channels) (sym same);
        sample_rate =
            rw (ap (λ (r : ProbeResult). r.sample_rate) same) at
              (parse_int_field-IsCount stream.sample_rate);
        duration =
            rw (ap (λ (r : ProbeResult). r.duration_ms) same) at
              (duration_of-IsDuration output.format.duration stream.duration);
      }
