-- ===== src/AudioEngine/Normalize/Delivery.antt =====
-- What a successful `Normalize` of internal/audioengine/normalize.go has uploaded.
use audio_service.Base.{
  ℕ, ◌<◌, ◌≡◌, sym, ◌∙◌, Option, none, some, Option-cases, Bool-cases, inl, inr, List, [], length,
  ◌==◌, if◌then◌else◌, arith,
}
use audio_service.Base.Int.{ℤ, pos, leb_ℤ, ◌≤ℤ◌, ◌<ℤ◌}
use audio_service.Base.Text.{Text, is_blank}
use audio_service.Base.Float.{Floats}
use audio_service.Fault.{Error, ok}
use audio_service.Effects.{
  Ctx, incoming, with_timeout, World, Exit, Upload, refused, response, Run, after-ok, return,
}
use audio_service.AudioEngine.Engine.{Engine}
use audio_service.AudioEngine.Exec.{run_command}
use audio_service.AudioEngine.Segment.Cut.{with_slot-ok}
use audio_service.AudioEngine.Normalize.{
  NormalizeResult, encode_command, encoded, upload_result, put_file, deliver, encode_and_put,
  with_temp_file, source_duration, normalize_body, normalize_audio,
}
use mathlib.Core.List.{flatten}

-- A response with a status from 200 to 299.
abbrev pub IsAccepted : Upload → Type 0
IsAccepted (refused e) = ⊥
IsAccepted (response code status) = (pos 200 ≤ℤ code) × (code <ℤ pos 300)

upload_result-none : (u : Upload) → upload_result u ≡ none → IsAccepted u
unfolding upload_result
upload_result-none (refused e) h = cc
upload_result-none (response code status) h = ground arith

-- What is uploaded is the whole output of ffmpeg, and some of it.
pub record Delivered (w : World) (ctx : Ctx) (dest : Text) (x : Exit) (file : List ℕ) : Type 0 where
  pub whole : file ≡ flatten x.stdout
  pub some_audio : 0 < length file
  pub accepted : IsAccepted (w.put ctx dest file)

module _ (w : World) (e : Engine) (ctx : Ctx) (url dest : Text) (rate : ℤ) where
  abbrev pub encode_exit : Exit
  encode_exit = w.run ctx (encode_command e url rate)

  encoded-Delivered :
      (x : Exit) (o : Option Error) (file : List ℕ)
      → encoded x o ≡ ok file
      → file ≡ flatten x.stdout
  unfolding encoded
  encoded-Delivered x none file h = ground arith
  encoded-Delivered x (some failure) file h = cc

  put_file-IsAccepted :
      (file : List ℕ) {u : Unit {0}}
      → (put_file w ctx dest file).result ≡ ok u
      → IsAccepted (w.put ctx dest file)
  unfolding put_file
  put_file-IsAccepted file h = elim (Option-cases (w.new_put dest)) [
    | inr (failure, e') ↦ cc (rw e' at h)
    | inl built ↦ elim (Option-cases (upload_result (w.put ctx dest file))) [
      | inr (failure, e') ↦ cc (rw e' at (rw built at h))
      | inl fine ↦ upload_result-none (w.put ctx dest file) fine
    ]
  ]

  deliver-IsAccepted :
      (file : List ℕ) {got : List ℕ}
      → (deliver w ctx dest file).result ≡ ok got
      → (file ≡ got) × (0 < length file) × IsAccepted (w.put ctx dest file)
  unfolding deliver put_file
  deliver-IsAccepted file h = elim (Option-cases w.stat_temp) [
    | inr (failure, e') ↦ cc (rw e' at h)
    | inl stated ↦ elim (Bool-cases (length file == 0)) [
      | inl empty ↦ cc (rw empty at (rw stated at h))
      | inr some_ ↦ elim (Option-cases w.rewind_temp) [
        | inr (failure, e') ↦ cc (rw e' at (rw some_ at (rw stated at h)))
        | inl rewound ↦
            let h' = rw rewound at (rw some_ at (rw stated at h)) in
            let (u, put, same) =
              after-ok (put_file w ctx dest file).events (put_file w ctx dest file).result
                (λ _. return file) h' in
            (ground arith, ground arith, put_file-IsAccepted file put)
      ]
    ]
  ]

  encode_and_put-Delivered :
      (file : List ℕ)
      → (encode_and_put w e ctx url dest rate).result ≡ ok file
      → Delivered w ctx dest encode_exit file
  unfolding encode_and_put run_command
  encode_and_put-Delivered got h =
      let (file, written, sent) =
        after-ok [] (encoded encode_exit encode_exit.failure) (deliver w ctx dest) h in
      let (same, some_, accepted) = deliver-IsAccepted file sent in
      record {
        whole = sym same ∙ encoded-Delivered encode_exit encode_exit.failure file written;
        some_audio = rw same at some_;
        accepted = rw same at accepted;
      }

with_temp_file-ok :
    {A : Type 0} (w : World) (e : Engine) (body : Run A) {a : A}
    → (with_temp_file w e body).result ≡ ok a
    → body.result ≡ ok a
unfolding with_temp_file
with_temp_file-ok w e body h = elim (Option-cases (w.create_temp e.tmp_dir)) [
  | inr (failure, e') ↦ cc (rw e' at h)
  | inl made ↦ rw made at h
]

-- What a normalisation has done with the rate `rate`.
pub record Normalised (w : World) (e : Engine) (url dest : Text) (rate : ℤ) (res : NormalizeResult)
    : Type 0 where
  pub file : List ℕ
  pub delivered :
      Delivered w
        (with_timeout incoming e.normalize_timeout)
        dest
        (encode_exit w e (with_timeout incoming e.normalize_timeout) url dest rate)
        file
  pub size : res.bytes_written ≡ pos (length file)
  pub mono : res.channels ≡ pos 1
  pub at_rate : res.sample_rate ≡ rate

-- The rate of the request, or the engine's own.
abbrev pub rate_or_default : Engine → ℤ → ℤ
rate_or_default e rate = if leb_ℤ rate (pos 0) then e.target_sample_rate else rate

module _ (fl : Floats) (w : World) (e : Engine) (url dest : Text) where
  normalize_body-Normalised :
      (rate : ℤ) (res : NormalizeResult)
      → (normalize_body fl w e (with_timeout incoming e.normalize_timeout) url dest rate).result
        ≡ ok res
      → Normalised w e url dest rate res
  unfolding normalize_body
  normalize_body-Normalised rate res h =
      let ctx = with_timeout incoming e.normalize_timeout in
      let duration = source_duration fl w e ctx url in
      let (ms, read, h1) = after-ok duration.events duration.result _ h in
      let body = encode_and_put w e ctx url dest rate in
      let kept = with_temp_file w e body in
      let (file, sent, h2) = after-ok kept.events kept.result _ h1 in
      record {
        file = file;
        delivered =
            encode_and_put-Delivered w e ctx url dest rate file (with_temp_file-ok w e body sent);
        size = ground (arith, h2);
        mono = ground (arith, h2);
        at_rate = ground (arith, h2);
      }

  -- A normalisation that succeeds has run ffmpeg on the source, at the rate of the request where
  -- that is positive and else at the engine's; it has sent the whole of what ffmpeg wrote, at least
  -- one byte, to the destination, which answered with a status from 200 to 299; and it returns that
  -- rate, one channel and the number of bytes sent.
  pub normalize_audio-Normalised :
      (rate : ℤ) (res : NormalizeResult)
      → (normalize_audio fl w e incoming url dest rate).result ≡ ok res
      → Normalised w e url dest (rate_or_default e rate) res
  unfolding normalize_audio
  normalize_audio-Normalised rate res h = elim (Bool-cases (is_blank url)) [
    | inl blank ↦ cc (rw blank at h)
    | inr named ↦ elim (Bool-cases (is_blank dest)) [
      | inl blank ↦ cc (rw blank at (rw named at h))
      | inr aimed ↦ normalize_body-Normalised (rate_or_default e rate) res (
          with_slot-ok w incoming
            (normalize_body fl w e (with_timeout incoming e.normalize_timeout) url dest
              (rate_or_default e rate))
            (rw aimed at (rw named at h)))
    ]
  ]
