-- ===== src/AudioEngine/Segment/Cut.antt =====
-- What a successful cut returns.
use audio_service.Base.{
  ◌∷◌, ◌++◌, ◌∙◌, refl, Option-cases, [], ℕ, ◌≤◌, ◌<◌, ◌≡◌, ◌∙◌, false, Option, none, some,
  Bool-cases, inl, inr, List, [], ◌∷◌, length, arith,
}
use audio_service.Base.Int.{ℤ, leb_ℤ, ◌<ℤ◌}
use audio_service.Base.Text.{Text, is_blank, is_empty}
use audio_service.Base.Float.{Floats}
use audio_service.Fault.{Error, ok}
use audio_service.Effects.{
  Ctx, with_timeout, World, Exit, Run, after-ok, take_slot, free_slot, active_up, active_down, exec,
}
use audio_service.AudioEngine.Buffer.{write_all_lem, take_all, CappedBuffer}
use audio_service.AudioEngine.Engine.{Engine, with_slot, acquired}
use audio_service.AudioEngine.Exec.{run_command, captured}
use audio_service.AudioEngine.Segment.{
  SegmentAudio, max_segment_bytes, wav_type, not_negative, audio_of, segment_of_exit, cut_command,
  cut_body, segment_cut,
}
use mathlib.Core.List.{flatten}

-- The whole output of the process, which is neither empty nor larger than the limit.
pub record IsWhole (output : List ℕ) (a : SegmentAudio) : Type 0 where
  pub bytes : a.wav ≡ output
  pub some_audio : 0 < length a.wav
  pub bounded : length a.wav ≤ max_segment_bytes
  pub kind : a.mime_type ≡ wav_type

-- A buffer with a limit that is kept a variable, so that nothing computes with it.
pub captured-whole :
    (limit : ℕ) (chunks : List (List ℕ))
    → (captured limit chunks).overflow ≡ false
    → ((captured limit chunks).buf ≡ flatten chunks) × (length (flatten chunks) ≤ limit)
unfolding captured
captured-whole limit chunks h =
    let l = write_all_lem limit chunks in
    let small : length (flatten chunks) ≤ limit = ground (arith, l.1, h) in
    (l.0 ∙ take_all limit (flatten chunks) small, small)

not_empty : (s : List ℕ) → is_empty s ≡ false → 0 < length s
not_empty [] h = cc
not_empty (c ∷ s) h = omega arith

audio_of-IsWhole :
    (chunks : List (List ℕ)) (a : SegmentAudio)
    → audio_of (captured max_segment_bytes chunks) ≡ ok a
    → IsWhole (flatten chunks) a
unfolding audio_of
audio_of-IsWhole chunks a h = elim (Bool-cases out.overflow) [
  | inl over ↦ cc (rw over at h)
  | inr fits ↦ elim (Bool-cases (is_empty out.buf)) [
    | inl none_ ↦ cc (rw none_ at (rw fits at h))
    | inr some_ ↦ whole fits some_ (rw some_ at (rw fits at h))
  ]
]
  where
    out : CappedBuffer
    out = captured max_segment_bytes chunks

    whole :
        out.overflow ≡ false
        → is_empty out.buf ≡ false
        → ok (record { wav = out.buf; mime_type = wav_type }) ≡ ok a
        → IsWhole (flatten chunks) a
    whole fits some_ e = record {
      bytes = ground (arith, (captured-whole max_segment_bytes chunks fits).0);
      some_audio = ground (arith, not_empty out.buf some_);
      bounded = ground (arith, captured-whole max_segment_bytes chunks fits);
      kind = ground arith;
    }

segment_of_exit-IsWhole :
    (x : Exit) (o : Option Error) (a : SegmentAudio)
    → segment_of_exit x o ≡ ok a
    → IsWhole (flatten x.stdout) a
unfolding segment_of_exit
segment_of_exit-IsWhole x none a h = audio_of-IsWhole x.stdout a h
segment_of_exit-IsWhole x (some e) a h = cc

pub with_slot-ok :
    {A : Type 0} (w : World) (ctx : Ctx) (body : Run A) {a : A}
    → (with_slot w ctx body).result ≡ ok a
    → body.result ≡ ok a
unfolding with_slot
with_slot-ok w ctx body h =
    let (u, went, rest) =
      after-ok (acquired (w.slot ctx)).events (acquired (w.slot ctx)).result _ h in
    rest

module _ (fl : Floats) (w : World) (e : Engine) (ctx : Ctx) (url : Text) (start_ms end_ms : ℤ) where
  -- What ffmpeg ends with when it is asked for the window, from no less than 0.
  abbrev pub cut_exit : Exit
  cut_exit =
      w.run (with_timeout ctx e.transcribe_timeout)
        (cut_command fl e url (not_negative start_ms) end_ms)

  -- A cut that succeeds was of a window that is not empty; it returns exactly what ffmpeg wrote
  -- for that window, which is at least one byte and at most 64 MiB, as audio/wav.
  pub segment_cut-IsWhole :
      (a : SegmentAudio)
      → (segment_cut fl w e ctx url start_ms end_ms).result ≡ ok a
      → (start_ms <ℤ end_ms) × IsWhole (flatten cut_exit.stdout) a
  unfolding segment_cut cut_body run_command
  segment_cut-IsWhole a h = elim (Bool-cases (is_blank url)) [
    | inl blank ↦ cc (rw blank at h)
    | inr named ↦ elim (Bool-cases (leb_ℤ end_ms start_ms)) [
      | inl reversed ↦ cc (rw reversed at (rw named at h))
      | inr ordered ↦
          let body =
            cut_body fl w e (with_timeout ctx e.transcribe_timeout) url (not_negative start_ms)
              end_ms in
          (
            ground (arith, ordered),
            segment_of_exit-IsWhole cut_exit cut_exit.failure a
                (with_slot-ok w ctx body (rw ordered at (rw named at h))),
          )
    ]
  ]

with_slot-events :
    {A : Type 0} (w : World) (ctx : Ctx) (body : Run A) {a : A}
    → (with_slot w ctx body).result ≡ ok a
    → (with_slot w ctx body).events
      ≡ take_slot ∷ active_up ∷ (body.events ++ free_slot ∷ active_down ∷ [])
unfolding with_slot
with_slot-events w ctx body h = elim (Option-cases (w.slot ctx)) [
  | inl free ↦ rw free refl
  | inr (e, late) ↦ cc (rw late at h)
]

module _ (fl : Floats) (w : World) (e : Engine) (ctx : Ctx) (url : Text) (start_ms end_ms : ℤ) where
  pub segment_cut-events :
      (a : SegmentAudio)
      → (segment_cut fl w e ctx url start_ms end_ms).result ≡ ok a
      → (segment_cut fl w e ctx url start_ms end_ms).events
        ≡ take_slot
          ∷ active_up
          ∷ exec
              (with_timeout ctx e.transcribe_timeout)
              (cut_command fl e url (not_negative start_ms) end_ms)
          ∷ free_slot
          ∷ active_down
          ∷ []
  unfolding segment_cut
  segment_cut-events a h = elim (Bool-cases (is_blank url)) [
    | inl blank ↦ cc (rw blank at h)
    | inr named ↦ elim (Bool-cases (leb_ℤ end_ms start_ms)) [
      | inl reversed ↦ cc (rw reversed at (rw named at h))
      | inr ordered ↦
          let body =
            cut_body fl w e (with_timeout ctx e.transcribe_timeout) url (not_negative start_ms)
              end_ms in
          rw named (
            rw ordered (
              with_slot-events w ctx body (rw ordered at (rw named at h))
              ∙ unfold cut_body run_command in refl))
    ]
  ]
