-- ===== src/AudioEngine/Timed.antt =====
-- The contexts in which the engine's operations run processes and uploads.
use audio_service.Base.{
  ℕ, ◌≡◌, refl, Bool, true, false, Option, none, some, List, [], ◌∷◌, ◌++◌, All, if◌then◌else◌,
}
use audio_service.Base.Int.{ℤ, pos, leb_ℤ}
use audio_service.Base.Text.{Text, is_blank}
use audio_service.Base.Float.{Floats}
use audio_service.Fault.{Error, Result, ok, err}
use audio_service.Effects.{
  Ctx, incoming, with_timeout, CtxErr, World, Command, Event, exec, upload, ask, temp_removed, Run,
  lift, after, check, refuse_if, finally, ◌>>◌,
}
use audio_service.AudioEngine.Engine.{Engine, acquired, with_slot, release_worker}
use audio_service.AudioEngine.Exec.{run_command}
use audio_service.AudioEngine.Probe.{ProbeResult}
use audio_service.AudioEngine.Probe.Steps.{
  probe_command, ffprobe_meta, silence_command, detect_silent_throughout, judge, probe_body, probe,
}
use audio_service.AudioEngine.Segment.{not_negative, cut_command, cut_body, segment_cut}
use audio_service.AudioEngine.Normalize.{
  upload_result, put_file, encode_command, deliver, encode_and_put, with_temp_file, source_duration,
  normalize_body, normalize_audio,
}

-- A process and an upload have a deadline of `t` nanoseconds, and a call of Gemini has the deadline
-- of the RPC alone.
abbrev pub IsTimed : ℤ → Event → Type 0
IsTimed t (exec ctx c) = ctx ≡ with_timeout incoming t
IsTimed t (upload ctx dest file) = ctx ≡ with_timeout incoming t
IsTimed t (ask ctx req) = ctx ≡ incoming
IsTimed t e = Unit

pub All-append : (P : Event → Type 0) (es fs : List Event) → All P es → All P fs → All P (es ++ fs)
All-append P [] fs h k = k
All-append P (e ∷ es) fs h k = (h.0, All-append P es fs h.1 k)

pub record Timed {A : Type 0} (t : ℤ) (m : Run A) : Type 0 where
  pub each : All (IsTimed t) m.events

abbrev pub quiet : {A : Type 0} {t : ℤ} {r : Result A} → Timed t (lift r)
quiet = record { each = tt }

pub bind-Timed :
    {A B : Type 0} {t : ℤ} {es : List Event} {r : Result A} {f : A → Run B}
    → Timed t (record { events = es; result = r })
    → ((a : A) → Timed t (f a))
    → Timed t (after es r f)
bind-Timed {t} {es} {r = ok a} {f} p q = record {
  each = All-append (IsTimed t) es (f a).events p.each (q a).each;
}
bind-Timed {r = err e} p q = record { each = p.each }

pub refuse_if-Timed : (t : ℤ) (b : Bool) (e : Error) → Timed t (refuse_if b e)
refuse_if-Timed t true e = quiet
refuse_if-Timed t false e = quiet

check-Timed : (t : ℤ) (o : Option Error) (f : Error → Error) → Timed t (check o f)
check-Timed t none f = quiet
check-Timed t (some e) f = quiet

if-Timed :
    {A : Type 0} {t : ℤ} (b : Bool) {m n : Run A}
    → Timed t m
    → Timed t n
    → Timed t (if b then m else n)
if-Timed true p q = p
if-Timed false p q = q

with_slot-Timed :
    {A : Type 0} (t : ℤ) (w : World) (ctx : Ctx) (body : Run A)
    → Timed t body
    → Timed t (with_slot w ctx body)
unfolding with_slot
with_slot-Timed {A} t w ctx body k = acquired_case (w.slot ctx)
  where
    acquired_case : (o : Option CtxErr) → Timed t (acquired o >> finally body release_worker)
    acquired_case (some e) = quiet
    acquired_case none = record {
      each = (tt, (tt, All-append (IsTimed t) body.events release_worker k.each (tt, (tt, tt))));
    }

module _ (fl : Floats) (t : ℤ) (w : World) (e : Engine) (url : Text) where
  abbrev limited : Ctx
  limited = with_timeout incoming t

  run_command-Timed : (c : Command) → Timed t (run_command w limited c)
  unfolding run_command
  run_command-Timed c = record { each = (refl, tt) }

  ffprobe_meta-Timed : Timed t (ffprobe_meta w e limited url)
  unfolding ffprobe_meta
  ffprobe_meta-Timed = bind-Timed (run_command-Timed (probe_command e url)) (λ x. quiet)

  detect-Timed : (d : ℤ) → Timed t (detect_silent_throughout fl w e limited url d)
  unfolding detect_silent_throughout
  detect-Timed d = bind-Timed (run_command-Timed (silence_command e url)) (λ x. quiet)

  judge-Timed : (res : ProbeResult) → Timed t (judge fl w e limited url res)
  unfolding judge
  judge-Timed res =
      if-Timed (leb_ℤ res.duration_ms (pos 0)) quiet
        (record { each = All-append (IsTimed t) _ [] (detect-Timed res.duration_ms).each tt })

  probe_body-Timed : Timed t (probe_body fl w e limited url)
  unfolding probe_body
  probe_body-Timed = bind-Timed ffprobe_meta-Timed (λ meta. bind-Timed quiet judge-Timed)

  cut_body-Timed : (start_ms end_ms : ℤ) → Timed t (cut_body fl w e limited url start_ms end_ms)
  unfolding cut_body
  cut_body-Timed start_ms end_ms =
      bind-Timed (run_command-Timed (cut_command fl e url start_ms end_ms)) (λ x. quiet)

  put_file-Timed : (dest : Text) (file : List ℕ) → Timed t (put_file w limited dest file)
  unfolding put_file
  put_file-Timed dest file = bind-Timed (check-Timed t (w.new_put dest) _) (λ u. record {
    each = (refl, (check-Timed t (upload_result (w.put limited dest file)) (λ e'. e')).each);
  })

  deliver-Timed : (dest : Text) (file : List ℕ) → Timed t (deliver w limited dest file)
  unfolding deliver
  deliver-Timed dest file = bind-Timed (check-Timed t w.stat_temp _) (λ a.
      bind-Timed (refuse_if-Timed t _ _) (λ b.
        bind-Timed (check-Timed t w.rewind_temp _)
          (λ c. bind-Timed (put_file-Timed dest file) (λ d. quiet))))

  encode_and_put-Timed :
      (dest : Text) (rate : ℤ) → Timed t (encode_and_put w e limited url dest rate)
  unfolding encode_and_put
  encode_and_put-Timed dest rate =
      bind-Timed (run_command-Timed (encode_command e url rate))
        (λ x. bind-Timed quiet (λ file. deliver-Timed dest file))

  with_temp_file-Timed :
      {A : Type 0} (body : Run A) → Timed t body → Timed t (with_temp_file w e body)
  unfolding with_temp_file
  with_temp_file-Timed body k = bind-Timed (check-Timed t (w.create_temp e.tmp_dir) _) (λ u.
      record {
        each = (tt, All-append (IsTimed t) body.events (temp_removed ∷ []) k.each (tt, tt));
      })

  source_duration-Timed : Timed t (source_duration fl w e limited url)
  unfolding source_duration
  source_duration-Timed = record { each = All-append (IsTimed t) _ [] ffprobe_meta-Timed.each tt }

  normalize_body-Timed :
      (dest : Text) (rate : ℤ) → Timed t (normalize_body fl w e limited url dest rate)
  unfolding normalize_body
  normalize_body-Timed dest rate = bind-Timed source_duration-Timed (λ d.
      bind-Timed
        (with_temp_file-Timed (encode_and_put w e limited url dest rate)
          (encode_and_put-Timed dest rate))
        (λ file. quiet))

module _ (fl : Floats) (w : World) (e : Engine) (url : Text) where
  pub probe-Timed : Timed e.probe_timeout (probe fl w e incoming url)
  unfolding probe
  probe-Timed = bind-Timed (refuse_if-Timed e.probe_timeout _ _) (λ u.
      with_slot-Timed e.probe_timeout w incoming _ (probe_body-Timed fl e.probe_timeout w e url))

  pub segment_cut-Timed :
      (start_ms end_ms : ℤ)
      → Timed e.transcribe_timeout (segment_cut fl w e incoming url start_ms end_ms)
  unfolding segment_cut
  segment_cut-Timed start_ms end_ms =
      bind-Timed (refuse_if-Timed e.transcribe_timeout (is_blank url) _) (λ u.
        bind-Timed (refuse_if-Timed e.transcribe_timeout (leb_ℤ end_ms start_ms) _) (λ v.
          with_slot-Timed e.transcribe_timeout w incoming _
            (cut_body-Timed fl e.transcribe_timeout w e url (not_negative start_ms) end_ms)))

  pub normalize_audio-Timed :
      (dest : Text) (rate : ℤ)
      → Timed e.normalize_timeout (normalize_audio fl w e incoming url dest rate)
  unfolding normalize_audio
  normalize_audio-Timed dest rate =
      bind-Timed (refuse_if-Timed e.normalize_timeout (is_blank url) _) (λ u.
        bind-Timed (refuse_if-Timed e.normalize_timeout (is_blank dest) _) (λ v.
          with_slot-Timed e.normalize_timeout w incoming _ (
            normalize_body-Timed fl e.normalize_timeout w e url dest
              (if leb_ℤ rate (pos 0) then e.target_sample_rate else rate))))
