-- ===== src/AudioEngine/Balance/Parts.antt =====
-- What the parts of the operations of internal/audioengine take and give back.
use audio_service.Base.{
  ℕ, suc, refl, Bool, true, false, Option, none, some, List, [], ◌∷◌, if◌then◌else◌, arith,
}
use audio_service.Base.Int.{ℤ}
use audio_service.Base.Text.{Text}
use audio_service.Fault.{Error, Result, ok, err}
use audio_service.Effects.{
  Ctx, CtxErr, World, Command, Event, Run, lift, after, check, refuse_if, temp_removed, finally,
  ◌>>◌,
}
use audio_service.AudioEngine.Engine.{Engine, acquired, with_slot, release_worker}
use audio_service.AudioEngine.Exec.{run_command}
use audio_service.AudioEngine.Pool.Bracket.{Holding, Leads, Leads-append}
use audio_service.AudioEngine.Probe.Steps.{probe_command, ffprobe_meta}
use audio_service.AudioEngine.Normalize.{
  upload_result, put_file, encode_command, deliver, encode_and_put, with_temp_file,
}

-- A call leaves the holding as it was.
pub record Keeps {A : Type 0} (h : Holding) (m : Run A) : Type 0 where
  pub leads : Leads m.events h h

-- A worker slot and one mark.
abbrev pub Working : Holding → Holding
Working h = record h { slots = 1; busy = suc h.busy }

-- No worker slot.
abbrev pub Free : Holding → Holding
Free h = record h { slots = 0 }

-- A call with no event.
abbrev pub silent : {A : Type 0} {h : Holding} {r : Result A} → Keeps h (lift r)
silent = record { leads = refl }

pub bind-Keeps :
    {A B : Type 0} {h : Holding} {es : List Event} {r : Result A} {f : A → Run B}
    → Keeps h (record { events = es; result = r })
    → ((a : A) → Keeps h (f a))
    → Keeps h (after es r f)
bind-Keeps {h} {es} {r = ok a} {f} p q = record {
  leads = Leads-append es (f a).events h h h p.leads (q a).leads;
}
bind-Keeps {r = err e} p q = record { leads = p.leads }

pub refuse_if-Keeps : (h : Holding) (b : Bool) (e : Error) → Keeps h (refuse_if b e)
refuse_if-Keeps h true e = silent
refuse_if-Keeps h false e = silent

check-Keeps : (h : Holding) (o : Option Error) (f : Error → Error) → Keeps h (check o f)
check-Keeps h none f = silent
check-Keeps h (some e) f = silent

pub if-Keeps :
    {A : Type 0} {h : Holding} (b : Bool) {m n : Run A}
    → Keeps h m
    → Keeps h n
    → Keeps h (if b then m else n)
if-Keeps true p q = p
if-Keeps false p q = q

pub run_command-Keeps :
    (h : Holding) (w : World) (ctx : Ctx) (c : Command) → Keeps (Working h) (run_command w ctx c)
unfolding run_command
run_command-Keeps h w ctx c = record { leads = ((refl, omega arith), refl) }

-- A slot is taken and given back around a body that keeps it, or nothing is done.
pub with_slot-Keeps :
    {A : Type 0} (h : Holding) (w : World) (ctx : Ctx) (body : Run A)
    → Keeps (Working h) body
    → Keeps (Free h) (with_slot w ctx body)
unfolding with_slot
with_slot-Keeps {A} h w ctx body k = acquired_case (w.slot ctx)
  where
    acquired_case : (o : Option CtxErr) → Keeps (Free h) (acquired o >> finally body release_worker)
    acquired_case (some e) = silent
    acquired_case none = record {
      leads = (
        refl,
        (
          tt,
          Leads-append body.events release_worker (Working h) (Working h) (Free h) k.leads
              (refl, (omega arith, refl)),
        ),
      );
    }

module _ (h : Holding) (w : World) (e : Engine) (ctx : Ctx) where
  pub ffprobe_meta-Keeps : (url : Text) → Keeps (Working h) (ffprobe_meta w e ctx url)
  unfolding ffprobe_meta
  ffprobe_meta-Keeps url =
      bind-Keeps (run_command-Keeps h w ctx (probe_command e url)) (λ x. silent)

  put_file-Keeps : (dest : Text) (file : List ℕ) → Keeps (Working h) (put_file w ctx dest file)
  unfolding put_file
  put_file-Keeps dest file = bind-Keeps (check-Keeps (Working h) (w.new_put dest) _) (λ u. record {
    leads = (
      (refl, omega arith),
      (check-Keeps (Working h) (upload_result (w.put ctx dest file)) (λ e'. e')).leads,
    );
  })

  pub with_temp_file-Keeps :
      {A : Type 0} (body : Run A)
      → Keeps (Working (record h { files = suc h.files })) body
      → Keeps (Working h) (with_temp_file w e body)
  unfolding with_temp_file
  with_temp_file-Keeps body k =
      bind-Keeps (check-Keeps (Working h) (w.create_temp e.tmp_dir) _) (λ u. record {
        leads = (
          tt,
          Leads-append body.events (temp_removed ∷ []) (Working (record h { files = suc h.files }))
              (Working (record h { files = suc h.files })) (Working h) k.leads (omega arith, refl),
        );
      })

  deliver-Keeps : (dest : Text) (file : List ℕ) → Keeps (Working h) (deliver w ctx dest file)
  unfolding deliver
  deliver-Keeps dest file = bind-Keeps (check-Keeps (Working h) w.stat_temp _) (λ a.
      bind-Keeps (refuse_if-Keeps (Working h) _ _) (λ b.
        bind-Keeps (check-Keeps (Working h) w.rewind_temp _)
          (λ c. bind-Keeps (put_file-Keeps dest file) (λ d. silent))))

  pub encode_and_put-Keeps :
      (url dest : Text) (rate : ℤ) → Keeps (Working h) (encode_and_put w e ctx url dest rate)
  unfolding encode_and_put
  encode_and_put-Keeps url dest rate =
      bind-Keeps (run_command-Keeps h w ctx (encode_command e url rate))
        (λ x. bind-Keeps silent (λ file. deliver-Keeps dest file))
