-- ===== src/Effects.antt =====
-- One request: what it does to the world, in order, and what the world answers. The handlers are
-- functions into `Run`, the events of a call with its result or its error.
use audio_service.Base.{ℕ, ◌≡◌, refl, Bool, Option, none, some, List, [], ◌++◌}
use audio_service.Base.Int.{ℤ}
use audio_service.Base.Text.{Text}
pub use audio_service.Fault.{Result, ok, err}
use audio_service.Genai.{GenRequest, GenResponse}
use audio_service.Fault.{Error, sentinel, deadline_exceeded, canceled}

-- context.Context as far as deadlines go: the context of the call, or context.WithTimeout with a
-- duration in nanoseconds.
pub data Ctx : Type 0 where
  incoming : Ctx
  with_timeout : Ctx → ℤ → Ctx

-- What ctx.Err() is once a context is done.
pub data CtxErr : Type 0 where
  expired cancelled : CtxErr

abbrev pub ctx_error : CtxErr → Error
ctx_error expired = sentinel deadline_exceeded
ctx_error cancelled = sentinel canceled

pub record Command : Type 0 where
  pub program : Text
  pub args : List Text

-- A finished process: the error of cmd.Run, ctx.Err() after it, and its output in chunks.
pub record Exit : Type 0 where
  pub failure : Option Error
  pub ctx_err : Option CtxErr
  pub stdout : List (List ℕ)
  pub stderr : List (List ℕ)

-- http.DefaultClient.Do: an error, or the status code and the status line of a response.
pub data Upload : Type 0 where
  refused : Error → Upload
  response : ℤ → Text → Upload

-- The answers of the world to one request. The semaphore answers `none` with a slot; creating,
-- stating and rewinding the temporary file and building the PUT request answer with their error. The
-- Gemini SDK answers with a response or with an error.
pub record World : Type 0 where
  pub slot : Ctx → Option CtxErr
  pub run : Ctx → Command → Exit
  pub create_temp : Text → Option Error
  pub stat_temp : Option Error
  pub rewind_temp : Option Error
  pub new_put : Text → Option Error
  pub put : Ctx → Text → List ℕ → Upload
  pub generate : Ctx → GenRequest → Result GenResponse

-- The steps that others can observe. The first four are those on the engine's shared fields.
pub data Event : Type 0 where
  take_slot : Event
  free_slot : Event
  active_up : Event
  active_down : Event
  exec : Ctx → Command → Event
  temp_created : Event
  temp_removed : Event
  upload : Ctx → Text → List ℕ → Event
  ask : Ctx → GenRequest → Event

pub record Run (A : Type 0) : Type 0 where
  pub events : List Event
  pub result : Result A

abbrev pub lift : {A : Type 0} → Result A → Run A
lift r = record { events = []; result = r }

abbrev pub return : {A : Type 0} → A → Run A
return a = lift (ok a)

abbrev pub fail : {A : Type 0} → Error → Run A
fail e = lift (err e)

abbrev pub emit : List Event → Run (Unit {0})
emit es = record { events = es; result = ok tt }

-- `defer`: the events follow the body on every path.
abbrev pub finally : {A : Type 0} → Run A → List Event → Run A
finally m es = record { events = m.events ++ es; result = m.result }

-- The body's error becomes a value.
abbrev pub attempt : {A : Type 0} → Run A → Run (Result A)
attempt m = record { events = m.events; result = ok m.result }

abbrev pub after : {A B : Type 0} → List Event → Result A → (A → Run B) → Run B
after es (ok a) f = record { events = es ++ (f a).events; result = (f a).result }
after es (err e) f = record { events = es; result = err e }

infixl 5 ◌>>=◌ ◌>>◌
abbrev pub ◌>>=◌ : {A B : Type 0} → Run A → (A → Run B) → Run B
m >>= f = after m.events m.result f

abbrev pub ◌>>◌ : {B : Type 0} → Run (Unit {0}) → Run B → Run B
m >> k = m >>= λ _. k

-- `if err := ...; err != nil { return nil, ... }`
abbrev pub check : Option Error → (Error → Error) → Run (Unit {0})
check none f = return tt
check (some e) f = fail (f e)

-- `if test { return nil, e }`
abbrev pub refuse_if : Bool → Error → Run (Unit {0})
refuse_if Bool.true e = fail e
refuse_if Bool.false e = return tt

-- Inversion of a successful step, and of a test that let the call go on.
pub after-ok :
    {A B : Type 0} (es : List Event) (r : Result A) (f : A → Run B) {b : B}
    → (after es r f).result ≡ ok b
    → (a : A) × (r ≡ ok a) × ((f a).result ≡ ok b)
after-ok es (ok a) f h = (a, refl, h)
after-ok es (err e) f h = cc

pub refuse_if-ok :
    (b : Bool) (e : Error) {u : Unit {0}} → (refuse_if b e).result ≡ ok u → b ≡ Bool.false
refuse_if-ok Bool.true e h = cc
refuse_if-ok Bool.false e h = refl

pub check-ok :
    (o : Option Error) (f : Error → Error) {u : Unit {0}} → (check o f).result ≡ ok u → o ≡ none
check-ok none f h = refl
check-ok (some e) f h = cc
