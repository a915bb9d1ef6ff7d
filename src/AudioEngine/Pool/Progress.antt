-- ===== src/AudioEngine/Pool/Progress.antt =====
-- The pool of internal/audioengine/engine.go over time: the workers that run, the next event, and
-- the end.
use audio_service.Base.{ℕ, ◌≤◌, ◌<◌, ◌≡◌, refl, ap, Bool, List, [], ◌∷◌, ◌++◌, length, All, arith}
use audio_service.Base.Int.{pos}
use audio_service.Effects.{
  Event, take_slot, free_slot, active_up, active_down, exec, temp_created, temp_removed, upload,
  ask,
}
use audio_service.AudioEngine.Pool.{Pool}
use audio_service.AudioEngine.Pool.Bracket.{Holding, Needs, after_event}
use audio_service.AudioEngine.Pool.System.{
  Thread, IsSound, System, IsReady, Step, advance, Reach, total, total-split, All-split, slots_of,
  busy_of, Inv,
}
use audio_service.AudioEngine.Pool.Safety.{Reach-Inv}
use native.Mathlib.Decide.{dec_lt}

-- 1 for a request whose next event is a process.
abbrev pub runs : List Event → ℕ
runs (exec ctx cmd ∷ es) = 1
runs _ = 0

abbrev pub running : Thread → ℕ
running t = runs t.rest

runs-le :
    (es : List Event) (h : Holding) → IsSound (record { held = h; rest = es }) → runs es ≤ h.slots
runs-le (exec ctx cmd ∷ es) h s = omega arith
runs-le [] h s = omega arith
runs-le (take_slot ∷ es) h s = omega arith
runs-le (free_slot ∷ es) h s = omega arith
runs-le (active_up ∷ es) h s = omega arith
runs-le (active_down ∷ es) h s = omega arith
runs-le (temp_created ∷ es) h s = omega arith
runs-le (temp_removed ∷ es) h s = omega arith
runs-le (upload ctx url file ∷ es) h s = omega arith
runs-le (ask ctx req ∷ es) h s = omega arith

total-le : (ts : List Thread) → All IsSound ts → total running ts ≤ total slots_of ts
total-le [] s = omega arith
total-le (t ∷ ts) s = omega (arith, runs-le t.rest t.held s.0, total-le ts s.1)

at_end :
    (es : List Event) (h : Holding)
    → length es ≡ 0
    → IsSound (record { held = h; rest = es })
    → (h.slots ≡ 0) × (h.busy ≡ 0)
at_end [] h e l = (ap (λ (k : Holding). k.slots) l, ap (λ (k : Holding). k.busy) l)
at_end (e ∷ es) h d l = absurd (omega arith)

abbrev pub to_come : Thread → ℕ
to_come t = length t.rest

finished :
    (ts : List Thread)
    → total to_come ts ≡ 0
    → All IsSound ts
    → (total slots_of ts ≡ 0) × (total busy_of ts ≡ 0)
finished [] d s = (refl, refl)
finished (t ∷ ts) d s =
    omega (arith, at_end t.rest t.held (omega arith) s.0, finished ts (omega arith) s.1)

-- A list of requests taken apart at one of them.
record Found (P : Thread → Type 0) (ts : List Thread) : Type 0 where
  before : List Thread
  one : Thread
  behind : List Thread
  at : ts ≡ before ++ one ∷ behind
  fits : P one

-- A measure with a positive total is positive at some request.
find : (f : Thread → ℕ) (ts : List Thread) → 0 < total f ts → Found (λ t. 0 < f t) ts
find f [] h = absurd (omega arith)
find f (t ∷ ts) h = elim (dec_lt 0 (f t)) [
  | yes p ↦ record { before = []; one = t; behind = ts; at = refl; fits = p }
  | no n ↦
      let later = find f ts (omega arith) in
      record {
        before = t ∷ later.before;
        one = later.one;
        behind = later.behind;
        at = ap (λ l. t ∷ l) later.at;
        fits = later.fits;
      }
]

module _ (capacity : ℕ) (on_idle : Bool) where
  -- In every reachable state at most as many requests are at a run of ffprobe or ffmpeg as there
  -- are workers.
  pub running-le-capacity :
      {s : System} → Reach capacity on_idle s → total running s.threads ≤ capacity
  running-le-capacity {s} r =
      let inv = Reach-Inv capacity on_idle r in
      omega (arith, inv.bounded, inv.slots, total-le s.threads inv.sound)

  -- When no request has an event left, all slots are free and `active` is 0.
  pub Reach-drained :
      {s : System}
      → Reach capacity on_idle s
      → total to_come s.threads ≡ 0
      → (s.pool.used ≡ 0) × (s.pool.active ≡ pos 0)
  Reach-drained {s} r done =
      let inv = Reach-Inv capacity on_idle r in
      let free = finished s.threads done inv.sound in
      (omega (arith, inv.slots, free.0), rw inv.marks (ap pos free.1))

  -- The next event of a request, taken where it is ready.
  turn :
      (s : System) (xs ys : List Thread) (h : Holding) (es : List Event)
      → s.threads ≡ xs ++ record { held = h; rest = es } ∷ ys
      → 0 < length es
      → ((e : Event) → Needs e h → IsReady capacity e s.pool)
      → IsSound (record { held = h; rest = es })
      → (t : System) × Step capacity on_idle s t
        × (total to_come t.threads < total to_come s.threads)
  turn s xs ys h [] at more ready sound = absurd (omega arith)
  turn s xs ys h (e ∷ es) at more ready sound = (
    _,
    advance xs ys e es h at (ready e sound.0),
    omega (
      arith,
      ap (total to_come) at,
      total-split to_come xs (record { held = h; rest = e ∷ es }) ys,
      total-split to_come xs (record { held = after_event e h; rest = es }) ys,
    ),
  )

  -- Every event but a take is ready, and a take is while a slot is free.
  IsReady-of_free :
      (p : Pool) → p.used < capacity → (h : Holding) (e : Event) → Needs e h → IsReady capacity e p
  IsReady-of_free p free h take_slot n = free
  IsReady-of_free p free h _ n = tt

  IsReady-of_holder :
      (p : Pool) (h : Holding) → 0 < h.slots → (e : Event) → Needs e h → IsReady capacity e p
  IsReady-of_holder p h held take_slot n = absurd (omega arith)
  IsReady-of_holder p h held _ n = tt

  holder_moves :
      (h : Holding) (es : List Event)
      → 0 < h.slots
      → IsSound (record { held = h; rest = es })
      → 0 < length es
  holder_moves h [] held sound = absurd (omega (arith, ap (λ (k : Holding). k.slots) sound))
  holder_moves h (e ∷ es) held sound = omega arith

  -- The pool does not deadlock: with at least one worker, in every reachable state in which some
  -- request has events to come, one of the requests can make its next event, and then fewer events
  -- are to come.
  pub Reach-progress :
      {s : System}
      → Reach capacity on_idle s
      → 0 < capacity
      → 0 < total to_come s.threads
      → (t : System) × Step capacity on_idle s t
        × (total to_come t.threads < total to_come s.threads)
  Reach-progress {s} r workers more = elim (dec_lt s.pool.used capacity) [
    | yes free ↦
        let f = find to_come s.threads more in
        turn s f.before f.behind f.one.held f.one.rest f.at f.fits
          (IsReady-of_free s.pool free f.one.held) (sound_at f.before f.one f.behind f.at)
    | no full ↦
        let f = find slots_of s.threads (omega (arith, inv.slots)) in
        let sound = sound_at f.before f.one f.behind f.at in
        turn s f.before f.behind f.one.held f.one.rest f.at
          (holder_moves f.one.held f.one.rest f.fits sound)
          (IsReady-of_holder s.pool f.one.held f.fits) sound
  ]
    where
      inv : Inv capacity s
      inv = Reach-Inv capacity on_idle r

      sound_at :
          (xs : List Thread) (t : Thread) (ys : List Thread) → s.threads ≡ xs ++ t ∷ ys → IsSound t
      sound_at xs t ys at = All-split IsSound xs t ys (rw at at inv.sound)
