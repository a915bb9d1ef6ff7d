-- ===== src/AudioEngine/Pool/Drain.antt =====
-- The end of the work of internal/audioengine/engine.go: the requests that have arrived can finish,
-- whatever the order of their events so far.
use audio_service.Base.{ℕ, zero, suc, ◌<◌, ◌≡◌, ap, Bool, ◌∷◌, arith}
use audio_service.Base.Int.{pos}
use audio_service.AudioEngine.Pool.System.{
  System, Step, arrive, advance, swaps, reclaimed, Reach, later, total, total-split,
}
use audio_service.AudioEngine.Pool.Bracket.{after_event}
use audio_service.AudioEngine.Pool.Progress.{to_come, Reach-progress, Reach-drained}

module _ (capacity : ℕ) (on_idle : Bool) where
  -- A number of steps, each of which leaves fewer events to come.
  pub data Works : ℕ → System → System → Type 0 where
    stay : {s : System} → Works 0 s s
    work :
        {n : ℕ} {s t u : System}
        → Step capacity on_idle s t
        → total to_come t.threads < total to_come s.threads
        → Works n t u
        → Works (suc n) s u

  -- A step that leaves fewer events to come leaves one fewer.
  Step-one :
      {s t : System}
      → Step capacity on_idle s t
      → total to_come t.threads < total to_come s.threads
      → suc (total to_come t.threads) ≡ total to_come s.threads
  Step-one (arrive es sound) less = absurd (omega arith)
  Step-one {s} (advance xs ys e es h at ready) less = omega (
    arith,
    ap (total to_come) at,
    total-split to_come xs (record { held = h; rest = e ∷ es }) ys,
    total-split to_come xs (record { held = after_event e h; rest = es }) ys,
  )
  Step-one (swaps h) less = absurd (omega arith)
  Step-one (reclaimed h) less = absurd (omega arith)

  -- All requests done, and everything given back.
  pub record IsDone (s : System) : Type 0 where
    pub over : total to_come s.threads ≡ 0
    pub free : s.pool.used ≡ 0
    pub idle : s.pool.active ≡ pos 0

  -- As many steps as events are to come end all requests.
  pub finish :
      (n : ℕ) {s : System}
      → Reach capacity on_idle s
      → 0 < capacity
      → total to_come s.threads ≡ n
      → (t : System) × Works n s t × IsDone t
  finish zero {s} r workers none_left =
      let (free, idle) = Reach-drained capacity on_idle r none_left in
      (s, stay, record { over = none_left; free = free; idle = idle })
  finish (suc n) {s} r workers left =
      let (t, st, less) = Reach-progress capacity on_idle r workers (omega arith) in
      let (u, w, done) = finish n (later r st) workers (omega (arith, Step-one st less)) in
      (u, work st less w, done)
