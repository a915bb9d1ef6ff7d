-- ===== src/AudioEngine/Pool/System.antt =====
-- Any number of requests that interleave their events over one pool.
use audio_service.Base.{ℕ, ◌+◌, ◌≤◌, ◌<◌, ◌≡◌, Bool, true, List, [], ◌∷◌, ◌++◌, All, arith}
use audio_service.Base.Int.{pos}
use audio_service.Effects.{Event, take_slot}
use audio_service.AudioEngine.Pool.{Pool, empty_pool, apply, swap, scavenged}
use audio_service.AudioEngine.Pool.Bracket.{Holding, nothing, after_event, Leads}

-- A request under way: what it holds, and the events to come.
pub record Thread : Type 0 where
  pub held : Holding
  pub rest : List Event

-- Its events to come give everything back.
abbrev pub IsSound : Thread → Type 0
IsSound t = Leads t.rest t.held nothing

pub record System : Type 0 where
  pub pool : Pool
  pub threads : List Thread

abbrev pub start : System
start = record { pool = empty_pool; threads = [] }

-- A send to the full channel waits.
abbrev pub IsReady : ℕ → Event → Pool → Type 0
IsReady capacity take_slot p = p.used < capacity
IsReady capacity e p = Unit

-- A request arrives; one of them makes its next event; a call of `scavenge` that is due is made; the
-- goroutine that reclaims memory ends. The goroutine whose call is due is not held back, as what it
-- does next has no use for what the call changes.
pub data Step (capacity : ℕ) (on_idle : Bool) (s : System) : System → Type 0 where
  arrive :
      (es : List Event)
      → IsSound (record { held = nothing; rest = es })
      → Step capacity on_idle s
          (record s { threads = record { held = nothing; rest = es } ∷ s.threads })
  advance :
      (xs ys : List Thread) (e : Event) (es : List Event) (h : Holding)
      → s.threads ≡ xs ++ record { held = h; rest = e ∷ es } ∷ ys
      → IsReady capacity e s.pool
      → Step capacity on_idle s (record {
        pool = apply on_idle e s.pool;
        threads = xs ++ record { held = after_event e h; rest = es } ∷ ys;
      })
  swaps : 0 < s.pool.due → Step capacity on_idle s (record s { pool = swap s.pool })
  reclaimed :
      s.pool.scavenging ≡ true → Step capacity on_idle s (record s { pool = scavenged s.pool })

pub data Reach (capacity : ℕ) (on_idle : Bool) : System → Type 0 where
  here : Reach capacity on_idle start
  later :
      {s t : System}
      → Reach capacity on_idle s
      → Step capacity on_idle s t
      → Reach capacity on_idle t

-- The sum of a measure over the requests.
abbrev pub total : (Thread → ℕ) → List Thread → ℕ
total f [] = 0
total f (t ∷ ts) = f t + total f ts

pub total-split :
    (f : Thread → ℕ) (xs : List Thread) (t : Thread) (ys : List Thread)
    → total f (xs ++ t ∷ ys) ≡ total f xs + f t + total f ys
total-split f [] t ys = omega arith
total-split f (x ∷ xs) t ys = omega (arith, total-split f xs t ys)

pub All-split :
    (P : Thread → Type 0) (xs : List Thread) (t : Thread) (ys : List Thread)
    → All P (xs ++ t ∷ ys)
    → P t
All-split P [] t ys h = h.0
All-split P (x ∷ xs) t ys h = All-split P xs t ys h.1

pub All-replace :
    (P : Thread → Type 0) (xs : List Thread) (t u : Thread) (ys : List Thread)
    → All P (xs ++ t ∷ ys)
    → P u
    → All P (xs ++ u ∷ ys)
All-replace P [] t u ys h p = (p, h.1)
All-replace P (x ∷ xs) t u ys h p = (h.0, All-replace P xs t u ys h.1 p)

abbrev pub slots_of : Thread → ℕ
slots_of t = t.held.slots

abbrev pub busy_of : Thread → ℕ
busy_of t = t.held.busy

-- The channel holds a token for each slot, and the counter counts the marks.
pub record Inv (capacity : ℕ) (s : System) : Type 0 where
  pub bounded : s.pool.used ≤ capacity
  pub slots : s.pool.used ≡ total slots_of s.threads
  pub marks : s.pool.active ≡ pos (total busy_of s.threads)
  pub sound : All IsSound s.threads
