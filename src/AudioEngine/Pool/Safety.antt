-- ===== src/AudioEngine/Pool/Safety.antt =====
-- The invariant of the pool, and what it excludes.
use audio_service.Base.{ℕ, ◌+◌, ◌≤◌, ◌≡◌, refl, ap, ◌∙◌, Bool, List, ◌∷◌, ◌++◌, All, arith}
use audio_service.Base.Int.{pos}
use audio_service.Effects.{
  Event, take_slot, free_slot, active_up, active_down, exec, temp_created, temp_removed, upload,
  ask,
}
use audio_service.AudioEngine.Pool.{Pool, apply, swap, scavenged}
use audio_service.AudioEngine.Pool.Bracket.{Holding, Needs, after_event}
use audio_service.AudioEngine.Pool.System.{
  Thread, IsSound, System, IsReady, Step, arrive, advance, swaps, reclaimed, Reach, here, later,
  total, total-split, All-split, All-replace, slots_of, busy_of, Inv,
}

-- One event moves the pool as it moves the holding of its request; `a` and `b` stand for what the
-- other requests hold.
apply-counts :
    (capacity a b : ℕ) (on_idle : Bool) (e : Event) (h : Holding) (p : Pool)
    → Needs e h
    → IsReady capacity e p
    → p.used ≤ capacity
    → p.used ≡ a + h.slots
    → p.active ≡ pos (b + h.busy)
    → ((apply on_idle e p).used ≤ capacity)
      × ((apply on_idle e p).used ≡ a + (after_event e h).slots)
      × ((apply on_idle e p).active ≡ pos (b + (after_event e h).busy))
unfolding apply
apply-counts c a b i take_slot h p n r u s m = ground arith
apply-counts c a b i free_slot h p n r u s m = ground arith
apply-counts c a b i active_up h p n r u s m = ground arith
apply-counts c a b i active_down h p n r u s m = ground arith
apply-counts c a b i (exec ctx cmd) h p n r u s m = (u, s, m)
apply-counts c a b i temp_created h p n r u s m = (u, s, m)
apply-counts c a b i temp_removed h p n r u s m = (u, s, m)
apply-counts c a b i (upload ctx url file) h p n r u s m = (u, s, m)
apply-counts c a b i (ask ctx req) h p n r u s m = (u, s, m)

pub swap-counts : (p : Pool) → ((swap p).used ≡ p.used) × ((swap p).active ≡ p.active)
unfolding swap
swap-counts p = ground arith

module _ (capacity : ℕ) (on_idle : Bool) where
  advance-Inv :
      (s : System) (xs ys : List Thread) (e : Event) (es : List Event) (h : Holding)
      → s.threads ≡ xs ++ record { held = h; rest = e ∷ es } ∷ ys
      → IsReady capacity e s.pool
      → Inv capacity s
      → Inv capacity (record {
        pool = apply on_idle e s.pool;
        threads = xs ++ record { held = after_event e h; rest = es } ∷ ys;
      })
  advance-Inv s xs ys e es h at ready inv = record {
    bounded = counts.0;
    slots = omega (arith, counts.1, total-split slots_of xs after ys);
    marks = counts.2 ∙ ap pos (omega (arith, total-split busy_of xs after ys));
    sound = All-replace IsSound xs before after ys all sound.1;
  }
    where
      before : Thread
      before = record { held = h; rest = e ∷ es }

      after : Thread
      after = record { held = after_event e h; rest = es }

      all : All IsSound (xs ++ before ∷ ys)
      all = rw at at inv.sound

      sound : IsSound before
      sound = All-split IsSound xs before ys all

      others : (Thread → ℕ) → ℕ
      others f = total f xs + total f ys

      used : s.pool.used ≡ others slots_of + h.slots
      used = inv.slots ∙ (ap (total slots_of) at ∙ omega (arith, total-split slots_of xs before ys))

      active : s.pool.active ≡ pos (others busy_of + h.busy)
      active =
          inv.marks
          ∙ ap pos (ap (total busy_of) at ∙ omega (arith, total-split busy_of xs before ys))

      counts :
          ((apply on_idle e s.pool).used ≤ capacity)
          × ((apply on_idle e s.pool).used ≡ others slots_of + (after_event e h).slots)
          × ((apply on_idle e s.pool).active ≡ pos (others busy_of + (after_event e h).busy))
      counts =
          apply-counts capacity (others slots_of) (others busy_of) on_idle e h s.pool sound.0 ready
            inv.bounded used active

  Step-Inv : {s t : System} → Step capacity on_idle s t → Inv capacity s → Inv capacity t
  unfolding scavenged
  Step-Inv (arrive es sound) inv = record {
    bounded = inv.bounded;
    slots = omega (arith, inv.slots);
    marks = inv.marks ∙ ap pos (omega arith);
    sound = (sound, inv.sound);
  }
  Step-Inv {s} (advance xs ys e es h at ready) inv = advance-Inv s xs ys e es h at ready inv
  Step-Inv {s} (swaps h) inv =
      let (used, active) = swap-counts s.pool in
      record {
        bounded = omega (arith, inv.bounded, used);
        slots = used ∙ inv.slots;
        marks = active ∙ inv.marks;
        sound = inv.sound;
      }
  Step-Inv (reclaimed h) inv = record {
    bounded = inv.bounded;
    slots = inv.slots;
    marks = inv.marks;
    sound = inv.sound;
  }

  -- In every state that requests with balanced events can reach, in any order: no more worker
  -- slots are taken than there are; the semaphore holds exactly the slots of the requests; and
  -- `active` is exactly the number of their marks, so it is never negative.
  pub Reach-Inv : {s : System} → Reach capacity on_idle s → Inv capacity s
  Reach-Inv here = record { bounded = omega arith; slots = refl; marks = refl; sound = tt }
  Reach-Inv (later r st) = Step-Inv st (Reach-Inv r)
