-- ===== src/AudioEngine/Pool/Idle.antt =====
-- When memory is reclaimed.
use audio_service.Base.{
  ℕ, suc, ◌+◌, ◌≤◌, ◌<◌, ◌≡◌, refl, ◌⊎◌, inl, inr, Bool, true, false, if◌then◌else◌, arith,
}
use audio_service.Base.Int.{pos}
use audio_service.Effects.{Event, take_slot, free_slot, active_up, active_down}
use audio_service.AudioEngine.Pool.{Pool, apply, end_active, swap, scavenged, release_once}
use audio_service.AudioEngine.Pool.System.{
  System, Step, arrive, advance, swaps, reclaimed, Reach, here, later,
}

-- A reclaiming goroutine was started: the setting allows it, none was running, and it uses up one
-- of the calls that are due since a decrement to 0.
pub record Started (on_idle : Bool) (p q : Pool) : Type 0 where
  pub enabled : on_idle ≡ true
  pub alone : p.scavenging ≡ false
  pub used_up : p.due ≡ suc q.due
  pub marked : q.scavenging ≡ true
  pub counted : q.scavenges ≡ p.scavenges + 1

-- One event starts nothing, and makes a call due only by a decrement to 0 under the setting.
apply-due :
    (on_idle : Bool) (e : Event) (p : Pool)
    → ((apply on_idle e p).scavenges ≡ p.scavenges)
      × (((apply on_idle e p).due ≡ p.due)
          ⊎ ((on_idle ≡ true)
              × ((apply on_idle e p).active ≡ pos 0)
              × ((apply on_idle e p).due ≡ suc p.due)))
unfolding apply
apply-due i take_slot p = (refl, inl refl)
apply-due i free_slot p = (refl, inl refl)
apply-due i active_up p = (refl, inl refl)
apply-due i active_down p = ground arith
apply-due i _ p = (refl, inl refl)

swap-starts :
    (on_idle : Bool) (p : Pool)
    → on_idle ≡ true
    → 0 < p.due
    → ((swap p).scavenges ≡ p.scavenges) ⊎ Started on_idle p (swap p)
unfolding swap
swap-starts i p e h = ground arith

swap-due : (p : Pool) → (swap p).due ≤ p.due
unfolding swap
swap-due p = ground arith

module _ (capacity : ℕ) (on_idle : Bool) where
  -- A call of `scavenge` is due only where the setting allows it.
  Reach-due : {s : System} → Reach capacity on_idle s → 0 < s.pool.due → on_idle ≡ true
  unfolding scavenged
  Reach-due here h = absurd (omega arith)
  Reach-due (later r (arrive es sound)) h = Reach-due r h
  Reach-due (later {s} r (advance xs ys e es k at ready)) h = elim (apply-due on_idle e s.pool).1 [
    | inl same ↦ Reach-due r (omega (arith, same))
    | inr (enabled, idle, more) ↦ enabled
  ]
  Reach-due (later {s} r (swaps more)) h = Reach-due r more
  Reach-due (later r (reclaimed g)) h = Reach-due r h

  -- From a reachable state, a step starts a goroutine that reclaims memory only if the setting
  -- allows it and none is running; it starts one at most, and uses up one of the calls that are due.
  -- A step makes a call due only if it leaves nothing active, and then one.
  pub Step-scavenges :
      {s t : System}
      → Reach capacity on_idle s
      → Step capacity on_idle s t
      → ((t.pool.scavenges ≡ s.pool.scavenges) ⊎ Started on_idle s.pool t.pool)
        × ((t.pool.due ≤ s.pool.due) ⊎ ((t.pool.active ≡ pos 0) × (t.pool.due ≡ suc s.pool.due)))
  unfolding scavenged
  Step-scavenges r (arrive es sound) = (inl refl, inl (omega arith))
  Step-scavenges {s} r (advance xs ys e es h at ready) =
      let (same, made) = apply-due on_idle e s.pool in
      (
        inl same,
        elim made [
          | inl kept ↦ inl (omega (arith, kept))
          | inr (enabled, idle, more) ↦ inr (idle, more)
        ],
      )
  Step-scavenges {s} r (swaps more) =
      (swap-starts on_idle s.pool (Reach-due r more) more, inl (swap-due s.pool))
  Step-scavenges r (reclaimed h) = (inl refl, inl (omega arith))

-- The end of the last activity has a call due, where the setting asks for it, and the call has a
-- goroutine run: a new one if none was running.
pub end_active-drains :
    (p : Pool)
    → p.active ≡ pos 1
    → ((end_active true p).active ≡ pos 0)
      × ((swap (end_active true p)).scavenging ≡ true)
      × ((swap (end_active true p)).scavenges
          ≡ (if p.scavenging then p.scavenges else p.scavenges + 1))
unfolding end_active swap
end_active-drains p h = ground arith

-- The function that `Hold` returns ends one activity, however often it is called.
pub release_once-twice :
    (on_idle : Bool) (p : Pool)
    → release_once on_idle (release_once on_idle false p).0 (release_once on_idle false p).1
      ≡ (true, end_active on_idle p)
unfolding release_once
release_once-twice on_idle p = refl
