-- ===== src/AudioEngine/Pool.antt =====
-- The fields of `Engine` that all requests share, in internal/audioengine/engine.go: the semaphore,
-- `active` and `scavenging`, with `Hold`, `endActive` and `scavenge`. `active` does not wrap, as
-- no process has 2 ^ 63 goroutines.
pub mod Bracket
pub mod System
pub mod Safety
pub mod Progress
pub mod Idle
pub mod Spec
pub mod Drain
use audio_service.Base.{ℕ, ◌+◌, ◌-◌, ◌<◌, Bool, true, false, ◌&&◌, ◌==◌, if◌then◌else◌}
use audio_service.Base.Int.{ℤ, pos, negsuc, ◌+ℤ◌, ◌-ℤ◌}
use audio_service.Effects.{
  Event, take_slot, free_slot, active_up, active_down, exec, temp_created, temp_removed, upload,
  ask,
}

-- `used` is the number of tokens in the channel `sem`. `due` counts the goroutines that have found
-- the counter at 0 and have not yet come to the compare-and-swap, and `scavenges` those that were
-- started to reclaim memory.
pub record Pool : Type 0 where
  pub used : ℕ
  pub active : ℤ
  pub due : ℕ
  pub scavenging : Bool
  pub scavenges : ℕ

abbrev pub empty_pool : Pool
empty_pool = record { used = 0; active = pos 0; due = 0; scavenging = false; scavenges = 0 }

abbrev is_zero : ℤ → Bool
is_zero (pos n) = n == 0
is_zero (negsuc n) = false

-- The compare-and-swap, and the start of the goroutine.
unfoldable pub scavenge : Pool → Pool
scavenge p = if p.scavenging then p else record p { scavenging = true; scavenges = p.scavenges + 1 }

-- The end of that goroutine.
unfoldable pub scavenged : Pool → Pool
scavenged p = record p { scavenging = false }

-- The decrement, and the test of what it gives. The call of `scavenge` that the test leads to is
-- due from then on: other goroutines may run before it.
unfoldable pub end_active : Bool → Pool → Pool
unfolding ◌-ℤ◌
end_active scavenge_on_idle p =
    let p' = record p { active = p.active -ℤ pos 1 } in
    if is_zero p'.active && scavenge_on_idle then record p' { due = p'.due + 1 } else p'

-- A call of `scavenge` that was due.
unfoldable pub swap : Pool → Pool
unfolding scavenge
swap p = scavenge (record p { due = p.due - 1 })

unfoldable pub begin_active : Pool → Pool
unfolding ◌+ℤ◌
begin_active p = record p { active = p.active +ℤ pos 1 }

-- What an event does to the pool. A receive from `sem` finds the token that was sent.
unfoldable pub apply : Bool → Event → Pool → Pool
unfolding begin_active end_active
apply on_idle take_slot p = record p { used = p.used + 1 }
apply on_idle free_slot p = record p { used = p.used - 1 }
apply on_idle active_up p = begin_active p
apply on_idle active_down p = end_active on_idle p
apply on_idle (exec ctx cmd) p = p
apply on_idle temp_created p = p
apply on_idle temp_removed p = p
apply on_idle (upload ctx url file) p = p
apply on_idle (ask ctx req) p = p

-- The function that `Hold` returns, over the state of its sync.Once.
unfoldable pub release_once : Bool → Bool → Pool → Bool × Pool
unfolding end_active
release_once on_idle true p = (true, p)
release_once on_idle false p = (true, end_active on_idle p)
