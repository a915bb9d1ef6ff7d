-- ===== src/Examples/Sharing.antt =====
-- Examples for requests that share the engine.
use audio_service.Base.{◌≤◌, ◌≡◌, ◌⊎◌, refl, true, suc, [], ◌∷◌, arith}
use audio_service.Base.Int.{pos}
use audio_service.Effects.{active_up, active_down}
use audio_service.AudioEngine.Pool.{empty_pool, apply, end_active, swap, scavenge}
use audio_service.AudioEngine.Pool.Bracket.{Holding, nothing, after_event}
use audio_service.AudioEngine.Pool.System.{
  System, start, Step, arrive, advance, swaps, Reach, here, later,
}
use audio_service.AudioEngine.Pool.Idle.{Started, Step-scavenges}
use audio_service.AudioEngine.Pool.Spec.{Load, unloaded}

-- A request that holds the engine and lets it go, where memory is to be reclaimed.
abbrev holding : System
holding = record start {
  threads = record { held = nothing; rest = active_up ∷ active_down ∷ [] } ∷ [];
}

holds : Step 2 true start holding
holds = arrive (active_up ∷ active_down ∷ []) (tt, (omega arith, refl))

abbrev marked : Holding
marked = after_event active_up nothing

abbrev busy : System
busy = record {
  pool = apply true active_up empty_pool;
  threads = record { held = marked; rest = active_down ∷ [] } ∷ [];
}

abbrev ended : System
ended = record {
  pool = apply true active_down busy.pool;
  threads = record { held = after_event active_down marked; rest = [] } ∷ [];
}

begins : Reach 2 true busy
begins = later (later here holds) (advance [] [] active_up (active_down ∷ []) nothing refl tt)

ends : Step 2 true busy ended
ends = advance [] [] active_down [] marked refl tt

-- The decrement to 0 has made a call due.
one_due : ended.pool.due ≡ 1
unfolding apply end_active
one_due = refl

reclaims : Step 2 true ended (record ended { pool = swap ended.pool })
reclaims = swaps (omega (arith, one_due))

started : (swap ended.pool).scavenges ≡ 1
unfolding apply end_active swap scavenge
started = refl

Step-scavenges_example :
    (((swap ended.pool).scavenges ≡ ended.pool.scavenges)
      ⊎ Started true ended.pool (swap ended.pool))
    × (((swap ended.pool).due ≤ ended.pool.due)
        ⊎ (((swap ended.pool).active ≡ pos 0) × ((swap ended.pool).due ≡ suc ended.pool.due)))
Step-scavenges_example = Step-scavenges 2 true (later begins ends) reclaims

abbrev one_under_way : Load
one_under_way = record unloaded { under_way = 1 }
