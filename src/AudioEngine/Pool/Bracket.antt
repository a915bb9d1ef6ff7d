-- ===== src/AudioEngine/Pool/Bracket.antt =====
-- Sequences of events in which a request gives back what it takes, and does its work while it
-- holds what the work needs.
use audio_service.Base.{ℕ, zero, suc, ◌<◌, ◌≡◌, List, [], ◌∷◌, ◌++◌}
use audio_service.Effects.{
  Event, take_slot, free_slot, active_up, active_down, exec, temp_created, temp_removed, upload,
  ask,
}

-- What a request holds: worker slots, counts of `active`, temporary files.
pub record Holding : Type 0 where
  pub slots : ℕ
  pub busy : ℕ
  pub files : ℕ

abbrev pub nothing : Holding
nothing = record { slots = 0; busy = 0; files = 0 }

-- What an event needs: a request takes a slot only if it has none, a process runs and a file is
-- uploaded under a slot, and Gemini is called with no slot while the engine is marked busy.
abbrev pub Needs : Event → Holding → Type 0
Needs take_slot h = h.slots ≡ 0
Needs free_slot h = h.slots ≡ 1
Needs active_up h = Unit
Needs active_down h = 0 < h.busy
Needs (exec ctx cmd) h = (h.slots ≡ 1) × (0 < h.busy)
Needs temp_created h = Unit
Needs temp_removed h = 0 < h.files
Needs (upload ctx url file) h = (h.slots ≡ 1) × (0 < h.busy)
Needs (ask ctx req) h = (h.slots ≡ 0) × (0 < h.busy)

abbrev less_one : ℕ → ℕ
less_one zero = zero
less_one (suc n) = n

-- What is held after an event.
abbrev pub after_event : Event → Holding → Holding
after_event take_slot h = record h { slots = suc h.slots }
after_event free_slot h = record h { slots = less_one h.slots }
after_event active_up h = record h { busy = suc h.busy }
after_event active_down h = record h { busy = less_one h.busy }
after_event temp_created h = record h { files = suc h.files }
after_event temp_removed h = record h { files = less_one h.files }
after_event (exec ctx cmd) h = h
after_event (upload ctx url file) h = h
after_event (ask ctx req) h = h

-- The events go from one holding to another, each with what it needs.
abbrev pub Leads : List Event → Holding → Holding → Type 0
Leads [] h k = h ≡ k
Leads (e ∷ es) h k = Needs e h × Leads es (after_event e h) k

pub Leads-append :
    (es fs : List Event) (h k l : Holding) → Leads es h k → Leads fs k l → Leads (es ++ fs) h l
Leads-append [] fs h k l e f = rw e f
Leads-append (e ∷ es) fs h k l (n, r) f = (n, Leads-append es fs (after_event e h) k l r f)
