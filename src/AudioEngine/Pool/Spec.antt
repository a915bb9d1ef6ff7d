-- ===== src/AudioEngine/Pool/Spec.antt =====
-- What the shared fields of `Engine` in internal/audioengine/engine.go promise, without the requests
-- and without the fields: so many requests at work, so many under way, so many reclaims of memory due and
-- so many begun.
use audio_service.Base.{
  ℕ, zero, suc, ◌≤◌, ◌<◌, ◌≡◌, refl, sym, ap, ◌⊎◌, inl, inr, ◌∙◌, Bool, true, List, ◌∷◌, ◌++◌,
  arith,
}
use audio_service.Base.Int.{pos, ◌+ℤ◌}
use audio_service.Effects.{Event, take_slot, free_slot, active_up, active_down}
use audio_service.AudioEngine.Pool.{Pool, apply, begin_active, end_active, swap, scavenged}
use audio_service.AudioEngine.Pool.Bracket.{Holding, Needs}
use audio_service.AudioEngine.Pool.System.{
  Thread, System, IsReady, Step, arrive, advance, swaps, reclaimed, Reach, here, later, total,
  total-split, All-split, IsSound, slots_of, busy_of,
}
use audio_service.AudioEngine.Pool.Safety.{Reach-Inv, swap-counts}

pub record Load : Type 0 where
  pub at_work : ℕ
  pub under_way : ℕ
  pub due : ℕ
  pub reclaims : ℕ

abbrev pub unloaded : Load
unloaded = record { at_work = 0; under_way = 0; due = 0; reclaims = 0 }

-- A change of the load: none, or one of the calls. Only the end of the last activity makes a reclaim
-- of memory due, and only where the setting asks for it; one that is due is made or left.
pub data Change (capacity : ℕ) (on_idle : Bool) (a : Load) : Load → Type 0 where
  unchanged : Change capacity on_idle a a
  admitted : a.at_work < capacity → Change capacity on_idle a (record a { at_work = suc a.at_work })
  discharged : (n : ℕ) → a.at_work ≡ suc n → Change capacity on_idle a (record a { at_work = n })
  began : Change capacity on_idle a (record a { under_way = suc a.under_way })
  ended : (n : ℕ) → a.under_way ≡ suc n → Change capacity on_idle a (record a { under_way = n })
  ended_last :
      on_idle ≡ true
      → a.under_way ≡ 1
      → Change capacity on_idle a (record a { under_way = 0; due = suc a.due })
  made :
      (n : ℕ)
      → a.due ≡ suc n
      → Change capacity on_idle a (record a { due = n; reclaims = suc a.reclaims })
  left_out : (n : ℕ) → a.due ≡ suc n → Change capacity on_idle a (record a { due = n })

-- The fields that stand for a load.
pub record Models (p : Pool) (a : Load) : Type 0 where
  pub tokens : p.used ≡ a.at_work
  pub count : p.active ≡ pos a.under_way
  pub owed : p.due ≡ a.due
  pub started : p.scavenges ≡ a.reclaims

-- A change of the load that the new fields stand for.
abbrev pub Follows : ℕ → Bool → Load → Pool → Type 0
Follows capacity on_idle a q = (b : Load) × Change capacity on_idle a b × Models q b

positive : (n : ℕ) → 0 < n → (m : ℕ) × (n ≡ suc m)
positive zero h = absurd (omega arith)
positive (suc n) h = (n, refl)

-- The end of an activity, with what it does to the other fields.
end_active-fields :
    (on_idle : Bool) (p : Pool) (n : ℕ)
    → p.active ≡ pos (suc n)
    → ((end_active on_idle p).used ≡ p.used)
      × ((end_active on_idle p).active ≡ pos n)
      × ((end_active on_idle p).scavenges ≡ p.scavenges)
      × (((end_active on_idle p).due ≡ p.due)
          ⊎ ((on_idle ≡ true) × (n ≡ 0) × ((end_active on_idle p).due ≡ suc p.due)))
unfolding end_active
end_active-fields on_idle p n h = ground arith

ended-Follows :
    (capacity : ℕ) (on_idle : Bool) (p : Pool) (a : Load) (n : ℕ)
    → a.under_way ≡ suc n
    → Models p a
    → Follows capacity on_idle a (end_active on_idle p)
ended-Follows c i p a n h m =
    let (used, active, begun, kept) = end_active-fields i p n (m.count ∙ ap pos h) in
    elim kept [
      | inl same ↦ (
        record a { under_way = n },
        ended n h,
        record {
          tokens = used ∙ m.tokens;
          count = active;
          owed = same ∙ m.owed;
          started = begun ∙ m.started;
        },
      )
      | inr (allowed, last, more) ↦ (
        record a { under_way = 0; due = suc a.due },
        ended_last allowed (h ∙ ap suc last),
        record {
          tokens = used ∙ m.tokens;
          count = active ∙ ap pos last;
          owed = more ∙ ap suc m.owed;
          started = begun ∙ m.started;
        },
      )
    ]

-- A call of `scavenge` that was due.
swap-fields :
    (p : Pool) (n : ℕ)
    → p.due ≡ suc n
    → ((swap p).due ≡ n)
      × (((swap p).scavenges ≡ suc p.scavenges) ⊎ ((swap p).scavenges ≡ p.scavenges))
unfolding swap
swap-fields p n h = ground arith

swap-Follows :
    (capacity : ℕ) (on_idle : Bool) (p : Pool) (a : Load)
    → 0 < p.due
    → Models p a
    → Follows capacity on_idle a (swap p)
swap-Follows c i p a h m =
    let (n, at) = positive a.due (omega (arith, m.owed)) in
    let (used, active) = swap-counts p in
    let (left, begun) = swap-fields p n (m.owed ∙ at) in
    elim begun [
      | inl more ↦ (
        record a { due = n; reclaims = suc a.reclaims },
        made n at,
        record {
          tokens = used ∙ m.tokens;
          count = active ∙ m.count;
          owed = left;
          started = more ∙ ap suc m.started;
        },
      )
      | inr same ↦ (
        record a { due = n },
        left_out n at,
        record {
          tokens = used ∙ m.tokens;
          count = active ∙ m.count;
          owed = left;
          started = same ∙ m.started;
        },
      )
    ]

apply-Follows :
    (capacity : ℕ) (on_idle : Bool) (e : Event) (h : Holding) (p : Pool) (a : Load)
    → Needs e h
    → IsReady capacity e p
    → h.slots ≤ a.at_work
    → h.busy ≤ a.under_way
    → Models p a
    → Follows capacity on_idle a (apply on_idle e p)
unfolding apply begin_active ◌+ℤ◌
apply-Follows c i take_slot h p a n r u v m = (
  _,
  admitted (omega (arith, m.tokens)),
  record { tokens = omega (arith, m.tokens); count = m.count; owed = m.owed; started = m.started },
)
apply-Follows c i free_slot h p a n r u v m =
    let (k, at) = positive a.at_work (omega arith) in
    (
      _,
      discharged k at,
      record {
        tokens = omega (arith, m.tokens);
        count = m.count;
        owed = m.owed;
        started = m.started;
      },
    )
apply-Follows c i active_up h p a n r u v m = (
  _,
  began,
  record { tokens = m.tokens; count = ground arith; owed = m.owed; started = m.started },
)
apply-Follows c i active_down h p a n r u v m =
    let (k, at) = positive a.under_way (omega arith) in ended-Follows c i p a k at m
apply-Follows c i _ h p a n r u v m = (a, unchanged, m)

-- One request's share of a sum.
share :
    (f : Thread → ℕ) (ts xs : List Thread) (t : Thread) (ys : List Thread)
    → ts ≡ xs ++ t ∷ ys
    → f t ≤ total f ts
share f ts xs t ys at = rw at (omega (arith, total-split f xs t ys))

pos-injective : {m n : ℕ} → pos m ≡ pos n → m ≡ n
pos-injective h = cc

module _ (capacity : ℕ) (on_idle : Bool) where
  pub Step-Follows :
      {s t : System} (a : Load)
      → Reach capacity on_idle s
      → Models s.pool a
      → Step capacity on_idle s t
      → Follows capacity on_idle a t.pool
  unfolding scavenged
  Step-Follows a r m (arrive es sound) = (a, unchanged, m)
  Step-Follows {s} a r m (advance xs ys e es h at ready) =
      let inv = Reach-Inv capacity on_idle r in
      let now : Thread = record { held = h; rest = e ∷ es } in
      let marks : a.under_way ≡ total busy_of s.threads = pos-injective (sym m.count ∙ inv.marks) in
      apply-Follows capacity on_idle e h s.pool a
        (All-split IsSound xs now ys (rw at at inv.sound)).0 ready
        (omega (arith, m.tokens, inv.slots, share slots_of s.threads xs now ys at))
        (omega (arith, marks, share busy_of s.threads xs now ys at)) m
  Step-Follows {s} a r m (swaps h) = swap-Follows capacity on_idle s.pool a h m
  Step-Follows a r m (reclaimed h) = (
    a,
    unchanged,
    record { tokens = m.tokens; count = m.count; owed = m.owed; started = m.started },
  )

  -- A load that the allowed changes lead to from the empty one.
  pub data Allowed : Load → Type 0 where
    at_first : Allowed unloaded
    then_ : {a b : Load} → Allowed a → Change capacity on_idle a b → Allowed b

  Change-bounded :
      {a b : Load} → Change capacity on_idle a b → a.at_work ≤ capacity → b.at_work ≤ capacity
  Change-bounded unchanged h = h
  Change-bounded (admitted free) h = omega arith
  Change-bounded (discharged n at) h = omega arith
  Change-bounded began h = h
  Change-bounded (ended n at) h = h
  Change-bounded (ended_last allowed at) h = h
  Change-bounded (made n at) h = h
  Change-bounded (left_out n at) h = h

  -- The allowed changes never put more at work than there are workers.
  pub Allowed-bounded : {a : Load} → Allowed a → a.at_work ≤ capacity
  Allowed-bounded at_first = omega arith
  Allowed-bounded (then_ d c) = Change-bounded c (Allowed-bounded d)

  -- The fields of every reachable state stand for a load that the allowed changes lead to.
  pub Reach-Allowed :
      {s : System} → Reach capacity on_idle s → (a : Load) × Allowed a × Models s.pool a
  Reach-Allowed here =
      (unloaded, at_first, record { tokens = refl; count = refl; owed = refl; started = refl })
  Reach-Allowed (later r st) =
      let (a, d, m) = Reach-Allowed r in let (b, c, k) = Step-Follows a r m st in (b, then_ d c, k)
