-- ===== src/RuntimeTune/Limit.antt =====
-- Which memory limit is set at the start.
use audio_service.Base.{
  ℕ, ◌^◌, ◌-◌, ◌≡◌, refl, ◌∙◌, ◌⊎◌, inl, inr, false, ◌||◌, Bool-cases, Option, none, some,
  Option-cases, List, All, arith,
}
use audio_service.Base.Int.{ℤ, pos, negsuc, ◌<ℤ◌, leb_ℤ}
use audio_service.Base.Text.{Text, codes, text_eq, is_empty, trim_space, parse_int}
use audio_service.Base.Utf8.{runes}
use audio_service.Base.Float.{Floats}
use audio_service.Settings.{Settings}
use audio_service.RuntimeTune.{
  Setting, set_gc_percent, set_memory_limit, cgroup_v2_max, cgroup_v1_limit, unlimited_threshold,
  finite, limit_of_file, read_limit, cgroup_memory_limit, soft_limit, scaled, limited, max_int64,
  min_int64, apply_memory_limit, apply_settings,
}

abbrev pub IsFinite : ℤ → Type 0
IsFinite n = (pos 0 <ℤ n) × (n <ℤ unlimited_threshold)

finite-IsFinite : (o : Option ℤ) (n : ℤ) → finite o ≡ some n → IsFinite n
finite-IsFinite none n h = cc
finite-IsFinite (some m) n h = ground arith

limit_of_file-IsFinite : (o : Option (List ℕ)) (n : ℤ) → limit_of_file o ≡ some n → IsFinite n
limit_of_file-IsFinite none n h = cc
limit_of_file-IsFinite (some b) n h =
    elim (Bool-cases
      (is_empty (trim_space (runes b)) || text_eq (trim_space (runes b)) (codes "max"))) [
        | inl unlimited ↦ cc (rw unlimited at h)
        | inr number ↦ finite-IsFinite (parse_int (trim_space (runes b))) n (rw number at h)
      ]

read_limit-IsFinite :
    (root : Text → Option (List ℕ)) (name : Text) (n : ℤ)
    → read_limit root name ≡ some n
    → IsFinite n
unfolding read_limit
read_limit-IsFinite root name n h = limit_of_file-IsFinite (root name) n h

-- A limit of the container is positive and below 2 ^ 62; it is that of the file of version 2, or
-- that of version 1 where the first has none.
pub cgroup_memory_limit-IsFinite :
    (root : Text → Option (List ℕ)) (n : ℤ)
    → cgroup_memory_limit root ≡ some n
    → IsFinite n
      × ((read_limit root cgroup_v2_max ≡ some n)
          ⊎ ((read_limit root cgroup_v2_max ≡ none) × (read_limit root cgroup_v1_limit ≡ some n)))
unfolding cgroup_memory_limit
cgroup_memory_limit-IsFinite root n h = elim (Option-cases (read_limit root cgroup_v2_max)) [
  | inr (v, e) ↦
      let second : read_limit root cgroup_v2_max ≡ some n = e ∙ (rw e at h) in
      (read_limit-IsFinite root cgroup_v2_max n second, inl second)
  | inl e ↦
      let first : read_limit root cgroup_v1_limit ≡ some n = rw e at h in
      (read_limit-IsFinite root cgroup_v1_limit n first, inr (e, first))
]

module _ (fl : Floats) (cfg : Settings fl.Float) (root : Text → Option (List ℕ))
    (env : Text → Option Text) where
  -- Where a memory limit comes from.
  pub record IsDerived (soft : ℤ) : Type 0 where
    pub unset : env (codes "GOMEMLIMIT") ≡ none
    pub limit : ℤ
    pub contained : cgroup_memory_limit root ≡ some limit
    pub share : soft ≡ fl.to_int64 (fl.mul (fl.of_int limit) cfg.memory_limit_ratio)
    pub positive : pos 0 <ℤ soft
    pub a_number : fl.is_nan (fl.mul (fl.of_int limit) cfg.memory_limit_ratio) ≡ false
    pub below :
        fl.less_eq (fl.of_int (pos (2 ^ 63 - 1))) (fl.mul (fl.of_int limit) cfg.memory_limit_ratio)
        ≡ false
    pub above :
        fl.less (fl.mul (fl.of_int limit) cfg.memory_limit_ratio) (fl.of_int (negsuc (2 ^ 63 - 1)))
        ≡ false

  -- What a setting of the runtime is.
  abbrev pub IsMeant : Setting → Type 0
  IsMeant (set_gc_percent n) = (n ≡ cfg.gc_percent) × (pos 0 <ℤ n)
  IsMeant (set_memory_limit soft) = IsDerived soft

  soft_limit-positive :
      (product : fl.Float) (soft : ℤ)
      → soft_limit fl product ≡ some soft
      → (soft ≡ fl.to_int64 product)
        × (pos 0 <ℤ soft)
        × (fl.is_nan product ≡ false)
        × (fl.less_eq (fl.of_int (max_int64 fl)) product ≡ false)
        × (fl.less product (fl.of_int (min_int64 fl)) ≡ false)
  unfolding soft_limit
  soft_limit-positive product soft h = ground arith

  limited-IsMeant :
      (o : Option ℤ) → ((soft : ℤ) → o ≡ some soft → IsDerived soft) → All IsMeant (limited fl o)
  limited-IsMeant none h = tt
  limited-IsMeant (some soft) h = (h soft refl, tt)

  scaled-IsDerived :
      (o : Option ℤ)
      → env (codes "GOMEMLIMIT") ≡ none
      → cgroup_memory_limit root ≡ o
      → (soft : ℤ) → scaled fl o cfg.memory_limit_ratio ≡ some soft
      → IsDerived soft
  scaled-IsDerived none unset found soft h = cc
  scaled-IsDerived (some limit) unset found soft h =
      let p = soft_limit-positive (fl.mul (fl.of_int limit) cfg.memory_limit_ratio) soft h in
      record {
        unset = unset;
        limit = limit;
        contained = found;
        share = p.0;
        positive = p.1;
        a_number = p.2;
        below = p.3;
        above = p.4;
      }

  apply_memory_limit-IsMeant : All IsMeant (apply_memory_limit fl cfg root env)
  unfolding apply_memory_limit
  apply_memory_limit-IsMeant = elim (Option-cases (env (codes "GOMEMLIMIT"))) [
    | inr (v, e) ↦ rw e tt
    | inl e ↦ rw e (elim (Bool-cases (fl.less_eq cfg.memory_limit_ratio (fl.of_int (pos 0)))) [
      | inl off ↦ rw off tt
      | inr on ↦ rw on (
          limited-IsMeant (scaled fl (cgroup_memory_limit root) cfg.memory_limit_ratio)
            (scaled-IsDerived (cgroup_memory_limit root) e refl))
    ])
  ]

  -- The start sets a garbage collection percentage only to the configured positive one, and a
  -- memory limit only where the environment has none: that limit is then positive, and it is the
  -- limit of the container times the configured ratio, a product that is a number, below 2 ^ 63 - 1 as a
  -- float64 and not below - 2 ^ 63.
  pub apply_settings-IsMeant : All IsMeant (apply_settings fl cfg root env)
  unfolding apply_settings
  apply_settings-IsMeant = elim (Bool-cases (leb_ℤ cfg.gc_percent (pos 0))) [
    | inl off ↦ rw off apply_memory_limit-IsMeant
    | inr on ↦ rw on ((refl, ground arith), apply_memory_limit-IsMeant)
  ]
