-- ===== src/RuntimeTune.antt =====
-- internal/runtimetune/runtimetune.go. What it logs is left out.
pub mod Limit
use audio_service.Base.{
  ℕ, ◌-◌, ◌*◌, ◌^◌, Bool, ◌||◌, Option, none, some, List, [], ◌∷◌, ◌++◌, if◌then◌else◌,
}
use audio_service.Base.Int.{ℤ, pos, negsuc, leb_ℤ, half64}
use audio_service.Base.Text.{Text, codes, text_eq, is_empty, trim_space, parse_int}
use audio_service.Base.Utf8.{runes}
use audio_service.Base.Float.{Floats}
use audio_service.Settings.{Settings}

abbrev pub cgroup_v2_max : Text
cgroup_v2_max = codes "sys/fs/cgroup/memory.max"

abbrev pub cgroup_v1_limit : Text
cgroup_v1_limit = codes "sys/fs/cgroup/memory/memory.limit_in_bytes"

abbrev pub unlimited_threshold : ℤ
unlimited_threshold = pos (2 ^ 62)

-- `n <= 0 || n >= unlimitedThreshold`, and no number at all.
abbrev finite : Option ℤ → Option ℤ
finite none = none
finite (some n) = if leb_ℤ n (pos 0) || leb_ℤ unlimited_threshold n then none else some n

abbrev limit_of_file : Option (List ℕ) → Option ℤ
limit_of_file none = none
limit_of_file (some b) =
    let s = trim_space (runes b) in
    if is_empty s || text_eq s (codes "max") then none else finite (parse_int s)

-- `root` answers fs.ReadFile, with `none` for an error.
unfoldable pub read_limit : (Text → Option (List ℕ)) → Text → Option ℤ
read_limit root name = limit_of_file (root name)

abbrev or_read : Option ℤ → Option ℤ → Option ℤ
or_read (some v) second = some v
or_read none second = second

unfoldable pub cgroup_memory_limit : (Text → Option (List ℕ)) → Option ℤ
cgroup_memory_limit root = or_read (read_limit root cgroup_v2_max) (read_limit root cgroup_v1_limit)

-- debug.SetGCPercent and debug.SetMemoryLimit.
pub data Setting : Type 0 where
  set_gc_percent : ℤ → Setting
  set_memory_limit : ℤ → Setting

module _ (fl : Floats) where
  open fl use {Float, of_int, mul, less, less_eq, is_nan, to_int64}

  abbrev pub max_int64 : ℤ
  max_int64 = pos (half64 - 1)

  abbrev pub min_int64 : ℤ
  min_int64 = negsuc (half64 - 1)

  -- The product, where it is a number of the range of an int64, as an int64 that is positive.
  unfoldable pub soft_limit : Float → Option ℤ
  soft_limit product =
      if is_nan product || (less_eq (of_int max_int64) product || less product (of_int min_int64))
      then none
      else (if leb_ℤ (to_int64 product) (pos 0) then none else some (to_int64 product))

  abbrev limited : Option ℤ → List Setting
  limited none = []
  limited (some soft) = set_memory_limit soft ∷ []

  abbrev scaled : Option ℤ → Float → Option ℤ
  scaled none ratio = none
  scaled (some limit) ratio = soft_limit (mul (of_int limit) ratio)

  -- A limit in the environment is left alone.
  abbrev unless_set : Option Text → List Setting → List Setting
  unless_set (some v) derived = []
  unless_set none derived = derived

  -- From the look at GOMEMLIMIT on; `env` answers it.
  unfoldable pub apply_memory_limit :
      Settings Float → (Text → Option (List ℕ)) → (Text → Option Text) → List Setting
  apply_memory_limit cfg root env = unless_set (env (codes "GOMEMLIMIT")) (
      if less_eq cfg.memory_limit_ratio (of_int (pos 0))
      then []
      else limited (scaled (cgroup_memory_limit root) cfg.memory_limit_ratio))

  unfoldable pub apply_settings :
      Settings Float → (Text → Option (List ℕ)) → (Text → Option Text) → List Setting
  apply_settings cfg root env =
      (if leb_ℤ cfg.gc_percent (pos 0) then [] else set_gc_percent cfg.gc_percent ∷ [])
      ++ apply_memory_limit cfg root env
