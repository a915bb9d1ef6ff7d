-- ===== src/Logging/Levels.antt =====
-- What the names of levels hide, which `parseLevel` of internal/logging/logging.go reads.
use audio_service.Base.{
  ◌≡◌, ◌≢◌, refl, ◌⊎◌, inl, inr, Bool, true, false, ◌||◌, Bool-cases, leb, if◌then◌else◌,
}
use audio_service.Base.Text.{Text, codes, text_eq, trim_space, to_lower}
use audio_service.Base.Text.Laws.{text_eq_iff}
use audio_service.Logging.{Level, level_debug, level_info, level_warn, level_error, parse_level}
use audio_service.Logging.Setup.{rank}

-- The names that hide what is logged as information.
abbrev pub IsQuiet : Text → Type 0
IsQuiet name = (name ≡ codes "warn") ⊎ ((name ≡ codes "warning") ⊎ (name ≡ codes "error"))

-- Something is hidden exactly under a condition.
abbrev pub Hidden : Type 0 → Bool → Type 0
Hidden P shown = (P × (shown ≡ false)) ⊎ ((¬ P) × (shown ≡ true))

abbrev level_named : Text → Level
level_named t =
    if text_eq t (codes "debug")
    then level_debug
    else (if text_eq t (codes "warn") || text_eq t (codes "warning")
        then level_warn
        else (if text_eq t (codes "error") then level_error else level_info))

is : (t u : Text) → text_eq t u ≡ true → t ≡ u
is t u = (text_eq_iff t u).0

is_not : (t u : Text) → text_eq t u ≡ false → t ≢ u
is_not t u h e = cc ((text_eq_iff t u).1 e, h)

not-IsQuiet : (t : Text) → t ≢ codes "warn" → t ≢ codes "warning" → t ≢ codes "error" → ¬ IsQuiet t
not-IsQuiet t a b c (inl e) = a e
not-IsQuiet t a b c (inr (inl e)) = b e
not-IsQuiet t a b c (inr (inr e)) = c e

-- One literal is not another.
apart : (t u v : Text) → t ≡ u → text_eq u v ≡ false → t ≢ v
apart t u v h n e = is_not u v n (rw h at e)

named-Hidden :
    (t : Text)
    → Hidden (IsQuiet t) (leb (rank (level_named t)) (rank level_info))
      × Hidden (t ≡ codes "error") (leb (rank (level_named t)) (rank level_warn))
unfolding text_eq
named-Hidden t = elim (Bool-cases (text_eq t (codes "debug"))) [
  | inl d ↦
      let at = is t (codes "debug") d in
      let no_error = apart t (codes "debug") (codes "error") at refl in
      rw d (
        inr (
          not-IsQuiet t (apart t (codes "debug") (codes "warn") at refl)
              (apart t (codes "debug") (codes "warning") at refl) no_error,
          refl,
        ),
        inr (no_error, refl),
      )
  | inr d ↦ elim (Bool-cases (text_eq t (codes "warn"))) [
    | inl w ↦
        let at = is t (codes "warn") w in
        rw (d, w) (inl (inl at, refl), inr (apart t (codes "warn") (codes "error") at refl, refl))
    | inr w ↦ elim (Bool-cases (text_eq t (codes "warning"))) [
      | inl x ↦
          let at = is t (codes "warning") x in
          rw (d, w, x)
            (
              inl (inr (inl at), refl),
              inr (apart t (codes "warning") (codes "error") at refl, refl),
            )
      | inr x ↦ elim (Bool-cases (text_eq t (codes "error"))) [
        | inl e ↦
            let at = is t (codes "error") e in
            rw (d, w, x, e) (inl (inr (inr at), refl), inl (at, refl))
        | inr e ↦
            let no_error = is_not t (codes "error") e in
            rw (d, w, x, e)
              (
                inr (
                  not-IsQuiet t (is_not t (codes "warn") w) (is_not t (codes "warning") x) no_error,
                  refl,
                ),
                inr (no_error, refl),
              )
      ]
    ]
  ]
]

pub parse_level-Hidden :
    (s : Text)
    → Hidden (IsQuiet (to_lower (trim_space s))) (leb (rank (parse_level s)) (rank level_info))
      × Hidden
          (to_lower (trim_space s) ≡ codes "error")
          (leb (rank (parse_level s)) (rank level_warn))
unfolding parse_level
parse_level-Hidden s = named-Hidden (to_lower (trim_space s))

pub error-shown : (least : Level) → leb (rank least) (rank level_error) ≡ true
error-shown level_debug = refl
error-shown level_info = refl
error-shown level_warn = refl
error-shown level_error = refl
