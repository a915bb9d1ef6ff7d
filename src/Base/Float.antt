-- ===== src/Base/Float.antt =====
-- What the program uses of float64 and float32: the operations are a parameter, since the values
-- are not modelled, except for the conversion of whole numbers, `rounded`. The constant 1000 and the counts of milliseconds are floats of integers.
use audio_service.Base.{
  ℕ, zero, suc, ◌+◌, ◌-◌, ◌*◌, ◌/◌, ◌%◌, ◌^◌, ◌<◌, ◌≡◌, refl, Bool, ◌&&◌, ◌||◌, ◌==◌, Option, ◌++◌,
  ltb, if◌then◌else◌, arith,
}
use audio_service.Base.Int.{ℤ, pos, IsInt64}
use audio_service.Base.Text.{Text, digits, codes}

-- The unit of the last of the 53 digits of a float64 of the size of `n`, found from `u` on.
unfoldable ulp : ℕ → ℕ → ℕ → ℕ
ulp zero n u = u
ulp (suc k) n u = let rest = ulp k n (2 * u) in if ltb n (2 ^ 53 * u) then u else rest

-- The nearer multiple of the unit, and the even one of two that are equally near.
abbrev to_nearest : ℕ → ℕ → ℕ
to_nearest n u =
    if ltb (2 * (n % u)) u || (2 * (n % u) == u && n / u % 2 == 0)
    then n / u * u
    else (n / u + 1) * u

-- float64(n) of an int64 that is not negative, which is a whole number. Eleven doublings of the unit
-- are enough below 2 ^ 64.
unfoldable pub rounded : ℕ → ℕ
unfolding ulp
rounded n = to_nearest n (ulp 11 n 1)

-- Below 2 ^ 53 the conversion is exact.
pub rounded_of_small : (n : ℕ) → n < 2 ^ 53 → rounded n ≡ n
unfolding rounded ulp
rounded_of_small n h = ground arith

largest_rounded : rounded (2 ^ 63 - 1) ≡ 2 ^ 63
unfolding rounded ulp
largest_rounded = refl

tie_rounded : rounded (2 ^ 53 + 3) ≡ 2 ^ 53 + 4
unfolding rounded ulp
tie_rounded = refl

-- Three decimal digits.
abbrev pub three_digits : ℕ → Text
three_digits n =
    if ltb n 10
    then codes "00" ++ digits n
    else (if ltb n 100 then codes "0" ++ digits n else digits n)

-- Seconds with three decimals, of a number of milliseconds.
abbrev pub decimal_seconds : ℕ → ℕ → Text
decimal_seconds s ms = digits s ++ codes "." ++ three_digits ms

pub record Floats : Type 1 where
  pub Float : Type 0
  -- strconv.ParseFloat(s, 64); `none` is an error
  pub parse : Text → Option Float
  -- strconv.ParseFloat(s, 32), as the bit pattern of the float32
  pub parse_float32 : Text → Option ℕ
  -- float64(n), and the literal n / 10 ^ k
  pub of_int : ℤ → Float
  pub literal : ℕ → ℕ → Float
  -- int64(f), also where the language leaves the value open
  pub to_int64 : Float → ℤ
  pub add : Float → Float → Float
  pub mul : Float → Float → Float
  pub div : Float → Float → Float
  pub less : Float → Float → Bool
  pub less_eq : Float → Float → Bool
  pub is_inf : Float → Bool
  pub is_nan : Float → Bool
  -- strconv.FormatFloat(f, 'f', 3, 64)
  pub fixed3 : Float → Text
  -- the conversion yields an int64
  pub to_int64-IsInt64 : (f : Float) → IsInt64 (to_int64 f)
  -- Whole milliseconds are printed exactly: below 2 ^ 34 seconds, as all of an int64 of
  -- nanoseconds are, a float64 is nearer to them than half a millisecond.
  pub fixed3-seconds :
      (s ms : ℕ)
      → s < 2 ^ 34
      → ms < 1000
      → fixed3 (add (of_int (pos s)) (div (of_int (pos (ms * 10 ^ 6))) (of_int (pos (10 ^ 9)))))
        ≡ decimal_seconds s ms
