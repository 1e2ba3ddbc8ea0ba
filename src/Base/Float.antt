-- ===== src/Base/Float.antt =====
-- float64 as its IEEE 754 bit pattern, below 2 ^ 64. The comparisons that the program makes are
-- computed from the pattern; the arithmetic is a record of operations.
use Prim.Native.Nat.{ℕ, ◌%◌, ◌/◌}
use mathlib.Core.Bool.{Bool, not, ◌&&◌, ◌||◌}
use go_invoicing.Base.Tests.{ltb, ◌==◌}
use go_invoicing.Base.Int.{ℤ}

abbrev pub Float64 : Type 0
Float64 = ℕ

-- The pattern without its sign bit. Among patterns that are no NaN it orders as the magnitude.
abbrev pub magnitude : Float64 → ℕ
magnitude x = x % 0x8000000000000000

abbrev pub is_negative : Float64 → Bool
is_negative x = x / 0x8000000000000000 == 1

abbrev pub is_nan : Float64 → Bool
is_nan x = ltb 0x7FF0000000000000 (magnitude x)

-- `x < 0`, `x <= 0`, `x != 0` and `x > 100`
unfoldable pub lt_zero : Float64 → Bool
lt_zero x = not (is_nan x) && is_negative x && not (magnitude x == 0)

unfoldable pub le_zero : Float64 → Bool
le_zero x = not (is_nan x) && (is_negative x || magnitude x == 0)

unfoldable pub ne_zero : Float64 → Bool
ne_zero x = not (magnitude x == 0)

unfoldable pub gt_hundred : Float64 → Bool
gt_hundred x = not (is_nan x) && not (is_negative x) && ltb 0x4059000000000000 (magnitude x)

-- `x * y`, `x / 100`, `float64(n)` and `int64(math.Round(x))`
pub record FloatOps : Type 0 where
  pub mul : Float64 → Float64 → Float64
  pub div_hundred : Float64 → Float64
  pub of_int64 : ℤ → Float64
  pub round_int64 : Float64 → ℤ
