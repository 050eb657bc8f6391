-- ===== src/Base/Float.antt =====
-- Go's float64. A finite value is a whole number of units of 2^-1074, the least positive double,
-- so comparisons are exact. The rounding operations are those of the hardware: parameters.
use Prim.Native.Nat.{ℕ, ◌*◌, ◌^◌}
use mathlib.Core.Bool.{Bool, true, false}
use flux_lens.Base.Signed.{ℤ, pos, lt_ℤ}

pub data Float64 : Type 0 where
  nan neg_inf pos_inf : Float64
  fin : ℤ → Float64

-- a < b, false where either is a NaN
unfoldable pub lt_f : Float64 → Float64 → Bool
lt_f (fin a) (fin b) = lt_ℤ a b
lt_f (fin a) pos_inf = true
lt_f neg_inf (fin b) = true
lt_f neg_inf pos_inf = true
lt_f _ _ = false

abbrev pub is_finite : Float64 → Bool
is_finite (fin a) = true
is_finite _ = false

-- The constants 0, 1, 100 and 0.6; the last is the double nearest to it, 5404319552844595 / 2^53.
unfoldable pub f_zero : Float64
f_zero = fin (pos 0)

unfoldable pub f_one : Float64
f_one = fin (pos (2 ^ 1074))

unfoldable pub f_hundred : Float64
f_hundred = fin (pos (100 * 2 ^ 1074))

unfoldable pub f_point_six : Float64
f_point_six = fin (pos (5404319552844595 * 2 ^ 1021))

-- Float arithmetic, and the conversions from and to `int`.
pub record Arithmetic : Type 0 where
  pub of_int : ℕ → Float64
  pub add : Float64 → Float64 → Float64
  pub sub : Float64 → Float64 → Float64
  pub mul : Float64 → Float64 → Float64
  pub div : Float64 → Float64 → Float64
  pub to_int : Float64 → ℤ
