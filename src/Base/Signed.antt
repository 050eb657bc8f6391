-- ===== src/Base/Signed.antt =====
-- Go's `int`, where the program tests its sign: `negsuc n` is -(n + 1).
use Prim.Native.Nat.{ℕ, zero, suc, ◌/◌}
use mathlib.Core.Bool.{Bool, true, false}
use flux_lens.Base.Tests.{ltb}

pub data ℤ : Type 0 where
  pos : ℕ → ℤ
  negsuc : ℕ → ℤ

-- a < b
abbrev pub lt_ℤ : ℤ → ℤ → Bool
lt_ℤ (pos a) (pos b) = ltb a b
lt_ℤ (pos a) (negsuc b) = false
lt_ℤ (negsuc a) (pos b) = true
lt_ℤ (negsuc a) (negsuc b) = ltb b a

-- The value when it is positive; the callers of the program replace any other by a default.
abbrev pub positive_or : ℤ → ℕ → ℕ
positive_or (pos (suc n)) d = suc n
positive_or _ d = d

-- -n
abbrev pub negate : ℕ → ℤ
negate zero = pos 0
negate (suc n) = negsuc n

-- a / b for b > 0, which rounds towards 0
abbrev pub quotient : ℤ → ℕ → ℤ
quotient (pos a) b = pos (a / b)
quotient (negsuc a) b = negate (suc a / b)
