-- ===== src/Base/Format.antt =====
-- The verbs of fmt.Sprintf that print numbers: parameters of the model, as the texts only inform
-- an operator.
use Prim.Native.Nat.{ℕ}
use Prim.Native.String.{String}
use flux_lens.Base.Signed.{ℤ}
use flux_lens.Base.Float.{Float64}

pub record Format : Type 0 where
  -- %d
  pub decimal : ℤ → String
  -- %.3f and %.4f, by the number of digits
  pub fixed : ℕ → Float64 → String
