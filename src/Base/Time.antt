-- ===== src/Base/Time.antt =====
-- Go's time.Time as nanoseconds since its zero time, and time.Duration as an int64.
use Prim.Native.Nat.{ℕ, ◌+◌, ◌-◌, ◌≤◌, min, ◌<◌}
use mathlib.Core.Path.{◌≡◌}
use mathlib.Core.Bool.{false, true}
use native.Mathlib.Omega.{arith}
use flux_lens.Base.Tests.{ltb, if◌then◌else◌}
use flux_lens.Base.Signed.{ℤ, pos, negsuc, lt_ℤ}

-- The greatest duration, of about 292 years.
abbrev pub max_duration : ℕ
max_duration = 9223372036854775807

abbrev pub second : ℕ
second = 1000000000

-- t.Sub(u), which stops at the least and the greatest duration.
unfoldable pub sub_time : ℕ → ℕ → ℤ
sub_time t u =
    if ltb t u then negsuc (min (u - t - 1) max_duration) else pos (min (t - u) max_duration)

-- A wait that is not below `d` has lasted `d` at least.
pub le_of_sub_time :
    (t u d : ℕ) → d ≤ max_duration → lt_ℤ (sub_time t u) (pos d) ≡ false → u + d ≤ t
unfolding sub_time
le_of_sub_time t u d h e = ground arith

-- A wait that is below `d` has lasted less than `d`.
pub lt_of_sub_time : (t u d : ℕ) → d ≤ max_duration → lt_ℤ (sub_time t u) (pos d) ≡ true → t < u + d
unfolding sub_time
lt_of_sub_time t u d h e = ground arith
