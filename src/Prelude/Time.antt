-- ===== src/Prelude/Time.antt =====
-- Go's `time`: a time is its nanoseconds since the zero time, a duration is an `int64`.
use mathlib.Core.Path.{◌≡◌}
use native.Mathlib.Omega.{arith}
use seckill_go.Prelude.Tests.{if◌then◌else◌}
use seckill_go.Prelude.Int.{ℤ, pos, negsuc, ◌-ℤ◌, ◌<ℤ◌, lt_ℤ, -ℤ_parts, InInt64}

max_duration : ℤ
max_duration = pos 9223372036854775807

min_duration : ℤ
min_duration = negsuc 9223372036854775807

-- `t.Sub(u)`, which stops at the ends of the durations.
unfoldable pub sub_time : ℤ → ℤ → ℤ
unfolding max_duration min_duration
sub_time t u =
    if lt_ℤ max_duration (t -ℤ u)
    then max_duration
    else if lt_ℤ (t -ℤ u) min_duration
    then min_duration
    else t -ℤ u

-- Against a positive duration the stop makes no difference.
pub lt-sub_time : (t u d : ℤ) → InInt64 d → pos 0 <ℤ d → lt_ℤ (sub_time t u) d ≡ lt_ℤ (t -ℤ u) d
unfolding sub_time
lt-sub_time t u d h p = ground (arith, -ℤ_parts t u)
