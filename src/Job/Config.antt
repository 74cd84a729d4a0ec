-- ===== src/Job/Config.antt =====
-- services/seckill-job/internal/application/job/job.go: the intervals of the jobs, in nanoseconds.
use seckill_go.Prelude.{if◌then◌else◌, ℤ, pos, ◌<ℤ◌, le_ℤ, ℕ, suc, ◌*◌, ◌≡◌, refl, Bool, arith}

pub record Config : Type 0 where
  pub run_on_start : Bool
  pub activity_status_check_interval : ℤ
  pub timeout_order_check_interval : ℤ
  pub stock_release_check_interval : ℤ
  pub activity_data_cleanup_interval : ℤ
  pub activity_data_retention : ℤ
  pub risk_user_cleanup_interval : ℤ
  pub daily_statistics_interval : ℤ
  pub cache_warmup_interval : ℤ
  pub cache_refresh_interval : ℤ
  pub cache_warmup_ahead : ℤ
  pub payment_reconcile_interval : ℤ
  pub order_sync_check_interval : ℤ

abbrev minutes : ℕ → ℤ
minutes n = pos (n * 60000000000)

-- `if v <= 0 { v = d }`
abbrev default_to : ℤ → ℤ → ℤ
default_to d v = if le_ℤ v (pos 0) then d else v

unfoldable pub normalize : Config → Config
normalize c = record c {
  activity_status_check_interval = default_to (minutes 1) c.activity_status_check_interval;
  timeout_order_check_interval = default_to (minutes 60) c.timeout_order_check_interval;
  stock_release_check_interval = default_to (minutes 10) c.stock_release_check_interval;
  activity_data_cleanup_interval = default_to (minutes 1440) c.activity_data_cleanup_interval;
  activity_data_retention = default_to (minutes 1440) c.activity_data_retention;
  risk_user_cleanup_interval = default_to (minutes 1440) c.risk_user_cleanup_interval;
  daily_statistics_interval = default_to (minutes 1440) c.daily_statistics_interval;
  cache_warmup_interval = default_to (minutes 5) c.cache_warmup_interval;
  cache_refresh_interval = default_to (minutes 1) c.cache_refresh_interval;
  cache_warmup_ahead = default_to (minutes 10) c.cache_warmup_ahead;
  payment_reconcile_interval = default_to (minutes 30) c.payment_reconcile_interval;
  order_sync_check_interval = default_to (minutes 5) c.order_sync_check_interval;
}

-- Every interval of a configuration is positive, as a ticker needs it.
abbrev pub IsTicking : Config → Type 0
IsTicking c =
    (pos 0 <ℤ c.activity_status_check_interval)
    × (pos 0 <ℤ c.timeout_order_check_interval)
    × (pos 0 <ℤ c.stock_release_check_interval)
    × (pos 0 <ℤ c.activity_data_cleanup_interval)
    × (pos 0 <ℤ c.activity_data_retention)
    × (pos 0 <ℤ c.risk_user_cleanup_interval)
    × (pos 0 <ℤ c.daily_statistics_interval)
    × (pos 0 <ℤ c.cache_warmup_interval)
    × (pos 0 <ℤ c.cache_refresh_interval)
    × (pos 0 <ℤ c.cache_warmup_ahead)
    × (pos 0 <ℤ c.payment_reconcile_interval)
    × (pos 0 <ℤ c.order_sync_check_interval)

default_positive : (n : ℕ) (v : ℤ) → pos 0 <ℤ default_to (minutes (suc n)) v
default_positive n v = ground arith

positive_stays : (n : ℕ) (v : ℤ) → pos 0 <ℤ v → default_to (minutes n) v ≡ v
positive_stays n v h = ground arith

normalize_ticks : (c : Config) → IsTicking (normalize c)
unfolding normalize
normalize_ticks c = (
  default_positive 0 c.activity_status_check_interval,
  default_positive 59 c.timeout_order_check_interval,
  default_positive 9 c.stock_release_check_interval,
  default_positive 1439 c.activity_data_cleanup_interval,
  default_positive 1439 c.activity_data_retention,
  default_positive 1439 c.risk_user_cleanup_interval,
  default_positive 1439 c.daily_statistics_interval,
  default_positive 4 c.cache_warmup_interval,
  default_positive 0 c.cache_refresh_interval,
  default_positive 9 c.cache_warmup_ahead,
  default_positive 29 c.payment_reconcile_interval,
  default_positive 4 c.order_sync_check_interval,
)

normalize_ticking : (c : Config) → IsTicking c → normalize c ≡ c
unfolding normalize
normalize_ticking c h =
    rw
      (
        positive_stays 1 c.activity_status_check_interval h.0,
        positive_stays 60 c.timeout_order_check_interval h.1,
        positive_stays 10 c.stock_release_check_interval h.2,
        positive_stays 1440 c.activity_data_cleanup_interval h.3,
        positive_stays 1440 c.activity_data_retention h.4,
        positive_stays 1440 c.risk_user_cleanup_interval h.5,
        positive_stays 1440 c.daily_statistics_interval h.6,
        positive_stays 5 c.cache_warmup_interval h.7,
        positive_stays 1 c.cache_refresh_interval h.8,
        positive_stays 10 c.cache_warmup_ahead h.9,
        positive_stays 30 c.payment_reconcile_interval h.10,
        positive_stays 5 c.order_sync_check_interval h.11,
      )
      refl

-- After the defaults all intervals are positive, and the defaults change nothing in a configuration
-- that has them.
pub normalize-IsTicking :
    (c : Config) → IsTicking (normalize c) × (normalize (normalize c) ≡ normalize c)
normalize-IsTicking c = (normalize_ticks c, normalize_ticking (normalize c) (normalize_ticks c))
