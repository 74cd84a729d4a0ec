-- ===== src/Stock/Entity/Reserving.antt =====
-- What the operations of the stock entity guarantee.
use mathlib.Core.Logic.{◌↔◌}
use seckill_go.Prelude.{
  ◌≡◌, true, ℤ, pos, ◌≤ℤ◌, InInt64, add64-sub64, sub64_exact, -ℤ_parts, none, arith,
}
use seckill_go.Stock.Entity.{Stock, reserve, release, can_reserve}

-- Releasing what a successful reservation took gives the same entity back.
pub release-reserve :
    (s : Stock) (q : ℤ) {s' : Stock}
    → InInt64 s.available
    → InInt64 q
    → reserve s q ≡ (s', none)
    → release s' q ≡ (s, none)
unfolding reserve release
release-reserve s q ha hq h = ground (arith, add64-sub64 s.available q)

-- `can_reserve` holds exactly when `reserve` returns no error.
pub can_reserve_iff : (s : Stock) (q : ℤ) → (can_reserve s q ≡ true) ↔ ((reserve s q).1 ≡ none)
unfolding can_reserve reserve
can_reserve_iff s q = ground arith

-- From a stock that is not negative, a reservation leaves one that is not negative and not larger.
pub reserve_bounds :
    (s : Stock) (q : ℤ)
    → InInt64 s.available
    → InInt64 q
    → pos 0 ≤ℤ s.available
    → (pos 0 ≤ℤ (reserve s q).0.available) × ((reserve s q).0.available ≤ℤ s.available)
unfolding reserve
reserve_bounds s q ha hq h = ground (arith, sub64_exact s.available q, -ℤ_parts s.available q)
