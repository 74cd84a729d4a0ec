-- ===== src/Tests/Gateway.antt =====
-- The breaker of a route with a threshold of three failures and a timeout of ten.
use seckill_go.Prelude.{
  pos, ◌-ℤ◌, lt_ℤ, lookup, sub_time, ◌≡◌, refl, true, false, none, [], ◌∷◌, arith,
}
use seckill_go.Gateway.Degrade.{
  closed, opened, RouteBreaker, new_breaker, allow, observe, DegradeController, breaker, answers,
  panics, degraded, handled, degrade_middleware, DegradeSettings, dynamic_degrade_middleware,
}
use seckill_go.Gateway.Degrade.Breaker.{run, failures_at, opens_at_threshold, asks_at, probe_cycle}
use seckill_go.Gateway.Degrade.Routes.{unshared_never_degrades, IsProbing, panicked_probe_blocks}

abbrev tripped : RouteBreaker
tripped = record { state = opened; failures = 0; opened_at = pos 100; half_open_in_flight = false }

opens_at_threshold_example :
    let before = run (pos 10) 3 (failures_at (pos 1 ∷ pos 2 ∷ [])) new_breaker in
    let after = observe true (pos 3) 3 before in
    (allow (pos 4) (pos 10) before ≡ (true, before))
    × (after.state ≡ opened)
    × (after.opened_at ≡ pos 3)
opens_at_threshold_example =
    opens_at_threshold (pos 10) 3 (pos 1 ∷ pos 2 ∷ []) (pos 3) (pos 4) new_breaker refl refl refl

probe_cycle_example :
    let probing = (allow (pos 110) (pos 10) tripped).1 in
    let waiting = run (pos 10) 3 (asks_at (pos 111 ∷ pos 500 ∷ [])) probing in
    (allow (pos 109) (pos 10) tripped ≡ (false, tripped))
    × ((allow (pos 110) (pos 10) tripped).0 ≡ true)
    × (allow (pos 900) (pos 10) waiting ≡ (false, waiting))
    × ((observe false (pos 901) 3 waiting).state ≡ closed)
    × ((observe false (pos 901) 3 waiting).failures ≡ 0)
    × ((observe true (pos 901) 3 waiting).state ≡ opened)
    × ((observe true (pos 901) 3 waiting).opened_at ≡ pos 901)
unfolding ◌-ℤ◌
probe_cycle_example =
    probe_cycle (pos 10) 3 (pos 109) (pos 110) (pos 900) (pos 901) (pos 111 ∷ pos 500 ∷ []) tripped
      (ground arith) (ground arith) refl (ground arith) (ground arith)

abbrev controller : DegradeController
controller = record {
  breakers = ("/seckill", tripped) ∷ [];
  failure_threshold = 3;
  timeout = pos 10;
}

abbrev settings : DegradeSettings
settings = record { enabled = true; failure_threshold = pos 3; timeout = pos 10 }

unshared_never_degrades_example :
    dynamic_degrade_middleware settings "/seckill" (pos 1) (pos 2) (answers 500 0) none
    ≡ (handled (answers 500 0), none)
unshared_never_degrades_example =
    unshared_never_degrades settings "/seckill" (pos 1) (pos 2) (answers 500 0)

seckill_tripped : (breaker "/seckill" controller).state ≡ opened
unfolding lookup
seckill_tripped = refl

time_is_over : lt_ℤ (sub_time (pos 110) (breaker "/seckill" controller).opened_at) (pos 10) ≡ false
unfolding lookup sub_time ◌-ℤ◌
time_is_over = refl

panicked_probe_blocks_example :
    let (outcome, c') = degrade_middleware "/seckill" (pos 110) (pos 111) panics controller in
    (outcome ≡ handled panics)
    × IsProbing "/seckill" c'
    × (((degrade_middleware "/seckill" (pos 900) (pos 901) (answers 200 0) c').0 ≡ degraded)
        × IsProbing "/seckill"
            (degrade_middleware "/seckill" (pos 900) (pos 901) (answers 200 0) c').1)
panicked_probe_blocks_example =
    panicked_probe_blocks "/seckill" (pos 110) (pos 111) (pos 900) (pos 901) (answers 200 0)
      controller seckill_tripped time_is_over
