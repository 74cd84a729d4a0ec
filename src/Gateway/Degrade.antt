-- ===== src/Gateway/Degrade.antt =====
-- services/seckill-gateway/internal/server/degrade.go: a circuit breaker for each route. A method
-- on a pointer takes the value last and returns it beside its result; the controller's mutex makes
-- `Allow` and `Observe` atomic. The clock is an argument.
pub mod Breaker
pub mod Routes
use seckill_go.Prelude.{
  ltb, leb, if◌then◌else◌, get_or, ℤ, pos, pos_part, lt_ℤ, le_ℤ, Assoc, lookup, insert, sub_time, ℕ,
  ◌+◌, String, Bool, true, false, ◌||◌, Option, none, some, [], str_eq,
}

pub data BreakerState : Type 0 where
  closed : BreakerState
  opened : BreakerState
  half_open : BreakerState

-- `failures` is an `int` of the source, counted up by one failure at a time.
pub record RouteBreaker : Type 0 where
  pub state : BreakerState
  pub failures : ℕ
  pub opened_at : ℤ
  pub half_open_in_flight : Bool

abbrev pub new_breaker : RouteBreaker
new_breaker = record {
  state = closed;
  failures = 0;
  opened_at = pos 0;
  half_open_in_flight = false;
}

-- `open`
trip : ℤ → RouteBreaker → RouteBreaker
trip now b = record { state = opened; failures = 0; opened_at = now; half_open_in_flight = false }

-- `close`
reset : RouteBreaker → RouteBreaker
reset b = record b { state = closed; failures = 0; half_open_in_flight = false }

allow_in : BreakerState → ℤ → ℤ → RouteBreaker → Bool × RouteBreaker
allow_in opened now timeout b =
    if lt_ℤ (sub_time now b.opened_at) timeout
    then (false, b)
    else (true, record b { state = half_open; half_open_in_flight = true })
allow_in half_open now timeout b =
    if b.half_open_in_flight then (false, b) else (true, record b { half_open_in_flight = true })
allow_in closed now timeout b = (true, b)

unfoldable pub allow : ℤ → ℤ → RouteBreaker → Bool × RouteBreaker
unfolding allow_in
allow now timeout b = allow_in b.state now timeout b

observe_in : BreakerState → Bool → ℤ → ℕ → RouteBreaker → RouteBreaker
unfolding trip reset
observe_in half_open failed now threshold b =
    let landed = record b { half_open_in_flight = false } in
    if failed then trip now landed else reset landed
observe_in opened failed now threshold b = b
observe_in closed failed now threshold b =
    let counted = record b { failures = b.failures + 1 } in
    if failed
    then (if leb threshold counted.failures then trip now counted else counted)
    else record b { failures = 0 }

unfoldable pub observe : Bool → ℤ → ℕ → RouteBreaker → RouteBreaker
unfolding observe_in
observe failed now threshold b = observe_in b.state failed now threshold b

pub record DegradeController : Type 0 where
  pub breakers : Assoc RouteBreaker
  pub failure_threshold : ℕ
  pub timeout : ℤ

unfoldable pub new_degrade_controller : ℤ → ℤ → DegradeController
new_degrade_controller threshold timeout = record {
  breakers = [];
  failure_threshold = if le_ℤ threshold (pos 0) then 1 else pos_part threshold;
  timeout = if le_ℤ timeout (pos 0) then pos 10000000000 else timeout;
}

abbrev pub route_key : String → String
route_key resource = if str_eq resource "" then "unknown" else resource

-- The breaker that the map has, or the one that `breaker` puts there.
abbrev pub breaker : String → DegradeController → RouteBreaker
breaker resource c = get_or (lookup (route_key resource) c.breakers) new_breaker

unfoldable pub controller_allow : String → ℤ → DegradeController → Bool × DegradeController
unfolding allow
controller_allow resource now c =
    let (allowed, b) = allow now c.timeout (breaker resource c) in
    (allowed, record c { breakers = insert (route_key resource) b c.breakers })

unfoldable pub controller_observe : String → Bool → ℤ → DegradeController → DegradeController
unfolding observe
controller_observe resource failed now c =
    let b = observe failed now c.failure_threshold (breaker resource c) in
    record c { breakers = insert (route_key resource) b c.breakers }

-- `requestFailed`, on the status and the number of errors of the response.
unfoldable pub request_failed : ℕ → ℕ → Bool
request_failed status errors = leb 500 status || ltb 0 errors

-- What the rest of the chain does with a request: it answers with a status and a number of errors,
-- or it panics. A panic goes up to `gin.Recovery`, which http.go installs outside.
pub data Handler : Type 0 where
  answers : (status errors : ℕ) → Handler
  panics : Handler

-- What a request meets: the 503 of the breaker, or what the handler does.
pub data Outcome : Type 0 where
  degraded : Outcome
  handled : Handler → Outcome

-- What follows `c.Next()`; it is not deferred, so a panic skips it.
after_next : String → ℤ → Handler → DegradeController → DegradeController
unfolding controller_observe request_failed
after_next resource later (answers status errors) c =
    controller_observe resource (request_failed status errors) later c
after_next resource later panics c = c

-- The middleware over a shared controller; the request begins at `now` and ends at `later`.
unfoldable pub degrade_middleware :
    String → ℤ → ℤ → Handler → DegradeController → Outcome × DegradeController
unfolding controller_allow after_next
degrade_middleware resource now later handler c =
    let (allowed, c') = controller_allow resource now c in
    if allowed then (handled handler, after_next resource later handler c') else (degraded, c')

pub record DegradeSettings : Type 0 where
  pub enabled : Bool
  pub failure_threshold : ℤ
  pub timeout : ℤ

-- `DynamicDegradeMiddlewareWithController`. A nil controller is `none`: each request makes one of
-- its own, which is dropped at its end.
unfoldable pub dynamic_degrade_middleware :
    DegradeSettings
    → String
    → ℤ
    → ℤ
    → Handler
    → Option DegradeController
    → Outcome × Option DegradeController
unfolding degrade_middleware new_degrade_controller
dynamic_degrade_middleware settings resource now later handler shared =
    let threshold =
      if le_ℤ settings.failure_threshold (pos 0) then pos 5 else settings.failure_threshold in
    let timeout = if le_ℤ settings.timeout (pos 0) then pos 10000000000 else settings.timeout in
    if settings.enabled
    then elim shared [
      | none ↦ (
        (degrade_middleware resource now later handler
            (new_degrade_controller threshold timeout)).0,
        none,
      )
      | some c ↦
          let (outcome, c') = degrade_middleware resource now later handler c in (outcome, some c')
    ]
    else (handled handler, shared)
