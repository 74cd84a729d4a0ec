-- ===== src/Support/Breaker.antt =====
-- services/support-service/internal/infrastructure/gateway/circuitbreaker.go: the breaker around the
-- calls of the order gateway. The clock is an argument; the mutex makes each method atomic.
pub mod Cycle
use seckill_go.Prelude.{if◌then◌else◌, ℤ, pos, lt_ℤ, le_ℤ, sub_time, ℕ, ◌+◌, Bool, true, false, not}

pub data CircuitState : Type 0 where
  cb_closed : CircuitState
  cb_open : CircuitState
  cb_half_open : CircuitState

-- The name and the logger are left out.
pub record CircuitBreaker : Type 0 where
  pub state : CircuitState
  pub failures : ℕ
  pub max_failures : ℤ
  pub reset_timeout : ℤ
  pub last_failure : ℤ

unfoldable pub new_circuit_breaker : ℤ → ℤ → CircuitBreaker
new_circuit_breaker max_failures reset_timeout = record {
  state = cb_closed;
  failures = 0;
  max_failures = max_failures;
  reset_timeout = reset_timeout;
  last_failure = pos 0;
}

unfoldable pub allow_call : ℤ → CircuitBreaker → Bool × CircuitBreaker
allow_call now cb = elim cb.state [
  | cb_closed ↦ (true, cb)
  | cb_open ↦
      if lt_ℤ cb.reset_timeout (sub_time now cb.last_failure)
      then (true, record cb { state = cb_half_open })
      else (false, cb)
  | cb_half_open ↦ (true, cb)
]

unfoldable pub record_failure : ℤ → CircuitBreaker → CircuitBreaker
record_failure now cb =
    let failed = record cb { failures = cb.failures + 1; last_failure = now } in
    elim cb.state [
      | cb_half_open ↦ record failed { state = cb_open }
      | _ ↦
          if le_ℤ cb.max_failures (pos failed.failures)
          then record failed { state = cb_open }
          else failed
    ]

unfoldable pub record_success : CircuitBreaker → CircuitBreaker
record_success cb = elim cb.state [
  | cb_half_open ↦ record cb { state = cb_closed; failures = 0 }
  | _ ↦ record cb { failures = 0 }
]

-- What a caller of `Execute` gets: ErrCircuitOpen without a call, or what the call returned.
pub data Executed : Type 0 where
  circuit_open : Executed
  ran : (succeeded : Bool) → Executed

-- `Execute` of a call that begins at `now`, ends at `later`, and succeeds or fails.
unfoldable pub execute_call : Bool → ℤ → ℤ → CircuitBreaker → Executed × CircuitBreaker
unfolding allow_call record_failure record_success
execute_call succeeds now later cb =
    let (allowed, cb') = allow_call now cb in
    if not allowed
    then (circuit_open, cb')
    else if succeeds
    then (ran true, record_success cb')
    else (ran false, record_failure later cb')
