-- ===== src/Errors.antt =====
-- common/errors: the classification of errors that the queue consumers and the processor's use
-- cases act on. An error is seen through what the standard library, kratos and gRPC read from it.
use seckill_go.Prelude.{◌==◌, ℕ, String, append, Bool, true, ◌||◌}

-- `is_deadline` is `errors.Is(err, context.DeadlineExceeded)`, the codes are
-- `kratoserrors.Code(err)` and `status.Code(err)`, and the other fields are found in its chain.
pub record RpcError : Type 0 where
  pub message : String
  pub is_deadline : Bool
  pub kratos_code : ℕ
  pub grpc_code : ℕ
  pub wraps_not_found : Bool
  pub wraps_invalid_state : Bool
  pub wraps_terminal : Bool

-- `http.StatusTooManyRequests`, `StatusServiceUnavailable`, `StatusGatewayTimeout`, then
-- `codes.ResourceExhausted`, `Unavailable`, `DeadlineExceeded`.
unfoldable pub is_temporary_rpc_error : RpcError → Bool
is_temporary_rpc_error e =
    e.is_deadline
    || e.kratos_code == 429
    || e.kratos_code == 503
    || e.kratos_code == 504
    || e.grpc_code == 8
    || e.grpc_code == 14
    || e.grpc_code == 4

-- `http.StatusNotFound`, `codes.NotFound`.
unfoldable pub is_rpc_not_found_error : RpcError → Bool
is_rpc_not_found_error e = e.kratos_code == 404 || e.grpc_code == 5

-- `http.StatusPreconditionFailed`, `codes.FailedPrecondition`.
unfoldable pub is_rpc_failed_precondition_error : RpcError → Bool
is_rpc_failed_precondition_error e = e.kratos_code == 412 || e.grpc_code == 9

-- `fmt.Errorf(prefix + "%w", err)` keeps the chain.
abbrev pub wrap_error : String → RpcError → RpcError
wrap_error prefix e = record e { message = append prefix e.message }

unfoldable pub wrap_terminal : RpcError → RpcError
wrap_terminal e = record e { wraps_terminal = true }

unfoldable pub is_terminal : RpcError → Bool
is_terminal e = e.wraps_terminal
