-- ===== src/Processor/PaymentTimeout.antt =====
-- services/seckill-processor/internal/application/usecase/payment_timeout.go: what becomes of an
-- order when its time to pay is over. The gateways are functions on a world.
pub mod Closing
pub mod Lost
use seckill_go.Prelude.{
  if◌then◌else◌, get_or, ℤ, pos, eq_ℤ, Result, ok, err, trim_space, String, append, Bool, true,
  false, ◌||◌, Option, none, some, str_eq,
}
use seckill_go.Errors.{
  RpcError, is_temporary_rpc_error, is_rpc_not_found_error, is_rpc_failed_precondition_error,
  wrap_error, wrap_terminal,
}
use seckill_go.Processor.Model.{pending, closed, OrderInfo}

-- The pay statuses are those of status/payment.go: 0 pending, 1 paid, 2 closed.
pub record PayQueryResult : Type 0 where
  pub order_no : String
  pub pay_status : ℤ
  pub transaction_no : String
  pub paid_at : Option ℤ

pub record PaymentTimeoutTask : Type 0 where
  pub order_no : String
  pub request_trace_id : String
  pub due_at : ℤ

-- The order, stock and payment gateways, and `time.Now`.
pub record TimeoutGateways (W : Type 0) : Type 0 where
  pub get_order : String → W → Result RpcError OrderInfo
  pub mark_order_paid : String → String → ℤ → W → Option RpcError × W
  pub close_order : String → W → Option RpcError × W
  pub release_stock : String → String → ℤ → ℤ → String → W → Option RpcError × W
  pub query_payment : String → W → Result RpcError PayQueryResult
  pub close_payment : String → W → Option RpcError × W
  pub now : ℤ

abbrev is_not_found_error : RpcError → Bool
is_not_found_error e = e.wraps_not_found || is_rpc_not_found_error e

abbrev is_invalid_state_error : RpcError → Bool
is_invalid_state_error e = e.wraps_invalid_state || is_rpc_failed_precondition_error e

abbrev is_pending : OrderInfo → Bool
is_pending o = elim o.status [ pending ↦ true | _ ↦ false ]

abbrev is_closed : OrderInfo → Bool
is_closed o = elim o.status [ closed ↦ true | _ ↦ false ]

-- A temporary error is given back as it is, to be retried; any other one is terminal.
abbrev retry_or_stop : String → String → RpcError → RpcError
retry_or_stop mark what e =
    if is_temporary_rpc_error e
    then wrap_error (append what ": temporary rpc error, will retry: ") e
    else wrap_error mark (wrap_terminal (wrap_error (append what ": ") e))

module _ {W : Type 0} (g : TimeoutGateways W) (order_no : String) where
  -- `ClosePayment`, the last call of step 5.
  close_payment : W → Option RpcError × W
  close_payment w =
      let (error, w') = g.close_payment order_no w in
      (
        elim error [
          | none ↦ none
          | some e ↦
              if is_not_found_error e
              then none
              else some
                  (retry_or_stop "mark timeout terminal: " (append "close payment " order_no) e)
        ],
        w',
      )

  -- Step 5.
  release_and_void : OrderInfo → W → Option RpcError × W
  unfolding close_payment
  release_and_void order w =
      let (error, w') =
        g.release_stock order.activity_no order.sku_no order.user_id order.quantity order_no w in
      let rest = close_payment w' in
      elim error [
        | none ↦ rest
        | some e ↦ (
          some (
              retry_or_stop "mark timeout terminal: " (append "release stock for order " order_no)
                e),
          w',
        )
      ]

  -- Step 4: the order is read again.
  after_close : OrderInfo → W → Option RpcError × W
  unfolding release_and_void
  after_close order w =
      let rest = release_and_void order w in
      elim (g.get_order order_no w) [
        | err e ↦ (
          some (retry_or_stop "mark timeout terminal: " (append "get closed order " order_no) e),
          w,
        )
        | ok again ↦ if is_closed again then rest else (none, w)
      ]

  -- Steps 3 to 5.
  close : OrderInfo → W → Option RpcError × W
  unfolding after_close
  close order w =
      let (error, w') = g.close_order order_no w in
      let rest = after_close order w' in
      elim error [
        | none ↦ rest
        | some e ↦
            if is_invalid_state_error e
            then (none, w')
            else (some (retry_or_stop "terminal: " (append "close order " order_no) e), w')
      ]

  -- The payment came before the timeout.
  mark_paid : PayQueryResult → W → Option RpcError × W
  mark_paid query w =
      let (error, w') =
        g.mark_order_paid order_no query.transaction_no (get_or query.paid_at g.now) w in
      (
        elim error [
          | none ↦ none
          | some e ↦ some (wrap_error (append "mark order paid " (append order_no ": ")) e)
        ],
        w',
      )

  -- Steps 2 to 5, for a pending order.
  settle : OrderInfo → W → Option RpcError × W
  unfolding mark_paid close
  settle order w =
      let closing = close order w in
      elim (g.query_payment order_no w) [
        | ok query ↦ if eq_ℤ query.pay_status (pos 1) then mark_paid query w else closing
        | err e ↦
            if is_temporary_rpc_error e
            then (some (retry_or_stop "terminal: " (append "query payment " order_no) e), w)
            else if is_not_found_error e
            then closing
            else (some (retry_or_stop "terminal: " (append "query payment " order_no) e), w)
      ]

  handle : W → Option RpcError × W
  unfolding settle
  handle w = elim (g.get_order order_no w) [
    | err e ↦
        if is_not_found_error e
        then (none, w)
        else (some (retry_or_stop "terminal: " (append "get order " order_no) e), w)
    | ok order ↦ if is_pending order then settle order w else (none, w)
  ]

unfoldable pub execute :
    {W : Type 0} → TimeoutGateways W → PaymentTimeoutTask → W → Option RpcError × W
unfolding handle
execute g task w =
    let rest = handle g (trim_space task.order_no) w in
    if str_eq (trim_space task.order_no) "" then (none, w) else rest
