-- ===== src/Order/Entity.antt =====
-- services/order-service/internal/domain/entity/order.go: the order aggregate. A method on `*Order`
-- takes the order last and returns it beside its error, with `none` for a nil error. A time is its
-- nanoseconds since the zero time, so that `IsZero` is a test for 0.
pub mod Lifecycle
use seckill_go.Prelude.{
  if◌then◌else◌, ℤ, pos, le_ℤ, eq_ℤ, Result, ok, err, String, Bool, true, false, ◌||◌, Option, none,
  some, List, [], ◌∷◌, ◌++◌, str_eq,
}

-- The status texts; `other` is any other text.
pub data OrderStatus : Type 0 where
  pending : OrderStatus
  paid : OrderStatus
  closed : OrderStatus
  refunded : OrderStatus
  other : String → OrderStatus

pub data OrderError : Type 0 where
  invalid_order_number : OrderError
  invalid_user_id : OrderError
  invalid_quantity : OrderError
  invalid_pay_amount : OrderError
  invalid_payment_amount : OrderError
  already_paid : OrderError
  already_closed : OrderError
  paid_order_cannot_be_closed : OrderError
  refunded_order_cannot_be_closed : OrderError
  cannot_be_marked_paid : OrderStatus → OrderError

-- The events of internal/domain/event/order_events.go, without their BaseEvent, which has the time of
-- the recording.
pub data OrderEvent : Type 0 where
  order_created :
      (order_no : String) (user_id : ℤ) (activity_no sku_no : String) (quantity pay_amount : ℤ)
      (created_at : ℤ)
      → OrderEvent
  order_paid :
      (order_no : String) (user_id : ℤ) (transaction_no : String) (amount paid_at : ℤ) → OrderEvent
  order_closed : (order_no : String) (user_id : ℤ) (reason : String) (closed_at : ℤ) → OrderEvent

pub record Order : Type 0 where
  pub order_no : String
  pub user_id : ℤ
  pub activity_no : String
  pub sku_no : String
  pub quantity : ℤ
  pub pay_amount : ℤ
  pub status : OrderStatus
  pub trace_id : String
  pub request_trace_id : String
  pub transaction_no : String
  pub paid_at : Option ℤ
  pub closed_at : Option ℤ
  pub created_at : ℤ
  pub uncommitted_events : List OrderEvent  -- of the embedded AggregateRoot

-- `RecordEvent` of common/domain/aggregate_root.go.
unfoldable pub record_event : OrderEvent → Order → Order
record_event e o = record o { uncommitted_events = o.uncommitted_events ++ e ∷ [] }

-- `ClearEvents` of common/domain/aggregate_root.go.
unfoldable pub clear_events : Order → Order
clear_events o = record o { uncommitted_events = [] }

-- `now` is the time that the order reads, `later` the one that `NewOrderCreatedEvent` reads.
unfoldable pub create_order :
    String → ℤ → String → String → ℤ → ℤ → String → ℤ → ℤ → Result OrderError Order
unfolding record_event
create_order order_no user_id activity_no sku_no quantity pay_amount trace_id now later =
    if str_eq order_no ""
    then err invalid_order_number
    else if eq_ℤ user_id (pos 0)
    then err invalid_user_id
    else if le_ℤ quantity (pos 0)
    then err invalid_quantity
    else if le_ℤ pay_amount (pos 0)
    then err invalid_pay_amount
    else ok (
        record_event (order_created order_no user_id activity_no sku_no quantity pay_amount later)
          (record {
            order_no = order_no;
            user_id = user_id;
            activity_no = activity_no;
            sku_no = sku_no;
            quantity = quantity;
            pay_amount = pay_amount;
            status = pending;
            trace_id = trace_id;
            request_trace_id = "";
            transaction_no = "";
            paid_at = none;
            closed_at = none;
            created_at = now;
            uncommitted_events = [];
          }))

-- `MarkAsPaid`, by the order's status.
mark_from : OrderStatus → String → ℤ → ℤ → Order → Option OrderError × Order
unfolding record_event
mark_from pending transaction_no amount paid_at o =
    if eq_ℤ amount o.pay_amount
    then (
      none,
      record_event (order_paid o.order_no o.user_id transaction_no amount paid_at)
          (record o { status = paid; transaction_no = transaction_no; paid_at = some paid_at }),
    )
    else (some invalid_payment_amount, o)
mark_from paid transaction_no amount paid_at o = (some already_paid, o)
mark_from closed transaction_no amount paid_at o = (some already_closed, o)
mark_from refunded transaction_no amount paid_at o = (some (cannot_be_marked_paid refunded), o)
mark_from (other s) transaction_no amount paid_at o = (some (cannot_be_marked_paid (other s)), o)

unfoldable pub mark_as_paid : String → ℤ → ℤ → Order → Option OrderError × Order
unfolding mark_from
mark_as_paid transaction_no amount paid_at o = mark_from o.status transaction_no amount paid_at o

-- What `Close` writes where its three tests pass.
closed_order : ℤ → Order → Order
unfolding record_event
closed_order closed_at o =
    record_event (order_closed o.order_no o.user_id "user_closed" closed_at)
      (record o { status = closed; closed_at = some closed_at })

close_from : OrderStatus → ℤ → Order → Option OrderError × Order
unfolding closed_order
close_from closed closed_at o = (some already_closed, o)
close_from paid closed_at o = (some paid_order_cannot_be_closed, o)
close_from refunded closed_at o = (some refunded_order_cannot_be_closed, o)
close_from pending closed_at o = (none, closed_order closed_at o)
close_from (other s) closed_at o = (none, closed_order closed_at o)

unfoldable pub close : ℤ → Order → Option OrderError × Order
unfolding close_from
close closed_at o = close_from o.status closed_at o

abbrev pub is_pending_status : OrderStatus → Bool
is_pending_status pending = true
is_pending_status _ = false

abbrev pub is_paid_status : OrderStatus → Bool
is_paid_status paid = true
is_paid_status _ = false

unfoldable pub is_pending : Order → Bool
is_pending o = is_pending_status o.status

unfoldable pub is_paid : Order → Bool
is_paid o = is_paid_status o.status

unfoldable pub can_be_reconciled : Order → Bool
can_be_reconciled o = is_pending_status o.status || is_paid_status o.status
