-- ===== src/Order/App/Refinement.antt =====
-- What the use cases promise, over plain values, and that the ones over pointers keep it.
pub mod Storing
pub mod Runs
use seckill_go.Prelude.{
  if◌then◌else◌, ℤ, ok, err, lookup, ℕ, ◌<◌, String, ◌≡◌, Option, none, some, [], str_eq,
}
use seckill_go.Order.Entity.{OrderError, Order, clear_events, create_order, mark_as_paid, close}
use seckill_go.Order.App.{
  Heap, AppError, invalid_command, create_failed, load_failed, mark_failed, close_failed,
  CreateOrderCommand, PayOrderCommand, CloseOrderCommand, validate_create, validate_pay,
  validate_close, Answer,
}

-- The orders by their numbers, as values.
abbrev pub Orders : Type 0
Orders = String → Option Order

abbrev pub put : String → Order → Orders → Orders
put n o st = λ m. if str_eq n m then some o else st m

-- An order that is changed without an error is stored under the number, its events published.
pub changed : (OrderError → AppError) → String → Option OrderError × Order → Orders → Answer Orders
changed failure n (some e, o) st = (some (failure e), ([], st))
changed failure n (none, o) st = (none, (o.uncommitted_events, put n (clear_events o) st))

pub create_promised : CreateOrderCommand → ℤ → ℤ → Orders → Answer Orders
create_promised c now later st = elim (validate_create c) [
  | some reason ↦ (some (invalid_command reason), ([], st))
  | none ↦
      elim (create_order c.order_no c.user_id c.activity_no c.sku_no c.quantity c.pay_amount
        c.trace_id now later) [
          | err e ↦ (some (create_failed e), ([], st))
          | ok o ↦
              changed create_failed c.order_no
                (none, record o { request_trace_id = c.request_trace_id }) st
        ]
]

pub pay_promised : PayOrderCommand → Orders → Answer Orders
pay_promised c st = elim (validate_pay c) [
  | some reason ↦ (some (invalid_command reason), ([], st))
  | none ↦ elim (st c.order_no) [
    | none ↦ (some load_failed, ([], st))
    | some o ↦
        changed mark_failed c.order_no (mark_as_paid c.transaction_no c.amount c.paid_at o) st
  ]
]

pub close_promised : CloseOrderCommand → Orders → Answer Orders
close_promised c st = elim (validate_close c) [
  | some reason ↦ (some (invalid_command reason), ([], st))
  | none ↦ elim (st c.order_no) [
    | none ↦ (some load_failed, ([], st))
    | some o ↦ changed close_failed c.order_no (close c.closed_at o) st
  ]
]

abbrev pub deref : Heap → Option ℕ → Option Order
deref h none = none
deref h (some p) = some (h.objects p)

-- The values that the pointers stand for.
abbrev pub view : Heap → Orders
view h n = deref h (lookup n h.refs)

-- A pointer under a number leads to an object with this number.
abbrev pub Leads : Heap → String → Option ℕ → Type 0
Leads h n none = Unit
Leads h n (some p) = ((h.objects p).order_no ≡ n) × (p < h.next)

abbrev pub IsSound : Heap → Type 0
IsSound h = (n : String) → Leads h n (lookup n h.refs)

-- What a use case over pointers leaves, where the one over values leaves `st'`.
abbrev pub Agrees : Answer Heap → Answer Orders → Type 0
Agrees (e, (events, h)) (e', (events', st)) =
    (e ≡ e') × (events ≡ events') × IsSound h × ((n : String) → view h n ≡ st n)
