-- ===== src/Order/App.antt =====
-- services/order-service/internal/application/order_service.go and command.go over the repository of
-- internal/infrastructure/persistence/memory_repository.go, which keeps pointers: an order that is
-- loaded, changed and saved is one object, so that a change is in the repository before it is saved.
-- A method takes the heap last; the bus takes each event, its errors are only logged.
pub mod Refinement
use seckill_go.Prelude.{
  ◌==◌, if◌then◌else◌, ℤ, pos, le_ℤ, ok, err, Assoc, insert, lookup, ℕ, suc, String, Option, none,
  some, List, [], str_eq,
}
use seckill_go.Order.Entity.{
  OrderError, OrderEvent, Order, clear_events, create_order, mark_as_paid, close,
}

-- The objects by their addresses, the next free address and the map of pointers.
pub record Heap : Type 0 where
  pub objects : ℕ → Order
  pub next : ℕ
  pub refs : Assoc ℕ

pub data AppError : Type 0 where
  invalid_command : (reason : String) → AppError
  create_failed : OrderError → AppError
  load_failed : AppError
  mark_failed : OrderError → AppError
  close_failed : OrderError → AppError

-- `*p = o`
abbrev pub write : ℕ → Order → Heap → Heap
write p o h = record h { objects = λ (i : ℕ). if i == p then o else h.objects i }

-- `&o`
abbrev pub allocate : Order → Heap → ℕ × Heap
allocate o h = (h.next, record (write h.next o h) { next = suc h.next })

-- `Save` never fails.
unfoldable pub save : ℕ → Heap → Heap
save p h = record h { refs = insert (h.objects p).order_no p h.refs }

unfoldable pub get_by_order_no : String → Heap → Option ℕ
get_by_order_no order_no h = lookup order_no h.refs

pub record CreateOrderCommand : Type 0 where
  pub order_no : String
  pub user_id : ℤ
  pub activity_no : String
  pub sku_no : String
  pub quantity : ℤ
  pub pay_amount : ℤ
  pub trace_id : String
  pub request_trace_id : String

pub record PayOrderCommand : Type 0 where
  pub order_no : String
  pub transaction_no : String
  pub amount : ℤ
  pub paid_at : ℤ

pub record CloseOrderCommand : Type 0 where
  pub order_no : String
  pub reason : String
  pub closed_at : ℤ

-- The three `Validate`: the reason of the first check that fails.
unfoldable pub validate_create : CreateOrderCommand → Option String
validate_create c =
    if str_eq c.order_no ""
    then some "order no is required"
    else if le_ℤ c.user_id (pos 0)
    then some "user id must be positive"
    else if str_eq c.activity_no ""
    then some "activity no is required"
    else if str_eq c.sku_no ""
    then some "sku no is required"
    else if le_ℤ c.quantity (pos 0)
    then some "quantity must be positive"
    else if le_ℤ c.pay_amount (pos 0)
    then some "pay amount must be positive"
    else none

unfoldable pub validate_pay : PayOrderCommand → Option String
validate_pay c =
    if str_eq c.order_no ""
    then some "order no is required"
    else if str_eq c.transaction_no ""
    then some "transaction no is required"
    else if le_ℤ c.amount (pos 0)
    then some "amount must be positive"
    else none

unfoldable pub validate_close : CloseOrderCommand → Option String
validate_close c =
    if str_eq c.order_no ""
    then some "order no is required"
    else if str_eq c.reason ""
    then some "reason is required"
    else none

-- The answer of a use case: its error, the events given to the bus, and the heap.
abbrev pub Answer : Type 0 → Type 0
Answer S = Option AppError × (List OrderEvent × S)

-- `publishEvents`, then `return nil`.
unfoldable pub publish_events : ℕ → Heap → Answer Heap
unfolding clear_events
publish_events p h =
    (none, ((h.objects p).uncommitted_events, write p (clear_events (h.objects p)) h))

-- `now` and `later` are the times that `entity.CreateOrder` and the event of the creation read.
unfoldable pub create_order_case : CreateOrderCommand → ℤ → ℤ → Heap → Answer Heap
unfolding validate_create create_order save publish_events
create_order_case c now later h =
    let created =
      create_order c.order_no c.user_id c.activity_no c.sku_no c.quantity c.pay_amount c.trace_id
        now later in
    elim (validate_create c) [
      | some reason ↦ (some (invalid_command reason), ([], h))
      | none ↦ elim created [
        | err e ↦ (some (create_failed e), ([], h))
        | ok o ↦
            let (p, h1) = allocate (record o { request_trace_id = c.request_trace_id }) h in
            publish_events p (save p h1)
      ]
    ]

-- From the error of `MarkAsPaid` or `Close` on, which changed the object at `p`.
unfoldable pub applied :
    ℕ → Option OrderError × Order → (OrderError → AppError) → Heap → Answer Heap
unfolding save publish_events
applied p (error, o) failure h =
    let h1 = write p o h in
    elim error [ some e ↦ (some (failure e), ([], h1)) | none ↦ publish_events p (save p h1) ]

unfoldable pub pay_order_case : PayOrderCommand → Heap → Answer Heap
unfolding validate_pay get_by_order_no mark_as_paid applied
pay_order_case c h = elim (validate_pay c) [
  | some reason ↦ (some (invalid_command reason), ([], h))
  | none ↦ elim (get_by_order_no c.order_no h) [
    | none ↦ (some load_failed, ([], h))
    | some p ↦
        applied p (mark_as_paid c.transaction_no c.amount c.paid_at (h.objects p)) mark_failed h
  ]
]

unfoldable pub close_order_case : CloseOrderCommand → Heap → Answer Heap
unfolding validate_close get_by_order_no close applied
close_order_case c h = elim (validate_close c) [
  | some reason ↦ (some (invalid_command reason), ([], h))
  | none ↦ elim (get_by_order_no c.order_no h) [
    | none ↦ (some load_failed, ([], h))
    | some p ↦ applied p (close c.closed_at (h.objects p)) close_failed h
  ]
]
