-- ===== src/Order/Status/Agreement.antt =====
-- The status machine against the order aggregate: two implementations of the same transitions.
use seckill_go.Prelude.{ℤ, String, ◌≡◌, true, false, some, arith, none}
use seckill_go.Order.Entity.{
  pending, already_closed, paid_order_cannot_be_closed, Order, record_event, clear_events,
  mark_as_paid, close, OrderStatus, paid, closed,
}
use seckill_go.Order.Status.{transit_order_paid, transit_order_closed}

-- The order without its event log, which the status machine does not write.
abbrev pub SameButEvents : Order → Order → Type 0
SameButEvents o o' = clear_events o ≡ clear_events o'

-- What both say of an order with a status.
abbrev pub Agreement : Order → String → ℤ → OrderStatus → Type 0
Agreement o txn at pending =
    ((mark_as_paid txn o.pay_amount at o).0 ≡ none)
    × ((transit_order_paid o txn at).1 ≡ true)
    × SameButEvents (transit_order_paid o txn at).0 (mark_as_paid txn o.pay_amount at o).1
    × ((close at o).0 ≡ none)
    × ((transit_order_closed o at).1 ≡ true)
    × SameButEvents (transit_order_closed o at).0 (close at o).1
Agreement o txn at paid =
    ((close at o).0 ≡ some paid_order_cannot_be_closed) × (transit_order_closed o at ≡ (o, false))
Agreement o txn at closed =
    ((mark_as_paid txn o.pay_amount at o).0 ≡ some already_closed)
    × (transit_order_paid o txn at ≡ (o, false))
Agreement o txn at _ = Unit

-- For a pending order, the aggregate and the status machine both accept a payment of its amount and
-- a closing, and compute the same order, the event log aside; a paid order is closed by neither,
-- and a closed order is paid by neither.
pub machine_agrees : (o : Order) (txn : String) (at : ℤ) → Agreement o txn at o.status
unfolding transit_order_paid transit_order_closed mark_as_paid close clear_events record_event
machine_agrees o txn at = ground arith
