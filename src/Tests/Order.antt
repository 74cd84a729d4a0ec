-- ===== src/Tests/Order.antt =====
-- An order that is created, paid and closed.

use seckill_go.Prelude.{if◌then◌else◌, ℤ, pos, lookup, String, ◌≡◌, refl, none, some, List, [], ◌∷◌}
use seckill_go.Order.Entity.{pending, paid, order_created, Order}
use seckill_go.Order.Entity.Lifecycle.{Command, pay, shut}
use seckill_go.Order.Status.Agreement.{Agreement, machine_agrees}
use seckill_go.Order.Store
use seckill_go.Order.Store.Batch.{is_asked, batch_agrees}
use seckill_go.Order.Store.{
  list_orders_by_activities, mark_order_paid, close_order, get_by_user_and_trace,
  list_orders_by_user, list_orders_by_activity, matching, invalid_state, MemoryStore,
}
use seckill_go.Order.Store.Final
use seckill_go.Order.Store.Final.{
  serve_all, create_call, pay_call, close_call, serve_all_settled, settled_by_first,
  pay_close_exclusive, Call,
}
use seckill_go.Order.Store.Listing.{
  IsListing, listings_exact, Answered, get_by_user_and_trace_exact,
}

abbrev waiting_order : String → ℤ → Order
waiting_order order_no created_at = record {
  order_no = order_no;
  user_id = pos 7;
  activity_no = "A";
  sku_no = "S";
  quantity = pos 1;
  pay_amount = pos 990;
  status = pending;
  trace_id = "t";
  request_trace_id = "";
  transaction_no = "";
  paid_at = none;
  closed_at = none;
  created_at = created_at;
  uncommitted_events = order_created order_no (pos 7) "A" "S" (pos 1) (pos 990) created_at ∷ [];
}

abbrev created_order : Order
created_order = record (waiting_order "o1" (pos 10)) {
  uncommitted_events = order_created "o1" (pos 7) "A" "S" (pos 1) (pos 990) (pos 11) ∷ [];
}

abbrev commands : List Command
commands = pay "x" (pos 1) (pos 11) ∷ pay "y" (pos 990) (pos 12) ∷ shut (pos 13) ∷ []

machine_agrees_example : Agreement (waiting_order "o1" (pos 10)) "y" (pos 12) pending
machine_agrees_example = machine_agrees (waiting_order "o1" (pos 10)) "y" (pos 12)

abbrev paid_order : Order
paid_order = record (waiting_order "o1" (pos 10)) {
  status = paid;
  transaction_no = "y";
  paid_at = some (pos 12);
}

abbrev two_orders : Store.MemoryStore
two_orders = ("o1", paid_order) ∷ ("o2", waiting_order "o2" (pos 20)) ∷ []

abbrev calls : List Final.Call
calls =
    close_call "o1" (pos 30)
    ∷ pay_call "o1" "z" (pos 31)
    ∷ create_call (waiting_order "o1" (pos 32))
    ∷ pay_call "o2" "z" (pos 33)
    ∷ close_call "o2" (pos 34)
    ∷ []

found_waiting : lookup "o2" two_orders ≡ some (waiting_order "o2" (pos 20))
unfolding lookup
found_waiting = refl

serve_all_settled_example :
    lookup "o2" (serve_all calls two_orders)
    ≡ some (settled_by_first "o2" calls (waiting_order "o2" (pos 20)))
serve_all_settled_example =
    serve_all_settled calls "o2" (waiting_order "o2" (pos 20)) two_orders refl found_waiting

pay_close_exclusive_example :
    let s_paid = (mark_order_paid "o2" "z" (pos 40) two_orders).1 in
    let s_closed = (close_order "o2" (pos 41) two_orders).1 in
    ((mark_order_paid "o2" "z" (pos 40) two_orders).0 ≡ none)
    × (close_order "o2" (pos 41) s_paid ≡ (some invalid_state, s_paid))
    × ((close_order "o2" (pos 41) two_orders).0 ≡ none)
    × (mark_order_paid "o2" "z" (pos 40) s_closed ≡ (some invalid_state, s_closed))
pay_close_exclusive_example =
    pay_close_exclusive "o2" "z" (pos 40) (pos 41) (waiting_order "o2" (pos 20)) two_orders
      found_waiting refl

listings_exact_example :
    IsListing (λ o. o.user_id ≡ pos 7) two_orders (list_orders_by_user (pos 7) two_orders)
    × IsListing (λ o. o.activity_no ≡ "A") two_orders (list_orders_by_activity "A" two_orders)
listings_exact_example = listings_exact (pos 7) "A" two_orders

get_by_user_and_trace_exact_example :
    Answered (pos 7) "t" two_orders (get_by_user_and_trace (pos 7) "t" two_orders)
get_by_user_and_trace_exact_example = get_by_user_and_trace_exact (pos 7) "t" two_orders

batch_agrees_example :
    lookup "A" (list_orders_by_activities ("B" ∷ "A" ∷ "" ∷ "A" ∷ []) two_orders) ≡ (
      if is_asked "A" ("B" ∷ "A" ∷ "" ∷ "A" ∷ [])
      then some (list_orders_by_activity "A" two_orders)
      else none)
batch_agrees_example = batch_agrees ("B" ∷ "A" ∷ "" ∷ "A" ∷ []) "A" two_orders
