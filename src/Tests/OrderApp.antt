-- ===== src/Tests/OrderApp.antt =====
-- An order that is created, paid and not closed, over pointers.
use seckill_go.Prelude.{pos, String, ◌≡◌, none, List, [], ◌∷◌}
use seckill_go.Order.Entity.{pending, Order}
use seckill_go.Order.App.{CreateOrderCommand}
use seckill_go.Order.App.Refinement.{view}
use seckill_go.Order.App.Refinement.Runs.{
  UseCase, create_case, pay_case, close_case, serve_all, promised_all, empty_heap,
  pointers_refine_values,
}

abbrev at_first : Order
at_first = record {
  order_no = "";
  user_id = pos 0;
  activity_no = "";
  sku_no = "";
  quantity = pos 0;
  pay_amount = pos 0;
  status = pending;
  trace_id = "";
  request_trace_id = "";
  transaction_no = "";
  paid_at = none;
  closed_at = none;
  created_at = pos 0;
  uncommitted_events = [];
}

abbrev creation : CreateOrderCommand
creation = record {
  order_no = "o1";
  user_id = pos 7;
  activity_no = "A";
  sku_no = "S";
  quantity = pos 1;
  pay_amount = pos 990;
  trace_id = "t1";
  request_trace_id = "";
}

abbrev use_cases : List UseCase
use_cases =
    create_case creation (pos 10) (pos 11)
    ∷ pay_case
        (record { order_no = "o1"; transaction_no = "tx"; amount = pos 990; paid_at = pos 20 })
    ∷ close_case (record { order_no = "o1"; reason = "late"; closed_at = pos 30 })
    ∷ create_case creation (pos 40) (pos 41)
    ∷ []

pointers_refine_values_example :
    ((serve_all use_cases (empty_heap (λ i. at_first))).0 ≡ (promised_all use_cases (λ n. none)).0)
    × ((n : String)
        → view (serve_all use_cases (empty_heap (λ i. at_first))).1 n
          ≡ (promised_all use_cases (λ n. none)).1 n)
pointers_refine_values_example = pointers_refine_values use_cases (λ i. at_first)
