-- ===== src/Tests/PaymentTimeout.antt =====
-- The timeout of a pending order, over a world that says whether the order is closed.
use seckill_go.Prelude.{
  if◌then◌else◌, pos, ok, trim_space, ◌≡◌, refl, Bool, true, false, Option, none, some, [], ◌∷◌,
}
use seckill_go.Errors.{RpcError}
use seckill_go.Processor.Model.{pending, closed, OrderInfo}
use seckill_go.Processor.PaymentTimeout.{PaymentTimeoutTask, TimeoutGateways, execute}
use seckill_go.Processor.PaymentTimeout.Closing.{
  closed_order, released, succeeded, recorded, IsOrderly, execute-IsOrderly,
}
use seckill_go.Processor.PaymentTimeout.Lost.{failed_release_is_lost}

abbrev order_in : Bool → OrderInfo
order_in is_shut = record {
  order_no = "o1";
  user_id = pos 7;
  activity_no = "A";
  sku_no = "S";
  quantity = pos 1;
  pay_amount = pos 990;
  status = if is_shut then closed else pending;
  transaction_no = "";
  paid_at = none;
  created_at = pos 10;
}

abbrev unavailable : RpcError
unavailable = record {
  message = "unavailable";
  is_deadline = false;
  kratos_code = 503;
  grpc_code = 14;
  wraps_not_found = false;
  wraps_invalid_state = false;
  wraps_terminal = false;
}

-- The stock service answers a release with an error, or not.
abbrev services : Option RpcError → TimeoutGateways Bool
services release_error = record {
  get_order = λ n w. ok (order_in w);
  mark_order_paid = λ n t at w. (none, w);
  close_order = λ n w. (none, true);
  release_stock = λ a s u q n w. (release_error, w);
  query_payment =
      λ n w. ok (record { order_no = n; pay_status = pos 0; transaction_no = ""; paid_at = none });
  close_payment = λ n w. (none, w);
  now = pos 1000;
}

abbrev task : PaymentTimeoutTask
task = record { order_no = " o1 "; request_trace_id = ""; due_at = pos 900 }

execute-IsOrderly_example :
    IsOrderly
      (trim_space " o1 ")
      ((services none).get_order (trim_space " o1 ") false)
      (execute (recorded (services none)) task ([], false)).0
      (execute (recorded (services none)) task ([], false)).1.0
execute-IsOrderly_example = execute-IsOrderly (services none) task false

release_refused :
    (execute (recorded (services (some unavailable))) task ([], false)).1
    ≡ (released "A" "S" (pos 7) (pos 1) "o1" false ∷ closed_order "o1" true ∷ [], true)
unfolding execute trim_space
release_refused = refl

failed_release_is_lost_example :
    (succeeded (execute (recorded (services (some unavailable))) task ([], false)).0 ≡ false)
    × (execute (recorded (services (some unavailable))) task ([], true) ≡ (none, ([], true)))
failed_release_is_lost_example =
    failed_release_is_lost (services (some unavailable)) task false true "A" "S" "o1" (pos 7)
      (pos 1) (closed_order "o1" true ∷ []) (λ m a s n u q v. refl) release_refused
