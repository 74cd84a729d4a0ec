-- ===== src/Tests/GatewayEntry.antt =====
-- The entry of the flash sale and its worker pool, on a queue that is a list of events.
use seckill_go.Prelude.{
  ltb, if◌then◌else◌, pos, ◌*ℤ◌, wrap64, mul64, ok, ℕ, ◌+◌, ◌≡◌, refl, true, false, Option, none,
  some, List, [], ◌∷◌,
}
use seckill_go.Gateway.Entry.{
  ActivityDetail, PartInEvent, Setting, Services, risk_enabled, machine_check_enabled,
  calculate_pay_amount, Request, event_of, pass_machine, acquire_user_rate_limit, set_queued_trace,
  record_seckill_action,
}
use seckill_go.Gateway.Entry.Slow.{
  publish_event, after_risk, check_risk, with_activity, part_in_slow_path, part_in,
}
use seckill_go.Gateway.Entry.Polling.{PollServices, check_queue, ReportsAnswer, check_queue_reports}
use seckill_go.Gateway.Entry.Verdicts.{recorded, Justifies}
use seckill_go.Gateway.Entry.Verdicts.Answered.{part_in-Justifies}
use seckill_go.Gateway.Pool.{
  WorkerPoolConfig, normalized, new_channel, size, submit, receive, close, PoolServices,
  process_event,
}
use seckill_go.Gateway.Pool.Worker.{
  selecting, draining, returned, worker_turn, notice, launch, set_worker, turn, notice_cancel,
  shut_down,
}
use seckill_go.Gateway.Pool.Queueing.{
  Step, submitted, cancelled, closed, turned, noticed, History, step, run, start,
}
use seckill_go.Gateway.Pool.Processing.{Settles, process_event-Settles}

abbrev activity : ActivityDetail
activity = record {
  activity_no = "A";
  activity_status = pos 1;
  activity_open = true;
  products = record { sku_no = "S"; seckill_price = pos 990 } ∷ [];
}

abbrev request : Request
request = record {
  user_id = pos 7;
  activity_no = "A";
  sku_no = "S";
  request_ip = "10.0.0.1";
  machine_token = "m";
  quantity = pos 2;
  trace_id = "t1";
  run_id = "";
}

abbrev services : Services (List PartInEvent)
services = record {
  check_machine = λ u t w. (true, w);
  acquire_and_set_processing = λ u r i x k w. (ok true, w);
  try_acquire = λ u r i x w. (ok true, w);
  set_processing = λ t w. w;
  set_failed = λ t m w. w;
  submit = λ e w. (none, e ∷ w);
  publish = λ e w. (none, e ∷ w);
  set_queued = λ u a t x w. w;
  get_activity = λ n w. (ok (some activity), w);
  is_risk_user = λ u w. (ok false, w);
  mark_suspicious = λ a u ip w. w;
  record_action = λ r w. w;
  peek = λ a s w. (ok (pos 5), w);
  now = λ w. pos 100;
}

abbrev setting : Setting
setting = record {
  rate_limit = record {
    user_enabled = true;
    user_rate = pos 0;
    user_interval = pos 0;
    user_expire = pos 0;
  };
  static_risk = true;
  static_machine_check = true;
  dynamic_risk = none;
  dynamic_machine_check = none;
  has_checker = true;
  has_pipeline = true;
  has_limiter = true;
  has_results = true;
  has_queue_state = true;
  has_risk = true;
}

part_in-Justifies_example :
    let (answer, (vs, w')) = part_in (recorded services) setting request false ([], []) in
    Justifies request vs answer
part_in-Justifies_example = part_in-Justifies services setting request false []

-- The slow path prices the event; the fast one leaves the price to the processor.
slow_path_prices : (part_in services setting request false []).1 ≡ event_of request (pos 1980) ∷ []
unfolding part_in part_in_slow_path pass_machine machine_check_enabled acquire_user_rate_limit
    with_activity check_risk risk_enabled after_risk publish_event set_queued_trace
    record_seckill_action calculate_pay_amount mul64 wrap64 ◌*ℤ◌
slow_path_prices = refl

abbrev polls : PollServices
polls = record {
  has_results = true;
  has_queue_state = false;
  has_order = false;
  get_result = λ t. ok (some (record { status = "success"; order_no = "o1"; error = "" }));
  get_queued_trace = λ u a. ok "";
  list_orders_by_activity = λ a. ok [];
}

check_queue_reports_example :
    ReportsAnswer "t1"
      (some (record { status = "success"; order_no = "o1"; error = "" }))
      (check_queue polls "t1")
check_queue_reports_example =
    check_queue_reports polls "t1"
      (some (record { status = "success"; order_no = "o1"; error = "" })) refl refl refl

abbrev pool : PoolServices (List PartInEvent)
pool = record {
  has_results = true;
  has_risk = true;
  has_stock = true;
  risk_check = none;
  stock_peek = none;
  set_processing = λ t w. w;
  set_failed = λ t m w. w;
  is_risk_user = λ u w. (ok false, w);
  get_activity = λ n w. (ok activity, w);
  peek = λ a s w. (ok (pos 5), w);
  publish = λ e w. (none, e ∷ w);
}

process_event-Settles_example :
    Settles
      (event_of request (pos 0))
      "t1"
      (process_event
        (seckill_go.Gateway.Pool.Processing.recorded pool)
        "worker-1-2"
        (event_of request (pos 0))
        ([], [])).0
process_event-Settles_example =
    process_event-Settles pool refl (event_of request (pos 0)) "worker-1-2" []

abbrev one_place : WorkerPoolConfig
one_place = record { queue_size = pos 1; worker_count = pos 1 }

-- The worker takes an event, another one is refused and a third accepted, and the pool is shut down.
abbrev steps : List Step
steps =
    submitted (event_of request (pos 0))
    ∷ submitted (event_of request (pos 1))
    ∷ turned 0
    ∷ submitted (event_of request (pos 2))
    ∷ cancelled
    ∷ noticed 0
    ∷ closed
    ∷ []

-- The world counts the events.
abbrev count_one : PartInEvent → ℕ → ℕ
count_one e n = n + 1

abbrev ended : History ℕ
ended = record {
  accepted = event_of request (pos 0) ∷ event_of request (pos 2) ∷ [];
  pool = record {
    channel = record { capacity = 1; waiting = event_of request (pos 2) ∷ []; is_closed = true };
    workers =
        set_worker 0 draining
          (set_worker 0 selecting (λ i. if ltb i 1 then selecting else returned));
    is_cancelled = true;
    world = (event_of request (pos 0) ∷ [], 1);
  };
}

-- An event that is accepted after the workers returned and before the channel is closed waits for
-- good.
abbrev late_steps : List Step
late_steps =
    cancelled ∷ noticed 0 ∷ turned 0 ∷ submitted (event_of request (pos 0)) ∷ closed ∷ turned 0 ∷ []

abbrev waiting_after : Option (History ℕ) → List PartInEvent
waiting_after none = []
waiting_after (some h) = h.pool.channel.waiting

late_event_waits :
    waiting_after (run count_one late_steps (start count_one (pos 4) one_place 0))
    ≡ event_of request (pos 0) ∷ []
unfolding run step submit size new_channel normalized launch turn worker_turn receive notice_cancel
    notice shut_down close
late_event_waits = refl
