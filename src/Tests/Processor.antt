-- ===== src/Tests/Processor.antt =====
-- A shop with one open activity, whose world is the number of units that it has left.
use seckill_go.Prelude.{
  ltb, if◌then◌else◌, is_some, get_or, pos, ◌*ℤ◌, wrap64, mul64, ok, err, Assoc, lookup, insert,
  delete, lookup-insert, contains, decimal, ℕ, ◌+◌, ◌-◌, String, ◌≡◌, refl, true, false, not,
  Option, none, [], arith, str_eq, eq_refl,
}
use seckill_go.Errors.{}
use seckill_go.Processor.Model.{
  order_not_found, Failure, is_open, effective_limit, calc_price, SubmitCommand, shard_id,
}
use seckill_go.Processor.Submit.{Gateways, Setting, submit}
use seckill_go.Processor.Submit.Events.{Answers, submit-Answers}
use seckill_go.Processor.Submit.StockBalance.{journaled, IsSettled, submit_settles_stock}
use seckill_go.Processor.Intake.{Redis, Intake, normalise, try_start, execute}
use seckill_go.Processor.Intake
use seckill_go.Processor.Intake.Replay.{RedisWorks, replay_is_ignored}

abbrev shop : Gateways ℕ
shop = record {
  get_activity = λ a w. ok (record {
    activity_no = a;
    start_time = pos 0;
    end_time = pos 1000;
    status = pos 1;
    purchase_limit = pos 2;
  });
  evaluate = λ u ip w. ok (record { risk = false; level = pos 0; reason = "" });
  get_sku = λ a s w. ok (record {
    activity_no = a;
    sku_no = s;
    total_stock = pos 5;
    seckill_price = pos 990;
    limit_quantity = pos 1;
  });
  next_order_no = λ w. ("N", w);
  deduct = λ a s u q l n w. (ok (ltb 0 w), w - 1);
  release = λ a s u q n w. (none, w + 1);
  create_order = λ o w. (none, w);
  get_by_user_and_trace = λ u t w. err (record { message = ""; sentinel = order_not_found });
  is_temporary = λ f. false;
}

abbrev setting : Setting
setting = record {
  now = pos 10;
  smoke_no_limit = false;
  has_events = true;
  risk_fails_first = false;
}

abbrev command : SubmitCommand
command = record {
  trace_id = "t";
  request_trace_id = "rt";
  activity_no = "A";
  sku_no = "S";
  user_id = pos 7;
  quantity = pos 1;
  total_fee = pos 0;
  request_ip = "";
  run_id = "";
}

submit-Answers_example :
    Answers "t" (submit shop setting command 5).error (submit shop setting command 5).events
submit-Answers_example = submit-Answers shop setting command 5 refl

submit_settles_stock_example : IsSettled (submit (journaled shop) setting command ([], 5)).world.0
submit_settles_stock_example = submit_settles_stock shop setting command 5

-- Redis as a map, without expiry.
abbrev redis : Redis (Assoc String)
redis = record {
  set_nx = λ key v k.
      (ok (not (is_some (lookup key k))), if is_some (lookup key k) then k else insert key v k);
  set = λ key v k. (none, insert key v k);
  delete_if = λ key v k. (none, if str_eq (get_or (lookup key k) "") v then delete key k else k);
}

redis-RedisWorks : RedisWorks redis
redis-RedisWorks = record {
  has = λ key k. is_some (lookup key k);
  set_nx_fills = λ key v k b h. ground (arith, lookup-insert key key v k, eq_refl key);
  set_nx_fails = λ key v k h. ((λ e. ground arith), ground arith);
  set_keeps = λ key v j k h. ground (arith, lookup-insert key j v k);
}

abbrev intake : Intake ℕ
intake = record {
  has_processor_store = true;
  has_trace_results = true;
  has_payment_timeouts = false;
  payment_timeout_delay = pos 600;
  publish_payment_timeout = λ n at w. w;
}

abbrev first_answer : Option Failure × (Assoc String × ℕ)
first_answer = Intake.execute redis shop setting intake command ([], 5)

first_succeeds : first_answer ≡ (none, (first_answer.1.0, first_answer.1.1))
unfolding Intake.execute Intake.try_start normalise submit contains decimal lookup is_open
    effective_limit calc_price shard_id insert mul64 wrap64 ◌*ℤ◌
first_succeeds = refl

trace_is_filled : str_eq (normalise command).trace_id "" ≡ false
unfolding normalise
trace_is_filled = refl

replay_is_ignored_example :
    (Intake.execute redis shop setting intake command first_answer.1).1 ≡ first_answer.1
replay_is_ignored_example =
    replay_is_ignored redis redis-RedisWorks shop setting intake command [] first_answer.1.0 5
      first_answer.1.1 refl trace_is_filled first_succeeds
