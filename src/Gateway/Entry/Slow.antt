-- ===== src/Gateway/Entry/Slow.antt =====
-- services/seckill-gateway/internal/application/seckill.go: the entry without a worker pool, which
-- asks the other services before it publishes.
use seckill_go.Prelude.{
  if◌then◌else◌, pos, le_ℤ, Result, ok, err, String, Bool, false, not, ◌||◌, Option, none, some,
}
use seckill_go.Errors.{RpcError, is_rpc_not_found_error, is_rpc_failed_precondition_error}
use seckill_go.Gateway.Entry.{
  ActivityDetail, PartInResult, Setting, Services, risk_enabled, seckill_queued, seckill_rejected,
  calculate_pay_amount, Request, event_of, pass_machine, acquire_user_rate_limit, set_queued_trace,
  mark_suspicious, record_seckill_action,
}
use seckill_go.Gateway.Entry.Fast.{
  EntryError, activity_not_found, stock_pre_check, seckill_fail, system_busy, part_in_fast_path,
}

abbrev pub activity_missing : String → PartInResult
activity_missing sku_no = seckill_rejected "7" "活动不存在" sku_no

abbrev pub activity_closed : String → PartInResult
activity_closed sku_no = seckill_rejected "7" "活动尚未开始或已结束" sku_no

abbrev pub risk_rejected : String → PartInResult
risk_rejected sku_no = seckill_rejected "8" "请求异常，请稍后重试" sku_no

abbrev pub stock_empty : String → PartInResult
stock_empty sku_no = seckill_rejected "6" "手慢了，商品已售罄" sku_no

module _ {W : Type 0} (g : Services W) (env : Setting) (q : Request) where
  -- From the publication on.
  unfoldable pub publish_event : ActivityDetail → W → PartInResult × W
  unfolding set_queued_trace record_seckill_action calculate_pay_amount
  publish_event a w =
      let event = event_of q (calculate_pay_amount a.products q.sku_no q.quantity) in
      let (error, w1) = g.publish event w in
      elim error [
        | some e ↦ (system_busy q.sku_no, w1)
        | none ↦ (
          seckill_queued q.trace_id q.sku_no,
          record_seckill_action g env event (set_queued_trace g env q w1),
        )
      ]

  -- From the look at the stock on.
  unfoldable pub after_risk : ActivityDetail → W → Result EntryError PartInResult × W
  unfolding publish_event
  after_risk a w =
      let (peeked, w1) = g.peek q.activity_no q.sku_no w in
      let (answer, w2) = publish_event a w1 in
      elim peeked [
        | err e ↦
            if is_rpc_not_found_error e || is_rpc_failed_precondition_error e
            then (ok (stock_empty q.sku_no), w1)
            else (err (stock_pre_check e), w1)
        | ok stock ↦ if le_ℤ stock (pos 0) then (ok (stock_empty q.sku_no), w1) else (ok answer, w2)
      ]

  -- The risk check of an open activity; an error lets the user pass.
  unfoldable pub check_risk : W → Bool × W
  unfolding risk_enabled
  check_risk w =
      let (answer, w1) = g.is_risk_user q.user_id w in
      if not (risk_enabled env) || not env.has_risk
      then (false, w)
      else (elim answer [ err e ↦ false | ok is_risk ↦ is_risk ], w1)

  -- From the answer of the activity service on.
  unfoldable pub with_activity :
      Result RpcError (Option ActivityDetail) → W → Result EntryError PartInResult × W
  unfolding mark_suspicious check_risk after_risk
  with_activity (err e) w =
      if is_rpc_not_found_error e
      then (ok (activity_missing q.sku_no), w)
      else (err (activity_not_found e), w)
  with_activity (ok none) w = (ok (activity_missing q.sku_no), w)
  with_activity (ok (some a)) w =
      let (is_risk, w1) = check_risk w in
      let rest = after_risk a w1 in
      if not a.activity_open
      then (ok (activity_closed q.sku_no), mark_suspicious g env a q w)
      else if is_risk
      then (ok (risk_rejected q.sku_no), w1)
      else rest

  unfoldable pub part_in_slow_path : W → Result EntryError PartInResult × W
  unfolding pass_machine acquire_user_rate_limit with_activity
  part_in_slow_path w =
      let (human, w1) = pass_machine g env q w in
      let (allowed, w2) = acquire_user_rate_limit g env q.user_id w1 in
      let (read, w3) = g.get_activity q.activity_no w2 in
      let rest = with_activity read w3 in
      if not human
      then (ok (seckill_fail q.sku_no), w1)
      else if not allowed
      then (ok (seckill_fail q.sku_no), w2)
      else rest

  -- `PartIn`, for a request that has a trace id.
  unfoldable pub part_in : Bool → W → Result EntryError PartInResult × W
  unfolding part_in_fast_path part_in_slow_path
  part_in has_pool w = if has_pool then part_in_fast_path g env q w else part_in_slow_path w
