-- ===== src/Gateway/Entry.antt =====
-- services/seckill-gateway/internal/application/seckill.go and ports.go: the types and helpers of the
-- entry. Metrics and logs are left out; the trace id is given.
pub mod Fast
pub mod Slow
pub mod Polling
pub mod Verdicts
use seckill_go.Prelude.{
  if◌then◌else◌, get_or, ℤ, pos, lt_ℤ, le_ℤ, mul64, Result, ok, err, decimal, String, append, Bool,
  true, false, not, ◌||◌, Option, List, [], ◌∷◌, str_eq,
}
use seckill_go.Errors.{RpcError}

pub record ProductDetail : Type 0 where
  pub sku_no : String
  pub seckill_price : ℤ

-- The texts of the times are not read by the entry.
pub record ActivityDetail : Type 0 where
  pub activity_no : String
  pub activity_status : ℤ
  pub activity_open : Bool
  pub products : List ProductDetail

pub record PartInEvent : Type 0 where
  pub user_id : ℤ
  pub activity_no : String
  pub sku_no : String
  pub quantity : ℤ
  pub total_fee : ℤ
  pub request_ip : String
  pub trace_id : String
  pub run_id : String
  pub machine_pass : Bool

pub record PartInResult : Type 0 where
  pub code : String
  pub message : String
  pub token : String
  pub sku_no : String
  pub queued : Bool

pub record RiskRecord : Type 0 where
  pub user_id : ℤ
  pub action_type : String
  pub risk_level : ℤ
  pub request_ip : String
  pub request_info : String
  pub created_at : ℤ

pub record RateLimitConfig : Type 0 where
  pub user_enabled : Bool
  pub user_rate : ℤ
  pub user_interval : ℤ
  pub user_expire : ℤ

-- The configuration, and which collaborators are set; `dynamic_risk` and `dynamic_machine_check` are
-- the answers of the dynamic configuration, `none` where there is none.
pub record Setting : Type 0 where
  pub rate_limit : RateLimitConfig
  pub static_risk : Bool
  pub static_machine_check : Bool
  pub dynamic_risk : Option Bool
  pub dynamic_machine_check : Option Bool
  pub has_checker : Bool
  pub has_pipeline : Bool
  pub has_limiter : Bool
  pub has_results : Bool
  pub has_queue_state : Bool
  pub has_risk : Bool

-- The collaborators; `submit` and `publish` hand an event over.
pub record Services (W : Type 0) : Type 0 where
  pub check_machine : ℤ → String → W → Bool × W
  pub acquire_and_set_processing : ℤ → ℤ → ℤ → ℤ → String → W → Result RpcError Bool × W
  pub try_acquire : ℤ → ℤ → ℤ → ℤ → W → Result RpcError Bool × W
  pub set_processing : String → W → W
  pub set_failed : String → String → W → W
  pub submit : PartInEvent → W → Option RpcError × W
  pub publish : PartInEvent → W → Option RpcError × W
  pub set_queued : ℤ → String → String → ℤ → W → W
  pub get_activity : String → W → Result RpcError (Option ActivityDetail) × W
  pub is_risk_user : ℤ → W → Result RpcError Bool × W
  pub mark_suspicious : ActivityDetail → ℤ → String → W → W
  pub record_action : RiskRecord → W → W
  pub peek : String → String → W → Result RpcError ℤ × W
  pub now : W → ℤ

unfoldable pub risk_enabled : Setting → Bool
risk_enabled env = get_or env.dynamic_risk env.static_risk

unfoldable pub machine_check_enabled : Setting → Bool
machine_check_enabled env = get_or env.dynamic_machine_check env.static_machine_check

abbrev pub seckill_queued : String → String → PartInResult
seckill_queued trace_id sku_no = record {
  code = "0";
  message = "抢购成功，请等待排队结果";
  token = trace_id;
  sku_no = sku_no;
  queued = true;
}

abbrev pub seckill_rejected : String → String → String → PartInResult
seckill_rejected code message sku_no = record {
  code = code;
  message = message;
  token = "";
  sku_no = sku_no;
  queued = false;
}

abbrev pub or_default : ℤ → ℤ → ℤ
or_default v d = if lt_ℤ (pos 0) v then v else d

-- 10 requests in 10 seconds, kept for 5 minutes.
abbrev pub user_rate_or_default : RateLimitConfig → ℤ
user_rate_or_default c = or_default c.user_rate (pos 10)

abbrev pub user_interval_or_default : RateLimitConfig → ℤ
user_interval_or_default c = or_default c.user_interval (pos 10000000000)

abbrev pub user_expire_or_default : RateLimitConfig → ℤ
user_expire_or_default c = or_default c.user_expire (pos 300000000000)

unfoldable pub calculate_pay_amount : List ProductDetail → String → ℤ → ℤ
calculate_pay_amount [] sku_no quantity = pos 0
calculate_pay_amount (p ∷ rest) sku_no quantity =
    let later = calculate_pay_amount rest sku_no quantity in
    if str_eq p.sku_no sku_no then mul64 p.seckill_price quantity else later

-- What a caller asks for.
pub record Request : Type 0 where
  pub user_id : ℤ
  pub activity_no : String
  pub sku_no : String
  pub request_ip : String
  pub machine_token : String
  pub quantity : ℤ
  pub trace_id : String
  pub run_id : String

abbrev pub event_of : Request → ℤ → PartInEvent
event_of q total_fee = record {
  user_id = q.user_id;
  activity_no = q.activity_no;
  sku_no = q.sku_no;
  quantity = q.quantity;
  total_fee = total_fee;
  request_ip = q.request_ip;
  trace_id = q.trace_id;
  run_id = q.run_id;
  machine_pass = true;
}

module _ {W : Type 0} (g : Services W) (env : Setting) where
  -- The machine check, where it is on.
  unfoldable pub pass_machine : Request → W → Bool × W
  unfolding machine_check_enabled
  pass_machine q w =
      if not (machine_check_enabled env)
      then (true, w)
      else if not env.has_checker
      then (false, w)
      else g.check_machine q.user_id q.machine_token w

  unfoldable pub acquire_user_rate_limit : ℤ → W → Bool × W
  acquire_user_rate_limit user_id w =
      let c = env.rate_limit in
      let (answer, w') =
        g.try_acquire user_id (user_rate_or_default c) (user_interval_or_default c)
          (user_expire_or_default c) w in
      if not c.user_enabled || not env.has_limiter || le_ℤ user_id (pos 0)
      then (true, w)
      else (elim answer [ err e ↦ true | ok allowed ↦ allowed ], w')

  -- The state of a minute.
  unfoldable pub set_queued_trace : Request → W → W
  set_queued_trace q w =
      if not env.has_queue_state
        || le_ℤ q.user_id (pos 0)
        || str_eq q.activity_no ""
        || str_eq q.trace_id ""
      then w
      else g.set_queued q.user_id q.activity_no q.trace_id (pos 60000000000) w

  unfoldable pub mark_suspicious : ActivityDetail → Request → W → W
  unfolding risk_enabled
  mark_suspicious a q w =
      if not (risk_enabled env) || not env.has_risk
      then w
      else g.mark_suspicious a q.user_id q.request_ip w

  -- `RiskActionSeckill` and `RiskLevelNormal` are "SECKILL" and 0.
  unfoldable pub record_seckill_action : PartInEvent → W → W
  unfolding risk_enabled
  record_seckill_action e w =
      if not (risk_enabled env) || not env.has_risk
      then w
      else g.record_action
          (record {
            user_id = e.user_id;
            action_type = "SECKILL";
            risk_level = pos 0;
            request_ip = e.request_ip;
            request_info = append "activityNo=" (
                append e.activity_no (
                  append " skuNo=" (
                    append e.sku_no (
                      append " quantity="
                        (append (decimal e.quantity) (append " traceId=" e.trace_id))))));
            created_at = g.now w;
          })
          w
