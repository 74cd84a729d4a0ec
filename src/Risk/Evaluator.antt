-- ===== src/Risk/Evaluator.antt =====
-- services/risk-service/internal/application/risk/evaluator.go and config.go, over the interface of
-- the repository and a clock, which are functions on a world.
use seckill_go.Prelude.{
  if◌then◌else◌, ℤ, pos, ◌-ℤ◌, lt_ℤ, le_ℤ, eq_ℤ, Result, ok, err, String, append, Bool, true, false,
  not, ◌&&◌, Option, none, some,
}

pub record BlackListConfig : Type 0 where
  pub enabled : Bool
  pub mark_start_before : ℤ
  pub mark_end_before : ℤ
  pub expire_after : ℤ

pub record RiskConfig : Type 0 where
  pub high_risk_threshold : ℤ
  pub risk_user_ttl : ℤ
  pub recent_window : ℤ
  pub high_risk_window : ℤ

pub record RiskRecord : Type 0 where
  pub user_id : ℤ
  pub action_type : String
  pub risk_level : ℤ
  pub request_ip : String
  pub request_info : String
  pub created_at : ℤ

pub record RiskEvaluation : Type 0 where
  pub risk : Bool
  pub level : ℤ
  pub reason : String

-- `RiskLevelNormal`, `RiskLevelSuspicious` and `RiskLevelHigh`
abbrev pub level_normal : ℤ
level_normal = pos 0

abbrev pub level_suspicious : ℤ
level_suspicious = pos 1

abbrev pub level_high : ℤ
level_high = pos 2

-- What the repository answers, `Err` its errors.
pub record RiskRepository (Err W : Type 0) : Type 0 where
  pub mark_risk_user : ℤ → ℤ → W → Option Err × W
  pub is_risk_user : ℤ → W → Result Err Bool × W
  pub record_risk_action : RiskRecord → W → Option Err × W
  pub count_recent_risk_actions : ℤ → String → ℤ → W → Result Err ℤ × W
  pub has_high_risk_record : ℤ → ℤ → W → Result Err Bool × W
  pub now : W → ℤ × W

-- The text that an error is wrapped in, and the error.
abbrev pub Wrapped : Type 0 → Type 0
Wrapped Err = String × Err

-- A value, or the default where it is not positive.
abbrev pub positive_or : ℤ → ℤ → ℤ
positive_or d x = if le_ℤ x (pos 0) then d else x

unfoldable pub normalized_risk : RiskConfig → RiskConfig
normalized_risk cfg = record {
  high_risk_threshold = positive_or (pos 10) cfg.high_risk_threshold;
  risk_user_ttl = positive_or (pos 86400000000000) cfg.risk_user_ttl;
  recent_window = positive_or (pos 3600000000000) cfg.recent_window;
  high_risk_window = positive_or (pos 86400000000000) cfg.high_risk_window;
}

unfoldable pub normalized_black_list : BlackListConfig → BlackListConfig
normalized_black_list cfg = record {
  enabled = cfg.enabled;
  mark_start_before = positive_or (pos 300000000000) cfg.mark_start_before;
  mark_end_before = positive_or (pos 10000000000) cfg.mark_end_before;
  expire_after = positive_or (pos 300000000000) cfg.expire_after;
}

abbrev pub high : String → RiskEvaluation
high reason = record { risk = true; level = level_high; reason = reason }

abbrev pub normal : RiskEvaluation
normal = record { risk = false; level = level_normal; reason = "" }

module _ {Err W : Type 0} (g : RiskRepository Err W) where
  unfoldable pub record_action : RiskRecord → W → Option (Wrapped Err) × W
  record_action r w =
      let (time, w1) = g.now w in
      let (error, w2) =
        if eq_ℤ r.created_at (pos 0)
        then g.record_risk_action (record r { created_at = time }) w1
        else g.record_risk_action r w in
      (elim error [ none ↦ none | some e ↦ some ("record risk action", e) ], w2)

  unfoldable pub mark_suspicious : BlackListConfig → ℤ → ℤ → String → W → Option (Wrapped Err) × W
  unfolding normalized_black_list record_action
  mark_suspicious config start_time user_id request_ip w =
      let cfg = normalized_black_list config in
      let (time, w1) = g.now w in
      let window_start = start_time -ℤ cfg.mark_start_before in
      let window_end = start_time -ℤ cfg.mark_end_before in
      let (error, w2) = g.mark_risk_user user_id cfg.expire_after w1 in
      let recorded =
        record_action
          (record {
            user_id = user_id;
            action_type = "PRE_CHECK";
            risk_level = level_suspicious;
            request_ip = request_ip;
            request_info = "活动开始前探测";
            created_at = time;
          })
          w2 in
      if not cfg.enabled
      then (none, w)
      else if lt_ℤ window_start time && lt_ℤ time window_end
      then elim error [ none ↦ recorded | some e ↦ (some ("mark risk user", e), w2) ]
      else (none, w1)

  -- From the threshold on, which was reached at `time`.
  unfoldable pub too_often :
      RiskConfig → ℤ → String → ℤ → W → Result (Wrapped Err) RiskEvaluation × W
  unfolding record_action
  too_often risk user_id request_ip time w =
      let (error, w1) = g.mark_risk_user user_id risk.risk_user_ttl w in
      let (unrecorded, w2) =
        record_action
          (record {
            user_id = user_id;
            action_type = "RATE_LIMIT_HIT";
            risk_level = level_high;
            request_ip = request_ip;
            request_info = "1小时内秒杀次数过高";
            created_at = time;
          })
          w1 in
      elim error [
        | some e ↦ (err ("mark risk user", e), w1)
        | none ↦ elim unrecorded [
          | some e ↦ (err (append "record action: " e.0, e.1), w2)
          | none ↦ (ok (high "RECENT_SECKILL_THRESHOLD"), w2)
        ]
      ]

  -- From the count of the recent actions on.
  unfoldable pub check_recent :
      RiskConfig → ℤ → String → ℤ → W → Result (Wrapped Err) RiskEvaluation × W
  unfolding too_often
  check_recent risk user_id request_ip time w =
      let (counted, w1) =
        g.count_recent_risk_actions user_id "SECKILL" (time -ℤ risk.recent_window) w in
      let often = too_often risk user_id request_ip time w1 in
      elim counted [
        | err e ↦ (err ("count recent risk actions", e), w1)
        | ok count ↦ if le_ℤ risk.high_risk_threshold count then often else (ok normal, w1)
      ]

  -- From the look at the records on.
  unfoldable pub check_records :
      RiskConfig → ℤ → String → ℤ → W → Result (Wrapped Err) RiskEvaluation × W
  unfolding check_recent
  check_records risk user_id request_ip time w =
      let (found, w1) = g.has_high_risk_record user_id (time -ℤ risk.high_risk_window) w in
      let (error, w2) = g.mark_risk_user user_id risk.risk_user_ttl w1 in
      let rest = check_recent risk user_id request_ip time w1 in
      elim found [
        | err e ↦ (err ("has high risk record", e), w1)
        | ok has_high_risk ↦
            if has_high_risk
            then elim error [
              | some e ↦ (err ("mark risk user", e), w2)
              | none ↦ (ok (high "HIGH_RISK_RECORD"), w2)
            ]
            else rest
      ]

  unfoldable pub evaluate : RiskConfig → ℤ → String → W → Result (Wrapped Err) RiskEvaluation × W
  unfolding normalized_risk check_records
  evaluate config user_id request_ip w =
      let (listed, w1) = g.is_risk_user user_id w in
      let (time, w2) = g.now w1 in
      let rest = check_records (normalized_risk config) user_id request_ip time w2 in
      elim listed [
        | err e ↦ (err ("is risk user", e), w1)
        | ok in_black_list ↦ if in_black_list then (ok (high "BLACKLIST"), w1) else rest
      ]

  unfoldable pub is_risk_user : RiskConfig → ℤ → W → Result (Wrapped Err) Bool × W
  unfolding evaluate
  is_risk_user config user_id w =
      let (answer, w1) = evaluate config user_id "" w in
      (elim answer [ err e ↦ err e | ok a ↦ ok a.risk ], w1)
