-- ===== src/Tests/Risk.antt =====
-- The evaluation of the risk service on a repository that counts to eleven.
use seckill_go.Prelude.{ℤ, pos, ◌-ℤ◌, ok, String, ◌≡◌, refl, true, false, none, List, [], ◌∷◌}
use seckill_go.Risk.Evaluator.{
  BlackListConfig, RiskConfig, RiskRecord, level_suspicious, level_high, RiskRepository,
  normalized_risk, normalized_black_list, record_action, mark_suspicious, too_often, check_recent,
  check_records, evaluate, is_risk_user,
}

-- The marks and the records, the newest first, as the world.
abbrev World : Type 0
World = List (ℤ × ℤ) × List RiskRecord

abbrev counting : ℤ → RiskRepository String World
counting seen = record {
  mark_risk_user = λ u ttl (marks, records). (none, ((u, ttl) ∷ marks, records));
  is_risk_user = λ u w. (ok false, w);
  record_risk_action = λ r (marks, records). (none, (marks, r ∷ records));
  count_recent_risk_actions = λ u action since w. (ok seen, w);
  has_high_risk_record = λ u since w. (ok false, w);
  now = λ w. (pos 4000000000000, w);
}

abbrev defaults : RiskConfig
defaults = record {
  high_risk_threshold = pos 0;
  risk_user_ttl = pos 0;
  recent_window = pos 0;
  high_risk_window = pos 0;
}

abbrev hit : RiskRecord
hit = record {
  user_id = pos 7;
  action_type = "RATE_LIMIT_HIT";
  risk_level = level_high;
  request_ip = "";
  request_info = "1小时内秒杀次数过高";
  created_at = pos 4000000000000;
}

eleven_are_too_many :
    is_risk_user (counting (pos 11)) defaults (pos 7) ([], [])
    ≡ (ok true, ((pos 7, pos 86400000000000) ∷ [], hit ∷ []))
unfolding is_risk_user evaluate check_records check_recent too_often record_action normalized_risk
eleven_are_too_many = refl

nine_are_none : is_risk_user (counting (pos 9)) defaults (pos 7) ([], []) ≡ (ok false, ([], []))
unfolding is_risk_user evaluate check_records check_recent too_often record_action normalized_risk
nine_are_none = refl

-- A minute before the start is in the window, an hour before it is not.
abbrev marking : BlackListConfig
marking = record {
  enabled = true;
  mark_start_before = pos 0;
  mark_end_before = pos 0;
  expire_after = pos 0;
}

abbrev probe : RiskRecord
probe = record hit {
  action_type = "PRE_CHECK";
  risk_level = level_suspicious;
  request_info = "活动开始前探测";
}

a_minute_before :
    mark_suspicious (counting (pos 0)) marking (pos 4060000000000) (pos 7) "" ([], [])
    ≡ (none, ((pos 7, pos 300000000000) ∷ [], probe ∷ []))
unfolding mark_suspicious normalized_black_list record_action ◌-ℤ◌
a_minute_before = refl

an_hour_before :
    mark_suspicious (counting (pos 0)) marking (pos 7600000000000) (pos 7) "" ([], [])
    ≡ (none, ([], []))
unfolding mark_suspicious normalized_black_list record_action ◌-ℤ◌
an_hour_before = refl
