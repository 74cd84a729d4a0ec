-- ===== src/Gateway/Entry/Fast.antt =====
-- services/seckill-gateway/internal/application/seckill.go: the entry with a worker pool, which calls
-- no other service before it answers.
use seckill_go.Prelude.{
  if◌then◌else◌, pos, lt_ℤ, Result, ok, err, String, append, Bool, true, false, not, ◌&&◌, none,
  some, str_eq,
}
use seckill_go.Errors.{RpcError}
use seckill_go.Gateway.Entry.{
  PartInResult, Setting, Services, seckill_queued, seckill_rejected, user_rate_or_default,
  user_interval_or_default, user_expire_or_default, Request, event_of, pass_machine,
  acquire_user_rate_limit, set_queued_trace,
}

pub data EntryError : Type 0 where
  activity_no_required : EntryError
  sku_no_required : EntryError
  activity_not_found : RpcError → EntryError
  stock_pre_check : RpcError → EntryError

abbrev pub seckill_fail : String → PartInResult
seckill_fail sku_no = seckill_rejected "1" "当前请求人数较多，请稍后重试" sku_no

abbrev pub system_busy : String → PartInResult
system_busy sku_no = seckill_rejected "1" "系统繁忙，请重试" sku_no

module _ {W : Type 0} (g : Services W) (env : Setting) (q : Request) where
  unfoldable pub set_processing : W → W
  set_processing w = if env.has_results then g.set_processing q.trace_id w else w

  -- The user's limiter, then the state of processing, as two calls.
  unfoldable pub separate_calls : W → Bool × W
  unfolding acquire_user_rate_limit set_processing
  separate_calls w =
      let (allowed, w1) = acquire_user_rate_limit g env q.user_id w in
      if not allowed then (false, w1) else (true, set_processing w1)

  -- Step 3: both in one call where there is a pipeline, which may fail.
  unfoldable pub admit : W → Bool × W
  unfolding separate_calls
  admit w =
      let c = env.rate_limit in
      let (answer, w1) =
        g.acquire_and_set_processing q.user_id (user_rate_or_default c) (user_interval_or_default c)
          (user_expire_or_default c) (append "seckill:order:result:" q.trace_id) w in
      let apart = separate_calls w in
      let apart_after = separate_calls w1 in
      if env.has_pipeline && c.user_enabled && lt_ℤ (pos 0) q.user_id
      then elim answer [ err e ↦ apart_after | ok allowed ↦ (allowed, w1) ]
      else apart

  -- Steps 5 to 8.
  unfoldable pub submit_event : W → PartInResult × W
  unfolding set_queued_trace
  submit_event w =
      let (error, w1) = g.submit (event_of q (pos 0)) w in
      elim error [
        | some e ↦ (
          system_busy q.sku_no,
          if env.has_results then g.set_failed q.trace_id "system busy: queue full" w1 else w1,
        )
        | none ↦ (seckill_queued q.trace_id q.sku_no, set_queued_trace g env q w1)
      ]

  unfoldable pub part_in_fast_path : W → Result EntryError PartInResult × W
  unfolding pass_machine admit submit_event
  part_in_fast_path w =
      let (human, w1) = pass_machine g env q w in
      let (admitted, w2) = admit w1 in
      let (answer, w3) = submit_event w2 in
      if str_eq q.activity_no ""
      then (err activity_no_required, w)
      else if str_eq q.sku_no ""
      then (err sku_no_required, w)
      else if not human
      then (ok (seckill_fail q.sku_no), w1)
      else if not admitted
      then (ok (seckill_fail q.sku_no), w2)
      else (ok answer, w3)
