-- ===== src/Processor/Intake.antt =====
-- From a message of the queue to its answer: services/seckill-processor's
-- application/usecase/submit_seckill.go and the event handlers of application/seckill.go, with the
-- key stores of common/traceresult (processor.go, redis.go). The keys stand in a state K of their
-- own, reached through Redis' commands; everything else is a world W. No key expires.
pub mod Replay
use seckill_go.Prelude.{
  if◌then◌else◌, ℤ, pos, ◌+ℤ◌, le_ℤ, Result, ok, err, String, append, Bool, false, Option, none,
  some, List, [], ◌∷◌, str_eq,
}
use seckill_go.Processor.Model.{
  Failure, wrap, SubmitCommand, Reason, activity_closed, stock_empty, risk_user, order_fail,
  DomainEvent, order_created, seckill_rejected,
}
use seckill_go.Processor.Submit.{Gateways, Setting, submit}

-- SETNX, SET, and the script that deletes a key which holds a value.
pub record Redis (K : Type 0) : Type 0 where
  pub set_nx : String → String → K → Result Failure Bool × K
  pub set : String → String → K → Option Failure × K
  pub delete_if : String → String → K → Option Failure × K

abbrev pub processing : String
processing = "PROCESSING"

abbrev pub processor_key : String → String
processor_key trace_id = append "seckill:processor:idem:" trace_id

-- The key that the gateway polls.
abbrev result_key : String → String
result_key trace_id = append "seckill:order:result:" trace_id

abbrev reason_text : Reason → String
reason_text activity_closed = "ACTIVITY_CLOSED"
reason_text stock_empty = "STOCK_EMPTY"
reason_text risk_user = "RISK_USER"
reason_text order_fail = "ORDER_FAIL"

module _ {K : Type 0} (r : Redis K) where
  unfoldable pub try_start : String → K → Result Failure Bool × K
  try_start trace_id k =
      let (answer, k') = r.set_nx (processor_key trace_id) processing k in
      if str_eq trace_id "" then (ok false, k) else elim answer [
        | err f ↦ (err (wrap (append "processor setnx " (append trace_id ": ")) f), k')
        | ok b ↦ (ok b, k')
      ]

  -- `MarkSuccess` and `MarkFail`, whose errors are only logged.
  abbrev mark : String → String → K → K
  mark trace_id value k =
      if str_eq trace_id "" then k else (r.set (processor_key trace_id) value k).1

  abbrev release : String → K → K
  release trace_id k =
      if str_eq trace_id "" then k else (r.delete_if (processor_key trace_id) processing k).1

-- The other parts of the application: whether the two key stores and the queue for payment timeouts
-- are set, and the delay of a timeout.
pub record Intake (W : Type 0) : Type 0 where
  pub has_processor_store : Bool
  pub has_trace_results : Bool
  pub has_payment_timeouts : Bool
  pub payment_timeout_delay : ℤ
  pub publish_payment_timeout : String → ℤ → W → W

-- The normalised message.
unfoldable pub normalise : SubmitCommand → SubmitCommand
normalise m = record m {
  trace_id = if str_eq m.trace_id "" then m.request_trace_id else m.trace_id;
  quantity = if le_ℤ m.quantity (pos 0) then pos 1 else m.quantity;
}

module _ {K W : Type 0} (r : Redis K) (g : Gateways W) (env : Setting) (app : Intake W) where
  -- `markTraceSuccess` and `markTraceFail`: the gateway's key first.
  pub mark_trace : String → String → K → K
  mark_trace trace_id value k =
      let k' = if app.has_trace_results then (r.set (result_key trace_id) value k).1 else k in
      if str_eq trace_id ""
      then k
      else if app.has_processor_store
      then mark r trace_id value k'
      else k'

  -- `onOrderCreated` and `onSeckillRejected`
  pub on_event : DomainEvent → K × W → K × W
  unfolding mark_trace
  on_event (order_created n u a s q p t rt) (k, w) = (
    mark_trace t n k,
    if app.has_payment_timeouts
        then app.publish_payment_timeout n (env.now +ℤ app.payment_timeout_delay) w
        else w,
  )
  on_event (seckill_rejected t reason rt) (k, w) = (mark_trace t (reason_text reason) k, w)

  pub on_events : List DomainEvent → K × W → K × W
  unfolding on_event
  on_events [] s = s
  on_events (e ∷ es) s = on_events es (on_event e s)

  -- The domain service with the handlers of what it publishes, and the key given back where it
  -- fails.
  pub submit_and_release : SubmitCommand → K × W → Option Failure × (K × W)
  unfolding on_events
  submit_and_release m (k, w) =
      let answer = submit g env m w in
      let (k', w') = on_events answer.events (k, answer.world) in
      elim answer.error [
        | none ↦ (none, (k', w'))
        | some f ↦ (
          some (wrap "submit seckill: " f),
          (if app.has_processor_store then release r m.trace_id k' else k', w'),
        )
      ]

  -- `Execute`, for a message that is normalised.
  pub start : SubmitCommand → K × W → Option Failure × (K × W)
  unfolding submit_and_release
  start m (k, w) =
      let (answer, k') = try_start r m.trace_id k in
      let run = submit_and_release m (k', w) in
      elim answer [
        | err f ↦
            (some (wrap (append "reserve processor idem " (append m.trace_id ": ")) f), (k', w))
        | ok b ↦ if b then run else (none, (k', w))
      ]

  unfoldable pub execute : SubmitCommand → K × W → Option Failure × (K × W)
  unfolding start
  execute m s =
      if app.has_processor_store then start (normalise m) s else submit_and_release (normalise m) s
