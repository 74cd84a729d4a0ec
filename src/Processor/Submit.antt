-- ===== src/Processor/Submit.antt =====
-- services/seckill-processor/internal/domain/service/seckill.go: `Submit`, over the gateways as
-- functions on a world. What a call publishes on the event bus stands in its outcome.
pub mod Events
pub mod StockBalance
use seckill_go.Prelude.{
  if◌then◌else◌, ℤ, pos, le_ℤ, Result, ok, err, contains, decimal, String, append, Bool, true,
  false, ◌||◌, Option, none, some, List, [], ◌∷◌,
}
use seckill_go.Processor.Model.{
  plain, not_found, Failure, wrap, is_not_found, is_duplicate_trace_id, ActivityInfo, is_open,
  SkuInfo, effective_limit, calc_price, RiskResult, SubmitCommand, OrderRequest, OrderInfo, Reason,
  activity_closed, stock_empty, risk_user, order_fail, DomainEvent, order_created, seckill_rejected,
  shard_id,
}

-- The service's collaborators. The two queries of the fan-out and the other lookups only read.
pub record Gateways (W : Type 0) : Type 0 where
  pub get_activity : String → W → Result Failure ActivityInfo
  pub evaluate : ℤ → String → W → Result Failure RiskResult
  pub get_sku : String → String → W → Result Failure SkuInfo
  pub next_order_no : W → String × W
  pub deduct : String → String → ℤ → ℤ → ℤ → String → W → Result Failure Bool × W
  pub release : String → String → ℤ → ℤ → String → W → Option Failure × W
  pub create_order : OrderRequest → W → Option Failure × W
  pub get_by_user_and_trace : ℤ → String → W → Result Failure OrderInfo
  pub is_temporary : Failure → Bool

-- What surrounds a call: the clock, the environment variable SMOKE_NO_LIMIT, whether an event bus
-- is set, and which goroutine of the fan-out fails first where both do.
pub record Setting : Type 0 where
  pub now : ℤ
  pub smoke_no_limit : Bool
  pub has_events : Bool
  pub risk_fails_first : Bool

pub record Outcome (W : Type 0) : Type 0 where
  pub error : Option Failure
  pub events : List DomainEvent
  pub world : W

module _ {W : Type 0} (g : Gateways W) (env : Setting) (cmd : SubmitCommand) where
  abbrev publish : DomainEvent → List DomainEvent
  publish e = if env.has_events then e ∷ [] else []

  abbrev fail : Failure → W → Outcome W
  fail f w = record { error = some f; events = []; world = w }

  -- `s.reject(cmd, reason); return nil`
  reject : Reason → W → Outcome W
  reject reason w = record {
    error = none;
    events = publish (seckill_rejected cmd.trace_id reason cmd.request_trace_id);
    world = w;
  }

  -- The first goroutine of the fan-out.
  check_activity : W → Result Failure ActivityInfo
  check_activity w = elim (g.get_activity cmd.activity_no w) [
    | err f ↦ err (
        if is_not_found f
        then record {
          message = append "activity " (append cmd.activity_no " not found: not found");
          sentinel = not_found;
        }
        else wrap (append "get activity " (append cmd.activity_no ": ")) f)
    | ok a ↦
        if is_open a env.now
        then ok a
        else err (record {
          message = append "activity " (append cmd.activity_no " closed");
          sentinel = plain;
        })
  ]

  -- The second goroutine.
  evaluate_risk : W → Result Failure RiskResult
  evaluate_risk w = elim (g.evaluate cmd.user_id cmd.request_ip w) [
    | err f ↦ err (wrap (append "risk evaluate user " (append (decimal cmd.user_id) ": ")) f)
    | ok r ↦ ok r
  ]

  both :
      Result Failure ActivityInfo
      → Result Failure RiskResult
      → Result Failure (ActivityInfo × RiskResult)
  both (ok a) (ok r) = ok (a, r)
  both (ok a) (err f) = err f
  both (err f) (ok r) = err f
  both (err f) (err f') = err (if env.risk_fails_first then f' else f)

  -- `g.Wait()`: both results, or the error that came first.
  wait : W → Result Failure (ActivityInfo × RiskResult)
  unfolding both
  wait w = both (check_activity w) (evaluate_risk w)

  handle_duplicate_trace_id : Failure → W → Outcome W
  handle_duplicate_trace_id create_error w =
      elim (g.get_by_user_and_trace cmd.user_id cmd.trace_id w) [
        | err f ↦
            fail
              (record f {
                message = append "duplicate trace_id " (
                    append cmd.trace_id (
                      append " but lookup failed: " (
                        append f.message
                          (append " (create err: " (append create_error.message ")")))));
              })
              w
        | ok existing ↦ record {
          error = none;
          events = publish (
              order_created existing.order_no cmd.user_id cmd.activity_no cmd.sku_no cmd.quantity
                existing.pay_amount cmd.trace_id cmd.request_trace_id);
          world = w;
        }
      ]

  release_reserved : String → W → W
  release_reserved order_no w =
      (g.release cmd.activity_no cmd.sku_no cmd.user_id cmd.quantity order_no w).1

  -- Steps 5 to 7, for the order that the stock was deducted for.
  create_reserved : OrderRequest → W → Outcome W
  unfolding handle_duplicate_trace_id release_reserved reject
  create_reserved order w =
      let (error, w') = g.create_order order w in
      elim error [
        | none ↦ record {
          error = none;
          events = publish (
              order_created order.order_no order.user_id order.activity_no order.sku_no
                order.quantity order.pay_amount order.trace_id order.request_trace_id);
          world = w';
        }
        | some f ↦
            if is_duplicate_trace_id f
            then handle_duplicate_trace_id f w'
            else if g.is_temporary f
            then fail (wrap "create order temporary failure: " f)
                (release_reserved order.order_no w')
            else reject order_fail (release_reserved order.order_no w')
      ]

  -- The request of step 5.
  abbrev order_request : SkuInfo → String → OrderRequest
  order_request sku order_no = record {
    order_no = order_no;
    user_id = cmd.user_id;
    activity_no = cmd.activity_no;
    sku_no = cmd.sku_no;
    quantity = cmd.quantity;
    pay_amount = if le_ℤ cmd.total_fee (pos 0) then calc_price sku cmd.quantity else cmd.total_fee;
    trace_id = cmd.trace_id;
    request_trace_id = cmd.request_trace_id;
    created_at = env.now;
  }

  -- Steps 4 to 7.
  deduct_and_create : ActivityInfo → SkuInfo → W → Outcome W
  unfolding create_reserved reject
  deduct_and_create activity sku w =
      let limit =
        if env.smoke_no_limit then pos 0 else effective_limit sku activity.purchase_limit in
      let (base, w1) = g.next_order_no w in
      let order_no = append base (decimal (shard_id cmd.user_id)) in
      let (deducted, w2) =
        g.deduct cmd.activity_no cmd.sku_no cmd.user_id cmd.quantity limit order_no w1 in
      elim deducted [
        | err f ↦ fail (wrap "deduct stock: " f) w2
        | ok false ↦ reject stock_empty w2
        | ok true ↦ create_reserved (order_request sku order_no) w2
      ]

  -- Steps 2 to 7, after the fan-out.
  after_fan_out : ActivityInfo → RiskResult → W → Outcome W
  unfolding deduct_and_create
  after_fan_out activity evaluation w =
      let rest = λ (sku : SkuInfo). deduct_and_create activity sku w in
      if evaluation.risk
      then reject risk_user w
      else elim (g.get_sku cmd.activity_no cmd.sku_no w) [
        | err f ↦
            if is_not_found f
            then reject activity_closed w
            else fail
                (wrap
                  (append "get sku " (append cmd.activity_no (append "/" (append cmd.sku_no ": "))))
                  f)
                w
        | ok sku ↦ rest sku
      ]

  unfoldable pub submit : W → Outcome W
  unfolding wait check_activity evaluate_risk after_fan_out
  submit w = elim (wait w) [
    | err f ↦
        if contains f.message "not found" || contains f.message "closed"
        then reject activity_closed w
        else fail f w
    | ok (activity, evaluation) ↦ after_fan_out activity evaluation w
  ]
