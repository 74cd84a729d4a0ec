-- ===== src/Job/Closing.antt =====
-- services/seckill-job/internal/application/job/job.go: the job that closes the orders that nobody
-- paid, after their activity has ended. The gateways are functions on a world.
pub mod Calls
pub mod Handled
pub mod Trail
use seckill_go.Prelude.{
  if◌then◌else◌, get_or, ℤ, pos, lt_ℤ, Result, ok, err, Assoc, lookup, sub_time, ℕ, suc, ◌+◌,
  String, append, Bool, not, ◌&&◌, ◌||◌, Option, none, some, List, [], ◌∷◌, str_eq,
}
use seckill_go.Job.Model.{
  Activity, Order, JobError, wrap, order_pending, is_ended_activity, selected, activity_nos,
}

pub record ClosingServices (W : Type 0) : Type 0 where
  pub has_activity : Bool
  pub has_orders : Bool
  pub has_stock : Bool
  pub has_payments : Bool
  pub list_activities : W → Result JobError (List Activity) × W
  pub list_orders_by_activities : List String → W → Result JobError (Assoc (List Order)) × W
  pub close_order : String → W → Option JobError × W
  pub release_stock : String → String → ℤ → ℤ → String → W → Option JobError × W
  pub close_payment : String → W → Option JobError × W
  pub now : W → ℤ × W

pub record TimeoutOrderResult : Type 0 where
  pub closed : ℕ
  pub stock_released : ℕ

abbrev pub none_closed : TimeoutOrderResult
none_closed = record { closed = 0; stock_released = 0 }

abbrev pub add_result : TimeoutOrderResult → TimeoutOrderResult → TimeoutOrderResult
add_result r part = record {
  closed = r.closed + part.closed;
  stock_released = r.stock_released + part.stock_released;
}

-- `15 * time.Minute`
abbrev pub compensation_threshold : ℤ
compensation_threshold = pos 900000000000

-- An order that the loop does not pass over.
unfoldable pub is_overdue : ℤ → Order → Bool
is_overdue now o =
    str_eq o.status order_pending && not (lt_ℤ (sub_time now o.created_at) compensation_threshold)

module _ {W : Type 0} (g : ClosingServices W) where
  unfoldable pub release_stock : Order → W → Option JobError × W
  release_stock o w =
      let (error, w') = g.release_stock o.activity_no o.sku_no o.user_id o.quantity o.order_no w in
      if g.has_stock
      then (
        elim error [
          | none ↦ none
          | some e ↦ some (wrap (append "release stock for order " o.order_no) e)
        ],
        w',
      )
      else (none, w)

  unfoldable pub close_payment : String → W → Option JobError × W
  close_payment order_no w =
      let (error, w') = g.close_payment order_no w in
      if g.has_payments
      then (
        elim error [
          | none ↦ none
          | some e ↦
              if e.is_not_found
              then none
              else some (wrap (append "close payment for order " order_no) e)
        ],
        w',
      )
      else (none, w)

  -- From the release on, for an order that was closed; `r` counts it as closed.
  unfoldable pub after_close :
      Order → TimeoutOrderResult → W → TimeoutOrderResult × (Option JobError × W)
  unfolding release_stock close_payment
  after_close o r w =
      let (error, w1) = release_stock o w in
      let released = record r { stock_released = suc r.stock_released } in
      let (payment_error, w2) = close_payment o.order_no w1 in
      elim error [
        | some e ↦ (r, (some (wrap (append "release stock for order " o.order_no) e), w1))
        | none ↦ (released, (payment_error, w2))
      ]

  -- One turn of the loop for an order that is overdue.
  unfoldable pub close_overdue :
      Order → TimeoutOrderResult → W → TimeoutOrderResult × (Option JobError × W)
  unfolding after_close
  close_overdue o r w =
      let (error, w1) = g.close_order o.order_no w in
      let rest = after_close o (record r { closed = suc r.closed }) w1 in
      elim error [
        | none ↦ rest
        | some e ↦
            if e.is_invalid_state || e.is_not_found
            then (r, (none, w1))
            else (r, (some (wrap (append "close order " o.order_no) e), w1))
      ]

  unfoldable pub close_pending_orders :
      List Order → ℤ → TimeoutOrderResult → W → TimeoutOrderResult × (Option JobError × W)
  unfolding is_overdue close_overdue
  close_pending_orders [] now r w = (r, (none, w))
  close_pending_orders (o ∷ rest) now r w =
      let (r', (error, w')) = close_overdue o r w in
      let later = close_pending_orders rest now r' w' in
      let skipped = close_pending_orders rest now r w in
      if is_overdue now o
      then elim error [ none ↦ later | some e ↦ (r', (some e, w')) ]
      else skipped

  unfoldable pub close_activity_pending_orders :
      List Order → W → TimeoutOrderResult × (Option JobError × W)
  unfolding close_pending_orders
  close_activity_pending_orders orders w =
      let (now, w') = g.now w in close_pending_orders orders now none_closed w'

  unfoldable pub close_for_activities :
      List Activity
      → Assoc (List Order)
      → TimeoutOrderResult
      → W
      → TimeoutOrderResult × (Option JobError × W)
  unfolding close_activity_pending_orders
  close_for_activities [] orders r w = (r, (none, w))
  close_for_activities (a ∷ rest) orders r w =
      let (part, (error, w')) =
        close_activity_pending_orders (get_or (lookup a.activity_no orders) []) w in
      let later = close_for_activities rest orders (add_result r part) w' in
      elim error [
        | none ↦ later
        | some e ↦
            (r, (some (wrap (append "close pending orders for activity " a.activity_no) e), w'))
      ]

  unfoldable pub close_timeout_orders : W → TimeoutOrderResult × (Option JobError × W)
  unfolding close_for_activities
  close_timeout_orders w =
      let (listed, w1) = g.list_activities w in
      let (now, w2) = g.now w1 in
      if not (g.has_activity && g.has_orders) then (none_closed, (none, w)) else elim listed [
        | err e ↦ (none_closed, (some (wrap "list activities for timeout orders" e), w1))
        | ok activities ↦
            let ended = selected (λ a. is_ended_activity a now) activities in
            let (found, w3) = g.list_orders_by_activities (activity_nos ended) w2 in
            elim found [
              | err e ↦
                  (none_closed, (some (wrap "list orders by activities for timeout check" e), w3))
              | ok orders ↦ close_for_activities ended orders none_closed w3
            ]
      ]
