-- ===== src/Job/Closing/Calls.antt =====
-- The calls of the closing job, in a journal, and what one turn of its loop leaves.
use seckill_go.Prelude.{
  ℤ, ℕ, suc, String, ◌≡◌, Bool, true, false, ◌||◌, Option, none, some, List, ◌∷◌, arith,
}
use seckill_go.Job.Model.{Order, JobError}
use seckill_go.Job.Closing.{
  ClosingServices, TimeoutOrderResult, release_stock, close_payment, after_close, close_overdue,
}

pub data Call : Type 0 where
  closed_order : (order_no : String) (done : Bool) → Call
  released :
      (activity_no sku_no : String) (user_id quantity : ℤ) (order_no : String) (done : Bool) → Call
  voided : (order_no : String) → Call

abbrev pub succeeded : Option JobError → Bool
succeeded none = true
succeeded (some e) = false

-- The gateways with a journal before their world, the latest call first.
abbrev pub recorded : {W : Type 0} → ClosingServices W → ClosingServices (List Call × W)
recorded g = record {
  has_activity = g.has_activity;
  has_orders = g.has_orders;
  has_stock = g.has_stock;
  has_payments = g.has_payments;
  list_activities = λ (js, w). let (r, w') = g.list_activities w in (r, (js, w'));
  list_orders_by_activities =
      λ ns (js, w). let (r, w') = g.list_orders_by_activities ns w in (r, (js, w'));
  close_order =
      λ n (js, w). let (r, w') = g.close_order n w in (r, (closed_order n (succeeded r) ∷ js, w'));
  release_stock = λ a s u q n (js, w).
      let (r, w') = g.release_stock a s u q n w in (r, (released a s u q n (succeeded r) ∷ js, w'));
  close_payment = λ n (js, w). let (r, w') = g.close_payment n w in (r, (voided n ∷ js, w'));
  now = λ (js, w). let (t, w') = g.now w in (t, (js, w'));
}

-- The release of the stock of an order.
abbrev pub release_of : Order → Bool → Call
release_of o done = released o.activity_no o.sku_no o.user_id o.quantity o.order_no done

abbrev pub counted : ℕ → ℕ → TimeoutOrderResult
counted n m = record { closed = n; stock_released = m }

module _ {W : Type 0} (g : ClosingServices W) (o : Order) (n : ℕ) (js : List Call) (w : W) where
  -- The three answers that a turn of the loop gets, and what it leaves.
  unfoldable pub turn : TimeoutOrderResult × (Option JobError × (List Call × W))
  turn = close_overdue (recorded g) o (record { closed = n; stock_released = n }) (js, w)

  unfoldable pub closing : Option JobError × W
  closing = g.close_order o.order_no w

  unfoldable pub releasing : Option JobError × W
  unfolding closing
  releasing = g.release_stock o.activity_no o.sku_no o.user_id o.quantity o.order_no closing.1

  pub refused_turn :
      (e : JobError)
      → closing.0 ≡ some e
      → (turn.0 ≡ record { closed = n; stock_released = n })
        × (succeeded turn.1.0 ≡ (e.is_invalid_state || e.is_not_found))
        × (turn.1.1.0 ≡ closed_order o.order_no false ∷ js)
  unfolding turn closing close_overdue
  refused_turn e failed = ground arith

  pub unreleased_turn :
      (e : JobError)
      → g.has_stock ≡ true
      → closing.0 ≡ none
      → releasing.0 ≡ some e
      → (turn.0 ≡ record { closed = suc n; stock_released = n })
        × (succeeded turn.1.0 ≡ false)
        × (turn.1.1.0 ≡ release_of o false ∷ closed_order o.order_no true ∷ js)
  unfolding turn releasing close_overdue after_close release_stock
  unreleased_turn e stock closed failed = ground arith

  pub whole_turn :
      g.has_stock ≡ true
      → g.has_payments ≡ true
      → closing.0 ≡ none
      → releasing.0 ≡ none
      → (turn.0 ≡ record { closed = suc n; stock_released = suc n })
        × (turn.1.1.0 ≡ voided o.order_no ∷ release_of o true ∷ closed_order o.order_no true ∷ js)
  unfolding turn releasing close_overdue after_close release_stock close_payment
  whole_turn stock payments closed done = ground arith
