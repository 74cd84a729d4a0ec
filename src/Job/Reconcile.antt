-- ===== src/Job/Reconcile.antt =====
-- services/seckill-job/internal/application/job/job.go: the job that compares the orders with the
-- payments. The gateways are functions on a world.
pub mod Expected
use seckill_go.Prelude.{
  ltb, if◌then◌else◌, is_some, get_or, ℤ, pos, eq_ℤ, Result, ok, err, Assoc, lookup, ℕ, suc, ◌+◌,
  String, append, Bool, not, ◌&&◌, ◌||◌, Option, none, some, List, [], ◌∷◌, str_eq,
}
use seckill_go.Job.Model.{
  Activity, Order, PayQueryResult, JobError, wrap, numbered, order_pending, order_paid,
  should_reconcile_activity, selected, activity_nos, payment_order_nos,
}

pub record ReconcileServices (W : Type 0) : Type 0 where
  pub has_activity : Bool
  pub has_orders : Bool
  pub has_payments : Bool
  pub list_activities : W → Result JobError (List Activity) × W
  pub list_orders_by_activities : List String → W → Result JobError (Assoc (List Order)) × W
  pub mark_order_paid : String → String → ℤ → W → Option JobError × W
  pub query_payments : List String → W → Result JobError (Assoc PayQueryResult) × W
  pub now : W → ℤ × W

-- `Checked`, `Compensated` and `MismatchCount`, the three counters of one activity.
pub record Tally : Type 0 where
  pub checked : ℕ
  pub compensated : ℕ
  pub mismatches : ℕ

abbrev pub no_tally : Tally
no_tally = record { checked = 0; compensated = 0; mismatches = 0 }

pub record PaymentReconcileResult : Type 0 where
  pub activities : ℕ
  pub tally : Tally

abbrev pub nothing_reconciled : PaymentReconcileResult
nothing_reconciled = record { activities = 0; tally = no_tally }

abbrev pub add_tally : PaymentReconcileResult → Tally → PaymentReconcileResult
add_tally r part = record {
  activities = if ltb 0 part.checked then suc r.activities else r.activities;
  tally = record {
    checked = r.tally.checked + part.checked;
    compensated = r.tally.compensated + part.compensated;
    mismatches = r.tally.mismatches + part.mismatches;
  };
}

abbrev pub is_pending : Order → Bool
is_pending o = str_eq o.status order_pending

abbrev pub is_paid : Order → Bool
is_paid o = str_eq o.status order_paid

abbrev pub one_checked : Tally → Tally
one_checked t = record t { checked = suc t.checked }

abbrev pub one_mismatch : Tally → Tally
one_mismatch t = record t { mismatches = suc t.mismatches }

abbrev pub one_compensated : Tally → Tally
one_compensated t = record t { compensated = suc t.compensated; mismatches = suc t.mismatches }

module _ {W : Type 0} (g : ReconcileServices W) where
  -- The payment is there and the order was not told.
  unfoldable pub compensate : Order → PayQueryResult → Tally → W → Tally × (Option JobError × W)
  compensate o query t w =
      let (read, w1) = g.now w in
      let at = get_or query.paid_at read in
      let from = if is_some query.paid_at then w else w1 in
      let (error, w2) = g.mark_order_paid o.order_no query.transaction_no at from in
      elim error [
        | none ↦ (one_compensated t, (none, w2))
        | some e ↦
            if e.is_invalid_state || e.is_not_found
            then (t, (none, w2))
            else (t, (some (wrap (append "mark order " (append o.order_no " paid")) e), w2))
      ]

  -- One turn of the loop, for an order that is pending or paid; `t` counts it as checked.
  unfoldable pub reconcile_order :
      Order → Option PayQueryResult → Tally → W → Tally × (Option JobError × W)
  unfolding compensate
  reconcile_order o none t w = (if is_paid o then one_mismatch t else t, (none, w))
  reconcile_order o (some query) t w =
      let marked = compensate o query t w in
      if eq_ℤ query.pay_status (pos 1) && is_pending o
      then marked
      else if is_paid o && not (eq_ℤ query.pay_status (pos 1))
      then (one_mismatch t, (none, w))
      else (t, (none, w))

  unfoldable pub reconcile_orders :
      List Order → Assoc PayQueryResult → Tally → W → Tally × (Option JobError × W)
  unfolding reconcile_order
  reconcile_orders [] queries t w = (t, (none, w))
  reconcile_orders (o ∷ rest) queries t w =
      let (t', (error, w')) = reconcile_order o (lookup o.order_no queries) (one_checked t) w in
      let later = reconcile_orders rest queries t' w' in
      let skipped = reconcile_orders rest queries t w in
      if not (is_pending o) && not (is_paid o)
      then skipped
      else elim error [ none ↦ later | some e ↦ (t', (some e, w')) ]

  unfoldable pub reconcile_activities :
      List Activity
      → Assoc (List Order)
      → Assoc PayQueryResult
      → PaymentReconcileResult
      → W
      → PaymentReconcileResult × (Option JobError × W)
  unfolding reconcile_orders
  reconcile_activities [] orders queries r w = (r, (none, w))
  reconcile_activities (a ∷ rest) orders queries r w =
      let (part, (error, w')) =
        reconcile_orders (get_or (lookup a.activity_no orders) []) queries no_tally w in
      let later = reconcile_activities rest orders queries (add_tally r part) w' in
      elim error [
        | none ↦ later
        | some e ↦
            (r, (some (wrap (append "reconcile payments for activity " a.activity_no) e), w'))
      ]

  -- No call is made for an empty list.
  unfoldable pub query_payments : List String → W → Result JobError (Assoc PayQueryResult) × W
  query_payments [] w = (ok [], w)
  query_payments (n ∷ ns) w =
      let (found, w') = g.query_payments (n ∷ ns) w in
      (
        elim found [
          | err e ↦ err (wrap (numbered "query payments for " (n ∷ ns) " orders") e)
          | ok m ↦ ok m
        ],
        w',
      )

  unfoldable pub reconcile_payments : W → PaymentReconcileResult × (Option JobError × W)
  unfolding reconcile_activities query_payments
  reconcile_payments w =
      let (listed, w1) = g.list_activities w in
      let (now, w2) = g.now w1 in
      if not (g.has_activity && g.has_orders && g.has_payments)
      then (nothing_reconciled, (none, w))
      else elim listed [
        | err e ↦ (nothing_reconciled, (some (wrap "list activities for payment reconcile" e), w1))
        | ok activities ↦
            let targets = selected (λ a. should_reconcile_activity a now) activities in
            let (found, w3) = g.list_orders_by_activities (activity_nos targets) w2 in
            elim found [
              | err e ↦
                  (nothing_reconciled, (some (wrap "list orders for payment reconcile" e), w3))
              | ok orders ↦
                  let (queried, w4) = query_payments (payment_order_nos targets orders) w3 in
                  elim queried [
                    | err e ↦
                        (nothing_reconciled, (some (wrap "query payments for reconcile" e), w4))
                    | ok queries ↦ reconcile_activities targets orders queries nothing_reconciled w4
                  ]
            ]
      ]
