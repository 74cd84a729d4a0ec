-- ===== src/Job/Sync.antt =====
-- services/seckill-job/internal/application/job/job.go: the job that syncs the paid orders which the
-- ledger of the support service does not have. The gateways are functions on a world.
pub mod Complete
use seckill_go.Prelude.{
  if◌then◌else◌, is_some, get_or, ℤ, pos, Result, ok, err, Assoc, lookup, suc, String, append, Bool,
  not, ◌&&◌, Option, none, some, List, [], ◌∷◌,
}
use seckill_go.Job.Model.{
  Activity, Order, SyncedOrder, JobError, wrap, numbered, is_zero, should_reconcile_activity,
  selected, activity_nos, paid_order_nos,
}
use seckill_go.Job.Reconcile.{
  Tally, no_tally, PaymentReconcileResult, nothing_reconciled, add_tally, is_paid, one_checked,
  one_mismatch,
}
use seckill_go.Support.Ledger.{SyncOrderRequest}

pub record SyncServices (W : Type 0) : Type 0 where
  pub has_activity : Bool
  pub has_orders : Bool
  pub has_sync : Bool
  pub list_activities : W → Result JobError (List Activity) × W
  pub list_orders_by_activities : List String → W → Result JobError (Assoc (List Order)) × W
  pub sync_order : SyncOrderRequest → W → Option JobError × W
  pub list_synced_orders : List String → W → Result JobError (Assoc SyncedOrder) × W
  pub now : W → ℤ × W

module _ {W : Type 0} (g : SyncServices W) where
  -- `IsZero` of the time of payment, else of the creation; `at` is what `r.now()` returns.
  unfoldable pub sync_order_request : Order → ℤ → SyncOrderRequest
  sync_order_request o at =
      let paid_at = get_or o.paid_at o.created_at in
      record {
        order_no = o.order_no;
        user_id = o.user_id;
        order_source = "SECKILL";
        total_amount = o.pay_amount;
        discount_amount = pos 0;
        pay_amount = o.pay_amount;
        paid_at = if is_zero paid_at then at else paid_at;
        transaction_no = o.transaction_no;
      }

  -- An order that is paid and not synced; `t` counts it as checked and as a mismatch.
  unfoldable pub sync_missing : String → Order → Tally → W → Tally × (Option JobError × W)
  unfolding sync_order_request
  sync_missing activity_no o t w =
      let (at, w1) = g.now w in
      let from = if is_zero (get_or o.paid_at o.created_at) then w1 else w in
      let (error, w2) = g.sync_order (sync_order_request o at) from in
      elim error [
        | none ↦ (record t { compensated = suc t.compensated }, (none, w2))
        | some e ↦ (
          t,
          (
            some (
                wrap
                  (append "sync order " (append o.order_no (append " for activity " activity_no)))
                  e),
            w2,
          ),
        )
      ]

  unfoldable pub check_orders :
      String → List Order → Assoc SyncedOrder → Tally → W → Tally × (Option JobError × W)
  unfolding sync_missing
  check_orders activity_no [] synced t w = (t, (none, w))
  check_orders activity_no (o ∷ rest) synced t w =
      let (t', (error, w')) = sync_missing activity_no o (one_mismatch (one_checked t)) w in
      let later = check_orders activity_no rest synced t' w' in
      let present = check_orders activity_no rest synced (one_checked t) w in
      let skipped = check_orders activity_no rest synced t w in
      if not (is_paid o)
      then skipped
      else if is_some (lookup o.order_no synced)
      then present
      else elim error [ none ↦ later | some e ↦ (t', (some e, w')) ]

  unfoldable pub check_activities :
      List Activity
      → Assoc (List Order)
      → Assoc SyncedOrder
      → PaymentReconcileResult
      → W
      → PaymentReconcileResult × (Option JobError × W)
  unfolding check_orders
  check_activities [] orders synced r w = (r, (none, w))
  check_activities (a ∷ rest) orders synced r w =
      let (part, (error, w')) =
        check_orders a.activity_no (get_or (lookup a.activity_no orders) []) synced no_tally w in
      let later = check_activities rest orders synced (add_tally r part) w' in
      elim error [
        | none ↦ later
        | some e ↦ (r, (some (wrap (append "check order sync for activity " a.activity_no) e), w'))
      ]

  unfoldable pub list_synced_orders_by_order_nos :
      List String → W → Result JobError (Assoc SyncedOrder) × W
  list_synced_orders_by_order_nos [] w = (ok [], w)
  list_synced_orders_by_order_nos (n ∷ ns) w =
      let (found, w') = g.list_synced_orders (n ∷ ns) w in
      (
        elim found [
          | err e ↦ err (wrap (numbered "list synced orders for " (n ∷ ns) " order nos") e)
          | ok m ↦ ok m
        ],
        w',
      )

  unfoldable pub check_order_sync : W → PaymentReconcileResult × (Option JobError × W)
  unfolding check_activities list_synced_orders_by_order_nos
  check_order_sync w =
      let (listed, w1) = g.list_activities w in
      let (now, w2) = g.now w1 in
      if not (g.has_activity && g.has_orders && g.has_sync)
      then (nothing_reconciled, (none, w))
      else elim listed [
        | err e ↦ (nothing_reconciled, (some (wrap "list activities for order sync check" e), w1))
        | ok activities ↦
            let targets = selected (λ a. should_reconcile_activity a now) activities in
            let (found, w3) = g.list_orders_by_activities (activity_nos targets) w2 in
            elim found [
              | err e ↦ (nothing_reconciled, (some (wrap "list orders for sync check" e), w3))
              | ok orders ↦
                  let (asked, w4) =
                    list_synced_orders_by_order_nos (paid_order_nos targets orders) w3 in
                  elim asked [
                    | err e ↦
                        (nothing_reconciled, (some (wrap "list synced orders for check" e), w4))
                    | ok synced ↦ check_activities targets orders synced nothing_reconciled w4
                  ]
            ]
      ]
