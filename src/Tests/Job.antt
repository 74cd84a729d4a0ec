-- ===== src/Tests/Job.antt =====
-- The jobs on one activity with one order.
use seckill_go.Prelude.{
  is_some, pos, ok, Assoc, insert, lookup, ℕ, ◌+◌, String, ◌≡◌, refl, true, false, none, [], ◌∷◌,
  arith,
}
use seckill_go.Job.Model.{
  Activity, Order, JobError, PayQueryResult, next_activity_status, SyncedOrder,
}
use seckill_go.Job.Model.Transition.{IsStep, next_activity_status-IsStep}
use seckill_go.Job.Activities.{ActivityServices, no_status_changes, update_activity_statuses}
use seckill_go.Job.Activities.Settled.{
  due, expecting, watched, IsSettled, update_activity_statuses_settles,
}
use seckill_go.Job.Closing.{
  ClosingServices, close_activity_pending_orders, release_stock, close_payment,
}
use seckill_go.Job.Closing.Handled.{Ends, overdue}
use seckill_go.Job.Closing.Trail.{close_activity_pending_orders-Ends}
use seckill_go.Job.Reconcile.{ReconcileServices, no_tally, reconcile_orders}
use seckill_go.Job.Reconcile.Expected.{
  IsTallied, checked_in, missed_in, unfounded_in, reconcile_orders-IsTallied,
}
use seckill_go.Job.Sync.{check_orders, sync_missing, sync_order_request}
use seckill_go.Job.Sync.Complete.{over_ledger, in_ledger, AllSynced, check_orders_completes}
use seckill_go.Support.Ledger.{SupportLedger, sync_order, get_synced_order}

abbrev sale : Activity
sale = record {
  activity_no = "A";
  name = "sale";
  start_time = pos 10;
  end_time = pos 20;
  status = pos 0;
  purchase_limit = pos 1;
  remark = "";
  skus = [];
  created_at = pos 5;
  updated_at = pos 5;
}

next_activity_status-IsStep_example : IsStep sale (pos 15) (next_activity_status sale (pos 15))
next_activity_status-IsStep_example = next_activity_status-IsStep sale (pos 15)

-- The world counts the calls.
abbrev statuses : ActivityServices ℕ
statuses = record {
  has_activity = true;
  has_cache = false;
  list_activities = λ n. (ok (sale ∷ []), n);
  update_activity_status = λ a s n. (none, n + 1);
  evict = λ a n. (none, n);
  now = λ n. (pos 15, n);
}

update_activity_statuses_settles_example :
    let changes = due (pos 15) (sale ∷ []) in
    let (r, (error, (v, w'))) =
      update_activity_statuses (watched statuses) (expecting changes, 0) in
    IsSettled no_status_changes changes error r v
update_activity_statuses_settles_example =
    update_activity_statuses_settles statuses (sale ∷ []) 0 refl refl

abbrev order : String → Order
order status = record {
  order_no = "o1";
  user_id = pos 7;
  activity_no = "A";
  sku_no = "S";
  quantity = pos 1;
  pay_amount = pos 990;
  status = status;
  transaction_no = "";
  paid_at = none;
  created_at = pos 12;
}

abbrev closers : ClosingServices ℕ
closers = record {
  has_activity = true;
  has_orders = true;
  has_stock = true;
  has_payments = true;
  list_activities = λ n. (ok (sale ∷ []), n);
  list_orders_by_activities = λ ns n. (ok [], n);
  close_order = λ o n. (none, n + 1);
  release_stock = λ a s u q o n. (none, n + 1);
  close_payment = λ o n. (none, n + 1);
  now = λ n. (pos 1000000000000, n);
}

close_activity_pending_orders-Ends_example :
    let (r, (error, (js, w'))) =
      close_activity_pending_orders
        (seckill_go.Job.Closing.Calls.recorded closers)
        (order "PENDING_PAY" ∷ [])
        ([], 0) in
    Ends [] (overdue (pos 1000000000000) (order "PENDING_PAY" ∷ [])) r error js
close_activity_pending_orders-Ends_example =
    close_activity_pending_orders-Ends closers (order "PENDING_PAY" ∷ []) 0 refl refl

abbrev payments : ReconcileServices ℕ
payments = record {
  has_activity = true;
  has_orders = true;
  has_payments = true;
  list_activities = λ n. (ok (sale ∷ []), n);
  list_orders_by_activities = λ ns n. (ok [], n);
  mark_order_paid = λ o t p n. (none, n + 1);
  query_payments = λ ns n. (ok [], n);
  now = λ n. (pos 30, n);
}

abbrev queries : Assoc PayQueryResult
queries =
    ("o1", record { order_no = "o1"; pay_status = pos 1; transaction_no = "tx"; paid_at = none })
    ∷ []

reconcile_orders-IsTallied_example :
    let (t', (error, w')) =
      reconcile_orders payments (order "PENDING_PAY" ∷ []) queries no_tally 0 in
    IsTallied no_tally
      (checked_in (order "PENDING_PAY" ∷ []))
      (missed_in queries (order "PENDING_PAY" ∷ []))
      (unfounded_in queries (order "PENDING_PAY" ∷ []))
      error
      t'
reconcile_orders-IsTallied_example =
    reconcile_orders-IsTallied payments (order "PENDING_PAY" ∷ []) queries no_tally 0

abbrev ledger : SupportLedger
ledger = record {
  cards_by_no = [];
  card_no_by_order = [];
  orders = [];
  users_by_id = λ i. none;
  user_id_by_phone = [];
}

nothing_listed :
    (n : String)
    → is_some (lookup {V = seckill_go.Job.Model.SyncedOrder} n []) ≡ true
    → in_ledger n ledger ≡ true
unfolding lookup
nothing_listed n h = absurd (ground (arith, h))

abbrev listed_then : Assoc seckill_go.Job.Model.SyncedOrder
listed_then = ("o1", record { order_no = "o1" }) ∷ []

abbrev ledger_then : SupportLedger
ledger_then =
    (check_orders (over_ledger [] [] [] (pos 30)) "A" (order "PAID" ∷ []) [] no_tally ledger).1.1

all_listed : (n : String) → in_ledger n ledger_then ≡ true → is_some (lookup n listed_then) ≡ true
unfolding check_orders sync_missing sync_order_request sync_order get_synced_order lookup insert
all_listed n h = ground (arith, h)

check_orders_completes_example :
    let job = over_ledger [] [] [] (pos 30) in
    let (t, (error, l')) = check_orders job "A" (order "PAID" ∷ []) [] no_tally ledger in
    (error ≡ none)
    × AllSynced (order "PAID" ∷ []) l'
    × ((check_orders job "A" (order "PAID" ∷ []) listed_then no_tally l').0.mismatches ≡ 0)
    × ((check_orders job "A" (order "PAID" ∷ []) listed_then no_tally l').1 ≡ (none, l'))
check_orders_completes_example =
    check_orders_completes "A" (order "PAID" ∷ []) [] listed_then (pos 30) ledger nothing_listed
      all_listed
