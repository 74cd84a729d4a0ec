-- ===== src/Support/Callback.antt =====
-- services/support-service/internal/application/payment.go: `Prepay` and the payment callback
-- `Notify`. The gateways, the cache, the lock and the task queue are functions on a world.
pub mod Dispatch
pub mod Paying
use seckill_go.Prelude.{
  if◌then◌else◌, is_some, get_or, ℤ, pos, ◌+ℤ◌, eq_ℤ, Result, ok, err, Assoc, lookup, trim_space,
  String, append, Bool, true, false, not, ◌||◌, Option, none, some, str_eq,
}
use seckill_go.Support.Ledger.{IssueCardRequest, SyncOrderRequest}

-- An error of a gateway, and whether it is or wraps domain.ErrCircuitOpen.
pub record GatewayError : Type 0 where
  pub message : String
  pub is_circuit_open : Bool

pub data AppError : Type 0 where
  invalid_request : AppError
  service_unavailable : AppError
  order_not_found : AppError
  forbidden : AppError
  order_not_payable : AppError
  create_payment_failed : GatewayError → AppError
  mark_order_paid_failed : GatewayError → AppError

-- The order's status texts.
pub data PayableStatus : Type 0 where
  pending_pay : PayableStatus
  paid : PayableStatus
  closed : PayableStatus
  other_status : String → PayableStatus

-- domain/entity/order.go
pub record PayableOrder : Type 0 where
  pub order_no : String
  pub user_id : ℤ
  pub pay_amount : ℤ
  pub status : PayableStatus
  pub transaction_no : String
  pub paid_at : Option ℤ

pub record CreatePayRequest : Type 0 where
  pub order_no : String
  pub user_id : ℤ
  pub pay_amount : ℤ
  pub pay_channel : String
  pub subject : String
  pub expire_at : ℤ

pub record PayResult : Type 0 where
  pub order_no : String
  pub pay_channel : String
  pub prepay_id : String
  pub nonce_str : String
  pub time_stamp : String
  pub sign : String

-- A task for the queue carries one of the two payloads.
pub data PostPayTask : Type 0 where
  sync_task : SyncOrderRequest → PostPayTask
  card_task : IssueCardRequest → PostPayTask

pub record Collaborators (W : Type 0) : Type 0 where
  pub get_order : String → W → Result GatewayError PayableOrder
  pub mark_order_paid : String → String → ℤ → W → Option GatewayError × W
  pub create_payment : CreatePayRequest → W → Result GatewayError PayResult × W
  pub get_prepay : String → W → Option PayResult
  pub set_prepay : String → PayResult → W → W
  pub publish_post_pay_task : PostPayTask → W → Option GatewayError × W
  pub try_lock : String → W → Bool × W
  pub unlock : String → W → W
  pub sync_order : SyncOrderRequest → W → W
  pub issue_card : IssueCardRequest → W → W

-- Which collaborators are set, what `currentDegrade` answers, and `time.Now`. Times are in
-- nanoseconds, as durations are.
pub record AppConfig : Type 0 where
  pub has_prepay_cache : Bool
  pub has_callback_lock : Bool
  pub has_post_pay_tasks : Bool
  pub has_sync : Bool
  pub has_cards : Bool
  pub skip_order_sync : Bool
  pub skip_card_issue : Bool
  pub now : ℤ

abbrev is_pending_pay : PayableOrder → Bool
is_pending_pay o = elim o.status [ pending_pay ↦ true | _ ↦ false ]

abbrev pub sync_request : PayableOrder → String → ℤ → SyncOrderRequest
sync_request o txn paid_at = record {
  order_no = o.order_no;
  user_id = o.user_id;
  order_source = "SECKILL";
  total_amount = o.pay_amount;
  discount_amount = pos 0;
  pay_amount = o.pay_amount;
  paid_at = paid_at;
  transaction_no = txn;
}

abbrev pub card_request : PayableOrder → IssueCardRequest
card_request o = record {
  user_id = o.user_id;
  order_no = o.order_no;
  card_name = "秒杀自由卡";
  face_value = o.pay_amount;
  valid_days = pos 365;
}

module _ {W : Type 0} (c : Collaborators W) (app : AppConfig) where
  sync_paid_order : PayableOrder → String → W → W
  sync_paid_order o txn w =
      if app.skip_order_sync || not app.has_sync
      then w
      else c.sync_order (sync_request o txn app.now) w

  issue_card_after_pay : PayableOrder → W → W
  issue_card_after_pay o w =
      if app.skip_card_issue || not app.has_cards then w else c.issue_card (card_request o) w

  -- What follows the payment, with the task queue or without it.
  after_paid : PayableOrder → String → W → W
  unfolding sync_paid_order issue_card_after_pay
  after_paid o txn w =
      let (sync_error, w1) = c.publish_post_pay_task (sync_task (sync_request o txn app.now)) w in
      let (card_error, w2) = c.publish_post_pay_task (card_task (card_request o)) w1 in
      let w3 = if is_some sync_error then sync_paid_order o txn w2 else w2 in
      if app.has_post_pay_tasks
      then (if is_some card_error then issue_card_after_pay o w3 else w3)
      else issue_card_after_pay o (sync_paid_order o txn w)

  -- `Notify` once the lock is held.
  notify_locked : String → String → W → Option AppError × W
  unfolding after_paid
  notify_locked order_no txn w =
      let (error, w') = c.mark_order_paid order_no txn app.now w in
      elim (c.get_order order_no w) [
        | err e ↦ (if e.is_circuit_open then some service_unavailable else none, w)
        | ok o ↦ if not (is_pending_pay o) then (none, w) else elim error [
          | some e ↦ (some (mark_order_paid_failed e), w')
          | none ↦ (none, after_paid o txn w')
        ]
      ]

  with_lock : String → String → W → Option AppError × W
  unfolding notify_locked
  with_lock order_no txn w =
      let key = append "seckill:payment:update:" order_no in
      let (locked, w') = c.try_lock key w in
      let (error, w'') = notify_locked order_no txn w' in
      if locked then (error, c.unlock key w'') else (none, w')

  unfoldable pub notify : Assoc String → W → Option AppError × W
  unfolding with_lock notify_locked
  notify params w =
      let order_no = trim_space (get_or (lookup "orderNo" params) "") in
      let txn = trim_space (get_or (lookup "transactionNo" params) "") in
      if str_eq order_no "" || str_eq txn ""
      then (some invalid_request, w)
      else if app.has_callback_lock
      then with_lock order_no txn w
      else notify_locked order_no txn w

  -- `CreatePayment` and the cache after it. The request expires after 310 seconds.
  create_payment_for : PayableOrder → String → String → W → Result AppError PayResult × W
  create_payment_for o order_no channel w =
      let (answer, w') =
        c.create_payment
          (record {
            order_no = o.order_no;
            user_id = o.user_id;
            pay_amount = o.pay_amount;
            pay_channel = channel;
            subject = append "秒杀订单-" o.order_no;
            expire_at = app.now +ℤ pos 310000000000;
          })
          w in
      elim answer [
        | err e ↦ (err (create_payment_failed e), w')
        | ok r ↦ (ok r, if app.has_prepay_cache then c.set_prepay order_no r w' else w')
      ]

  abbrev channel_or_mock : String → String
  channel_or_mock channel = if str_eq channel "" then "mock" else channel

  unfoldable pub prepay : ℤ → String → String → W → Result AppError PayResult × W
  unfolding create_payment_for
  prepay user_id order_text channel_text w =
      let order_no = trim_space order_text in
      let channel = channel_or_mock (trim_space channel_text) in
      let cached = if app.has_prepay_cache then c.get_prepay order_no w else none in
      if str_eq order_no "" then (err invalid_request, w) else elim (c.get_order order_no w) [
        | err e ↦ (err (if e.is_circuit_open then service_unavailable else order_not_found), w)
        | ok o ↦
            if not (eq_ℤ o.user_id user_id)
            then (err forbidden, w)
            else if not (is_pending_pay o)
            then (err order_not_payable, w)
            else elim cached [ some r ↦ (ok r, w) | none ↦ create_payment_for o order_no channel w ]
      ]
