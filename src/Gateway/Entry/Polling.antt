-- ===== src/Gateway/Entry/Polling.antt =====
-- services/seckill-gateway/internal/application/seckill.go: what a client polls after it was queued.
use seckill_go.Prelude.{
  if◌then◌else◌, Bool-cases, ℤ, eq_ℤ, Result, ok, err, decimal, String, append, ◌≡◌, refl, inl, inr,
  Bool, true, false, not, Option, none, some, List, [], ◌∷◌, arith, str_eq, eq_iff,
}
use seckill_go.Errors.{RpcError, wrap_error}

pub record SeckillResult : Type 0 where
  pub status : String
  pub order_no : String
  pub error : String

-- "0" stop, "1" continue, "2" success
pub record QueueCheckResult : Type 0 where
  pub poll_status : String
  pub order_no : String
  pub reason : String
  pub trace_id : String

pub record OrderRef : Type 0 where
  pub order_no : String
  pub user_id : ℤ

-- The store of the results, the states of the queued and the order service; these are only read.
pub record PollServices : Type 0 where
  pub has_results : Bool
  pub has_queue_state : Bool
  pub has_order : Bool
  pub get_result : String → Result RpcError (Option SeckillResult)
  pub get_queued_trace : ℤ → String → Result RpcError String
  pub list_orders_by_activity : String → Result RpcError (List OrderRef)

abbrev pub polling : String → String → String → String → QueueCheckResult
polling poll_status order_no reason trace_id = record {
  poll_status = poll_status;
  order_no = order_no;
  reason = reason;
  trace_id = trace_id;
}

abbrev pub result_check : String → SeckillResult → QueueCheckResult
result_check trace_id r =
    if str_eq r.status "processing"
    then polling "1" "" "" trace_id
    else if str_eq r.status "success"
    then polling "2" r.order_no "" trace_id
    else if str_eq r.status "failed"
    then polling "0" "" r.error trace_id
    else polling "1" "" "" trace_id

unfoldable pub check_queue : PollServices → String → Result RpcError QueueCheckResult
check_queue g trace_id =
    if str_eq trace_id ""
    then ok (polling "0" "" "" "")
    else if not g.has_results
    then ok (polling "1" "" "" trace_id)
    else elim (g.get_result trace_id) [
      | err e ↦ err (wrap_error (append "get result for trace " (append trace_id ": ")) e)
      | ok none ↦ ok (polling "1" "" "" trace_id)
      | ok (some r) ↦ ok (result_check trace_id r)
    ]

-- The range over the orders.
unfoldable pub order_of_user : ℤ → List OrderRef → String
order_of_user user_id [] = ""
order_of_user user_id (o ∷ rest) =
    let later = order_of_user user_id rest in if eq_ℤ o.user_id user_id then o.order_no else later

unfoldable pub order_from_service : PollServices → ℤ → String → Result RpcError String
unfolding order_of_user
order_from_service g user_id activity_no =
    if not g.has_order then ok "" else elim (g.list_orders_by_activity activity_no) [
      | err e ↦ err (wrap_error (append "list orders by activity " (append activity_no ": ")) e)
      | ok orders ↦ ok (order_of_user user_id orders)
    ]

abbrev pub order_if_done : QueueCheckResult → String
order_if_done c = if str_eq c.poll_status "2" then c.order_no else ""

unfoldable pub check_queue_by_activity : PollServices → ℤ → String → Result RpcError String
unfolding check_queue order_from_service
check_queue_by_activity g user_id activity_no =
    let from_service = order_from_service g user_id activity_no in
    if not g.has_queue_state then from_service else elim (g.get_queued_trace user_id activity_no) [
      | err e ↦ err (
          wrap_error
            (append "get queued trace "
              (append (decimal user_id) (append "/" (append activity_no ": "))))
            e)
      | ok trace_id ↦
          if str_eq trace_id ""
          then from_service
          else elim (check_queue g trace_id) [ err e ↦ err e | ok c ↦ ok (order_if_done c) ]
    ]

-- What a poll may say of the stored state of a request.
abbrev pub Reports : Option SeckillResult → QueueCheckResult → Type 0
Reports none c = (c.poll_status ≡ "1") × (c.order_no ≡ "") × (c.reason ≡ "")
Reports (some r) c =
    (c.poll_status
      ≡ (if str_eq r.status "success" then "2" else if str_eq r.status "failed" then "0" else "1"))
    × (c.order_no ≡ (if str_eq r.status "success" then r.order_no else ""))
    × (c.reason ≡ (if str_eq r.status "failed" then r.error else ""))

abbrev pub ReportsAnswer : String → Option SeckillResult → Result RpcError QueueCheckResult → Type 0
ReportsAnswer trace_id o (err e) = ⊥
ReportsAnswer trace_id o (ok c) = Reports o c × (c.trace_id ≡ trace_id)

result_check-Reports :
    (trace_id : String) (r : SeckillResult)
    → Reports (some r) (result_check trace_id r) × ((result_check trace_id r).trace_id ≡ trace_id)
result_check-Reports trace_id r = elim (Bool-cases (str_eq r.status "processing")) [
  | inl going ↦ rw ((eq_iff r.status "processing").0 going) ((refl, refl, refl), refl)
  | inr s1 ↦ elim (Bool-cases (str_eq r.status "success")) [
    | inl won ↦ rw ((eq_iff r.status "success").0 won) ((refl, refl, refl), refl)
    | inr s2 ↦ elim (Bool-cases (str_eq r.status "failed")) [
      | inl lost ↦ rw ((eq_iff r.status "failed").0 lost) ((refl, refl, refl), refl)
      | inr s3 ↦ rw (s1, s2, s3) ((refl, refl, refl), refl)
    ]
  ]
]

-- With a result store, the poll of a request with a trace id that finds its state `o` says "2", for
-- success, with the order's number where this is a success, "0", to stop, with the error where it
-- has failed, and "1", to go on, for every other state and for none; it carries the trace id, and
-- no order's number and no reason otherwise.
pub check_queue_reports :
    (g : PollServices) (trace_id : String) (o : Option SeckillResult)
    → str_eq trace_id "" ≡ false
    → g.has_results ≡ true
    → g.get_result trace_id ≡ ok o
    → ReportsAnswer trace_id o (check_queue g trace_id)
unfolding check_queue
check_queue_reports g trace_id none named stored got = ground (arith, named, stored, got)
check_queue_reports g trace_id (some r) named stored got =
    rw (named, stored, got, check_queue) (result_check-Reports trace_id r)
