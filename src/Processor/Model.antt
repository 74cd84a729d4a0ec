-- ===== src/Processor/Model.antt =====
-- services/seckill-processor/internal/domain: the records of model/, the events of event/, and the
-- errors as their text, the sentinel that `errors.Is` finds in their chain, and their kind.
use Prim.Native.Nat.{◌%◌}
use seckill_go.Prelude.{
  if◌then◌else◌, ℤ, pos, negsuc, ◌-ℤ◌, lt_ℤ, eq_ℤ, mul64, suc, String, append, Bool, true, false,
  not, ◌&&◌, Option,
}

-- Which of the sentinels an error wraps.
pub data Sentinel : Type 0 where
  plain : Sentinel
  not_found : Sentinel
  duplicate_trace_id : Sentinel
  order_not_found : Sentinel

pub record Failure : Type 0 where
  pub message : String
  pub sentinel : Sentinel

-- `fmt.Errorf(prefix + "%w", err)`
abbrev pub wrap : String → Failure → Failure
wrap prefix f = record f { message = append prefix f.message }

abbrev pub is_not_found : Failure → Bool
is_not_found f = elim f.sentinel [ not_found ↦ true | _ ↦ false ]

abbrev pub is_duplicate_trace_id : Failure → Bool
is_duplicate_trace_id f = elim f.sentinel [ duplicate_trace_id ↦ true | _ ↦ false ]

pub record ActivityInfo : Type 0 where
  pub activity_no : String
  pub start_time : ℤ
  pub end_time : ℤ
  pub status : ℤ
  pub purchase_limit : ℤ

-- status.ActivityOpen is 1.
unfoldable pub is_open : ActivityInfo → ℤ → Bool
is_open a now = eq_ℤ a.status (pos 1) && not (lt_ℤ now a.start_time) && lt_ℤ now a.end_time

pub record SkuInfo : Type 0 where
  pub activity_no : String
  pub sku_no : String
  pub total_stock : ℤ
  pub seckill_price : ℤ
  pub limit_quantity : ℤ

unfoldable pub effective_limit : SkuInfo → ℤ → ℤ
effective_limit s activity_limit =
    if lt_ℤ (pos 0) s.limit_quantity then s.limit_quantity else activity_limit

unfoldable pub calc_price : SkuInfo → ℤ → ℤ
calc_price s quantity = mul64 s.seckill_price quantity

pub record RiskResult : Type 0 where
  pub risk : Bool
  pub level : ℤ
  pub reason : String

pub record SubmitCommand : Type 0 where
  pub trace_id : String
  pub request_trace_id : String
  pub activity_no : String
  pub sku_no : String
  pub user_id : ℤ
  pub quantity : ℤ
  pub total_fee : ℤ
  pub request_ip : String
  pub run_id : String

-- The status of a new request is always status.OrderPending.
pub record OrderRequest : Type 0 where
  pub order_no : String
  pub user_id : ℤ
  pub activity_no : String
  pub sku_no : String
  pub quantity : ℤ
  pub pay_amount : ℤ
  pub trace_id : String
  pub request_trace_id : String
  pub created_at : ℤ

-- The status texts; `other` is any other text.
pub data OrderStatus : Type 0 where
  pending : OrderStatus
  paid : OrderStatus
  closed : OrderStatus
  other : String → OrderStatus

pub record OrderInfo : Type 0 where
  pub order_no : String
  pub user_id : ℤ
  pub activity_no : String
  pub sku_no : String
  pub quantity : ℤ
  pub pay_amount : ℤ
  pub status : OrderStatus
  pub transaction_no : String
  pub paid_at : Option ℤ
  pub created_at : ℤ

pub data Reason : Type 0 where
  activity_closed : Reason
  stock_empty : Reason
  risk_user : Reason
  order_fail : Reason

-- The events of event/events.go, each on its topic.
pub data DomainEvent : Type 0 where
  order_created :
      (order_no : String) (user_id : ℤ) (activity_no sku_no : String) (quantity pay_amount : ℤ)
      (trace_id request_trace_id : String)
      → DomainEvent
  seckill_rejected : (trace_id : String) (reason : Reason) (request_trace_id : String) → DomainEvent

-- `user_id % 4`, with the sign of the user id as in Go.
unfoldable pub shard_id : ℤ → ℤ
shard_id (pos n) = pos (n % 4)
shard_id (negsuc n) = pos 0 -ℤ pos (suc n % 4)
