-- ===== src/Gateway/Pool.antt =====
-- services/seckill-gateway/internal/application/worker_pool.go: the bounded queue of events and the
-- workers behind it. A send on the closed channel is a panic, `none`. The processors, the length of
-- the channel and the taking of an event by one of the workers are single steps.
pub mod Worker
pub mod Queueing
pub mod Draining
pub mod Processing
use seckill_go.Prelude.{
  ltb, if◌then◌else◌, get_or, ℤ, pos, pos_part, le_ℤ, Result, ok, err, ℕ, suc, String, Bool, true,
  false, not, ◌&&◌, Option, none, some, List, [], ◌∷◌, ◌++◌, str_eq,
}
use seckill_go.Errors.{RpcError}
use seckill_go.Gateway.Entry.{ActivityDetail, PartInEvent}

pub record WorkerPoolConfig : Type 0 where
  pub queue_size : ℤ
  pub worker_count : ℤ

-- `runtime.NumCPU()` is `cpus`.
unfoldable pub default_config : ℤ → WorkerPoolConfig
default_config cpus = record { queue_size = pos 10000; worker_count = cpus }

unfoldable pub normalized : ℤ → WorkerPoolConfig → WorkerPoolConfig
normalized cpus cfg = record {
  queue_size = if le_ℤ cfg.queue_size (pos 0) then pos 10000 else cfg.queue_size;
  worker_count = if le_ℤ cfg.worker_count (pos 0) then cpus else cfg.worker_count;
}

-- The channel: its capacity, what waits in it, the oldest first, and whether it is closed.
pub record Channel : Type 0 where
  pub capacity : ℕ
  pub waiting : List PartInEvent
  pub is_closed : Bool

unfoldable pub new_channel : ℤ → WorkerPoolConfig → Channel
unfolding normalized
new_channel cpus cfg = record {
  capacity = pos_part (normalized cpus cfg).queue_size;
  waiting = [];
  is_closed = false;
}

-- `len`
unfoldable pub size : List PartInEvent → ℕ
size [] = 0
size (e ∷ rest) = suc (size rest)

-- Whether the event was taken, and the channel.
unfoldable pub submit : PartInEvent → Channel → Option (Bool × Channel)
unfolding size
submit e c =
    if c.is_closed
    then none
    else if ltb (size c.waiting) c.capacity
    then some (true, record c { waiting = c.waiting ++ (e ∷ []) })
    else some (false, c)

-- `<-p.events` of a worker: an event, or nothing to take.
unfoldable pub receive : Channel → Option PartInEvent × Channel
receive c = elim c.waiting [ [] ↦ (none, c) | e ∷ rest ↦ (some e, record c { waiting = rest }) ]

-- `close(p.events)`, when the context is done.
unfoldable pub close : Channel → Channel
close c = record c { is_closed = true }

-- The two switches are `nil` or what they answer; an activity without an error is there.
pub record PoolServices (W : Type 0) : Type 0 where
  pub has_results : Bool
  pub has_risk : Bool
  pub has_stock : Bool
  pub risk_check : Option Bool
  pub stock_peek : Option Bool
  pub set_processing : String → W → W
  pub set_failed : String → String → W → W
  pub is_risk_user : ℤ → W → Result RpcError Bool × W
  pub get_activity : String → W → Result RpcError ActivityDetail × W
  pub peek : String → String → W → Result RpcError ℤ × W
  pub publish : PartInEvent → W → Option RpcError × W

module _ {W : Type 0} (g : PoolServices W) where
  unfoldable pub mark_failed : String → String → W → W
  mark_failed trace_id reason w = if not g.has_results then w else g.set_failed trace_id reason w

  -- A user who is a risk; an error lets the user pass.
  unfoldable pub is_blocked : PartInEvent → W → Bool × W
  is_blocked e w =
      let (answer, w1) = g.is_risk_user e.user_id w in
      if g.has_risk && get_or g.risk_check true
      then (elim answer [ err x ↦ false | ok risk ↦ risk ], w1)
      else (false, w)

  -- The stock, 1 where it is not looked at.
  unfoldable pub peek_stock : PartInEvent → W → Result RpcError ℤ × W
  peek_stock e w =
      if g.has_stock && get_or g.stock_peek true
      then g.peek e.activity_no e.sku_no w
      else (ok (pos 1), w)

  -- From the look at the stock on.
  unfoldable pub publish_or_fail : PartInEvent → String → W → W
  unfolding mark_failed peek_stock
  publish_or_fail e trace_id w =
      let (peeked, w1) = peek_stock e w in
      let (error, w2) = g.publish e w1 in
      elim peeked [
        | err x ↦ mark_failed trace_id "stock_check_failed" w1
        | ok stock ↦
            if le_ℤ stock (pos 0)
            then mark_failed trace_id "STOCK_EMPTY" w1
            else elim error [ some x ↦ mark_failed trace_id "publish_failed" w2 | none ↦ w2 ]
      ]

  -- `generated` is the trace id for an event without one.
  unfoldable pub process_event : String → PartInEvent → W → W
  unfolding mark_failed is_blocked publish_or_fail
  process_event generated e w =
      let trace_id = if str_eq e.trace_id "" then generated else e.trace_id in
      let w0 = if g.has_results then g.set_processing trace_id w else w in
      let (blocked, w1) = is_blocked e w0 in
      let (read, w2) = g.get_activity e.activity_no w1 in
      let rest = publish_or_fail e trace_id w2 in
      if blocked then mark_failed trace_id "risk_user_blocked" w1 else elim read [
        | err x ↦ mark_failed trace_id "activity_not_found" w2
        | ok a ↦ if not a.activity_open then mark_failed trace_id "activity_not_open" w2 else rest
      ]
