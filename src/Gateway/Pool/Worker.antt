-- ===== src/Gateway/Pool/Worker.antt =====
-- services/seckill-gateway/internal/application/worker_pool.go: the loop of `worker` and the pool that
-- `Start` runs. One turn of a worker is one select of its loop; the select that takes the cancelled
-- context is a step of its own, `notice`, since Go chooses among the cases that are ready.
use seckill_go.Prelude.{ltb, ◌==◌, if◌then◌else◌, ℤ, pos_part, ℕ, Bool, false, none, some}
use seckill_go.Gateway.Entry.{PartInEvent}
use seckill_go.Gateway.Pool.{WorkerPoolConfig, normalized, Channel, new_channel, receive, close}

-- In the outer loop, in the loop after the context was cancelled, or returned.
pub data WorkerState : Type 0 where
  selecting : WorkerState
  draining : WorkerState
  returned : WorkerState

-- The select on the channel, `process` being `processEvent` of the worker. In the outer loop a worker
-- that finds no event waits, and returns once the channel is closed; in the other one it returns.
unfoldable pub worker_turn :
    {W : Type 0} → (PartInEvent → W → W) → WorkerState → Channel → W → WorkerState × (Channel × W)
unfolding receive
worker_turn process selecting c w =
    let (taken, c') = receive c in
    elim taken [
      | some e ↦ (selecting, (c', process e w))
      | none ↦ ((if c.is_closed then returned else selecting), (c', w))
    ]
worker_turn process draining c w =
    let (taken, c') = receive c in
    elim taken [ some e ↦ (draining, (c', process e w)) | none ↦ (returned, (c', w)) ]
worker_turn process returned c w = (returned, (c, w))

-- `<-ctx.Done()`
unfoldable pub notice : WorkerState → WorkerState
notice selecting = draining
notice draining = draining
notice returned = returned

-- The pool while it runs: the workers by their ids, and whether the context was cancelled.
pub record Running (W : Type 0) : Type 0 where
  pub channel : Channel
  pub workers : ℕ → WorkerState
  pub is_cancelled : Bool
  pub world : W

-- `Start` launches the configured number of workers.
unfoldable pub launch : {W : Type 0} → ℤ → WorkerPoolConfig → W → Running W
unfolding new_channel normalized
launch cpus cfg w = record {
  channel = new_channel cpus cfg;
  workers =
      λ i. if ltb i (pos_part (normalized cpus cfg).worker_count) then selecting else returned;
  is_cancelled = false;
  world = w;
}

abbrev pub set_worker : ℕ → WorkerState → (ℕ → WorkerState) → ℕ → WorkerState
set_worker i state workers j = if j == i then state else workers j

-- A turn of the worker with the id `i`.
unfoldable pub turn : {W : Type 0} → (PartInEvent → W → W) → ℕ → Running W → Running W
unfolding worker_turn
turn process i p =
    let (state, (c, w)) = worker_turn process (p.workers i) p.channel p.world in
    record p { channel = c; workers = set_worker i state p.workers; world = w }

unfoldable pub notice_cancel : {W : Type 0} → ℕ → Running W → Running W
unfolding notice
notice_cancel i p =
    if p.is_cancelled
    then record p { workers = set_worker i (notice (p.workers i)) p.workers }
    else p

-- `Start` closes the channel when the context was cancelled.
unfoldable pub shut_down : {W : Type 0} → Running W → Running W
unfolding close
shut_down p = if p.is_cancelled then record p { channel = close p.channel } else p
