-- ===== src/Gateway/Pool/Draining.antt =====
-- The pool of services/seckill-gateway/internal/application/worker_pool.go until a worker returns.
use seckill_go.Prelude.{ℕ, zero, suc, ◌≡◌, Option, none, some, List, [], ◌∷◌, ◌++◌}
use seckill_go.Gateway.Entry.{PartInEvent}
use seckill_go.Gateway.Pool.Worker.{returned}
use seckill_go.Gateway.Pool.Queueing.{Step, turned, History}

module _ {W : Type 0} (process : PartInEvent → W → W) where
  -- Turns of one worker and of no other.
  pub alone : ℕ → ℕ → List Step
  alone i zero = []
  alone i (suc n) = turned i ∷ alone i n

  -- What the turns of a worker leave that has handled all of `waiting`.
  abbrev Handled : ℕ → List PartInEvent → History W → Option (History W) → Type 0
  Handled i waiting h none = ⊥
  Handled i waiting h (some h') =
      (h'.accepted ≡ h.accepted)
      × (h'.pool.world.0 ≡ h.pool.world.0 ++ waiting)
      × (h'.pool.channel.waiting ≡ [])
      × (h'.pool.workers i ≡ returned)

  -- The events are processed each once, in the order of their acceptance, with none dropped, and the
  -- worker has returned.
  abbrev pub AllProcessed : ℕ → History W → Option (History W) → Type 0
  AllProcessed i h none = ⊥
  AllProcessed i h (some h') =
      (h'.accepted ≡ h.accepted)
      × (h'.pool.world.0 ≡ h.accepted)
      × (h'.pool.channel.waiting ≡ [])
      × (h'.pool.workers i ≡ returned)
