-- ===== src/Gateway/Pool/Queueing.antt =====
-- The pool of workers over a sequence of submissions, turns of its workers and the shutdown.
use mathlib.Core.List.{append_assoc}
use mathlib.Core.Path.{subst}
use seckill_go.Prelude.{
  ltb, Bool-cases, Option-cases, ℤ, ℕ, suc, ◌≤◌, ◌≡◌, refl, sym, ap, ◌∙◌, inl, inr, Bool, true,
  false, Option, none, some, List, [], ◌∷◌, ◌++◌, arith,
}
use seckill_go.Gateway.Entry.{PartInEvent}
use seckill_go.Gateway.Pool.{WorkerPoolConfig, Channel, size, submit, receive, close}
use seckill_go.Gateway.Pool.Worker.{
  WorkerState, selecting, draining, returned, worker_turn, Running, launch, turn, notice_cancel,
  shut_down,
}

pub data Step : Type 0 where
  submitted : PartInEvent → Step
  cancelled : Step
  closed : Step
  turned : (worker_id : ℕ) → Step
  noticed : (worker_id : ℕ) → Step

-- Beside the pool, the events that `Submit` accepted, the oldest first. In front of the world stand
-- the events that were processed, the oldest first.
pub record History (W : Type 0) : Type 0 where
  pub accepted : List PartInEvent
  pub pool : Running (List PartInEvent × W)

module _ {W : Type 0} (process : PartInEvent → W → W) where
  abbrev pub logging : PartInEvent → List PartInEvent × W → List PartInEvent × W
  logging e (es, w) = (es ++ (e ∷ []), process e w)

  abbrev after_submit : PartInEvent → History W → Option (Bool × Channel) → Option (History W)
  after_submit e h none = none
  after_submit e h (some (false, c)) = some (record h { pool = record (h.pool) { channel = c } })
  after_submit e h (some (true, c)) =
      some (record { accepted = h.accepted ++ (e ∷ []); pool = record (h.pool) { channel = c } })

  -- `none` is a panic.
  unfoldable pub step : Step → History W → Option (History W)
  step (submitted e) h = after_submit e h (submit e h.pool.channel)
  step cancelled h = some (record h { pool = record (h.pool) { is_cancelled = true } })
  step closed h = some (record h { pool = shut_down h.pool })
  step (turned i) h = some (record h { pool = turn logging i h.pool })
  step (noticed i) h = some (record h { pool = notice_cancel i h.pool })

  unfoldable pub run : List Step → History W → Option (History W)
  run [] h = some h
  run (s ∷ rest) h = elim (step s h) [ none ↦ none | some h' ↦ run rest h' ]

  abbrev pub start : ℤ → WorkerPoolConfig → W → History W
  start cpus cfg w = record { accepted = []; pool = launch cpus cfg ([], w) }

  -- The events are processed or wait, in the order of their acceptance, and no more than fit.
  abbrev pub IsSound : ℕ → History W → Type 0
  IsSound n h =
      (h.accepted ≡ h.pool.world.0 ++ h.pool.channel.waiting)
      × (size h.pool.channel.waiting ≤ n)
      × (h.pool.channel.capacity ≡ n)

  abbrev pub IsSoundIf : ℕ → Option (History W) → Type 0
  IsSoundIf n none = Unit
  IsSoundIf n (some h) = IsSound n h

  size-append : (es : List PartInEvent) (e : PartInEvent) → size (es ++ (e ∷ [])) ≡ suc (size es)
  unfolding size
  size-append [] e = refl
  size-append (x ∷ es) e = ground (arith, size-append es e)

  abbrev Left : ℕ → List PartInEvent → WorkerState × (Channel × (List PartInEvent × W)) → Type 0
  Left n accepted (state, (c, (es, w))) =
      (accepted ≡ es ++ c.waiting) × (size c.waiting ≤ n) × (c.capacity ≡ n)

  worker_turn-Left :
      (n : ℕ) (state : WorkerState) (capacity : ℕ) (waiting : List PartInEvent) (is_closed : Bool)
      (accepted es : List PartInEvent) (w : W)
      → accepted ≡ es ++ waiting
      → size waiting ≤ n
      → capacity ≡ n
      → Left n accepted (
          worker_turn logging state
            (record { capacity = capacity; waiting = waiting; is_closed = is_closed })
            (es, w))
  unfolding worker_turn receive size
  worker_turn-Left n selecting capacity [] is_closed accepted es w all fits same = (all, fits, same)
  worker_turn-Left n draining capacity [] is_closed accepted es w all fits same = (all, fits, same)
  worker_turn-Left n returned capacity waiting is_closed accepted es w all fits same =
      (all, fits, same)
  worker_turn-Left n selecting capacity (e ∷ rest) is_closed accepted es w all fits same =
      (all ∙ sym (append_assoc es (e ∷ []) rest), ground (arith, fits), same)
  worker_turn-Left n draining capacity (e ∷ rest) is_closed accepted es w all fits same =
      (all ∙ sym (append_assoc es (e ∷ []) rest), ground (arith, fits), same)

  step-IsSound : (n : ℕ) (s : Step) (h : History W) → IsSound n h → IsSoundIf n (step s h)
  unfolding step submit shut_down close notice_cancel turn
  step-IsSound n (submitted e) h (all, fits, same) = elim (Bool-cases h.pool.channel.is_closed) [
    | inl shut ↦ rw (shut, submit) tt
    | inr unshut ↦ elim (Bool-cases (ltb (size h.pool.channel.waiting) h.pool.channel.capacity)) [
      | inl room ↦
          rw (unshut, room, submit)
            (
              ap (λ es. es ++ (e ∷ [])) all
                  ∙ append_assoc h.pool.world.0 h.pool.channel.waiting (e ∷ []),
              ground (arith, room, same, size-append h.pool.channel.waiting e),
              same,
            )
      | inr full ↦ rw (unshut, full, submit) (all, fits, same)
    ]
  ]
  step-IsSound n cancelled h sound = sound
  step-IsSound n closed h (all, fits, same) = ground (arith, all, fits, same)
  step-IsSound n (turned i) h (all, fits, same) =
      worker_turn-Left n (h.pool.workers i) h.pool.channel.capacity h.pool.channel.waiting
        h.pool.channel.is_closed h.accepted h.pool.world.0 h.pool.world.1 all fits same
  step-IsSound n (noticed i) h (all, fits, same) = ground (arith, all, fits, same)

  pub run-IsSound :
      (n : ℕ) (steps : List Step) (h : History W) → IsSound n h → IsSoundIf n (run steps h)
  unfolding run
  run-IsSound n [] h sound = sound
  run-IsSound n (s ∷ rest) h sound = elim (Option-cases (step s h)) [
    | inl panic ↦ rw (panic, run) tt
    | inr (h', went) ↦
        rw (went, run) (run-IsSound n rest h' (subst (IsSoundIf n) went (step-IsSound n s h sound)))
  ]
