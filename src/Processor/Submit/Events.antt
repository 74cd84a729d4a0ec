-- ===== src/Processor/Submit/Events.antt =====
-- Every submission is answered once.
use seckill_go.Prelude.{String, ◌≡◌, true, Option, none, some, List, [], ◌∷◌, arith}
use seckill_go.Processor.Model.{
  Failure, SubmitCommand, DomainEvent, order_created, seckill_rejected,
}
use seckill_go.Processor.Submit.{Gateways, Setting, submit}

abbrev pub trace_of : DomainEvent → String
trace_of (order_created n u a k q p t r) = t
trace_of (seckill_rejected t reason r) = t

-- An error and no event, or no error and exactly one event, which carries the trace id.
abbrev pub Answers : String → Option Failure → List DomainEvent → Type 0
Answers trace_id (some f) [] = Unit
Answers trace_id none (e ∷ []) = trace_of e ≡ trace_id
Answers trace_id _ _ = ⊥

-- With an event bus set, whatever the collaborators answer and in whichever order the fan-out
-- fails, a submission returns an error and publishes nothing, or returns no error and publishes
-- exactly one event, an order or a rejection, with the command's trace id.
pub submit-Answers :
    {W : Type 0} (g : Gateways W) (env : Setting) (cmd : SubmitCommand) (w : W)
    → env.has_events ≡ true
    → Answers cmd.trace_id (submit g env cmd w).error (submit g env cmd w).events
unfolding submit
submit-Answers g env cmd w bus = ground arith
