-- ===== src/Processor/Intake/Replay.antt =====
-- A message that was answered and comes again.
use seckill_go.Prelude.{ok, String, ◌≡◌, ◌≢◌, Bool, true, List, [], ◌∷◌, arith, false, none, str_eq}
use seckill_go.Processor.Model.{DomainEvent, order_created, seckill_rejected, SubmitCommand}
use seckill_go.Processor.Submit.{Gateways, Setting, submit}
use seckill_go.Processor.Intake.{
  Redis, Intake, mark_trace, on_event, on_events, processing, processor_key, try_start, normalise,
  submit_and_release, start, execute,
}

-- Redis' documentation of the commands: after an answer of SETNX the key is there; SETNX does
-- nothing to a key that is there; SET removes no key.
pub record RedisWorks {K : Type 0} (r : Redis K) : Type 0 where
  pub has : String → K → Bool
  pub set_nx_fills :
      (key v : String) (k : K) (b : Bool)
      → (r.set_nx key v k).0 ≡ ok b
      → has key (r.set_nx key v k).1 ≡ true
  pub set_nx_fails :
      (key v : String) (k : K)
      → has key k ≡ true
      → ((r.set_nx key v k).0 ≢ ok true) × ((r.set_nx key v k).1 ≡ k)
  pub set_keeps : (key v j : String) (k : K) → has j k ≡ true → has j (r.set key v k).1 ≡ true

module _ {K W : Type 0} (r : Redis K) (works : RedisWorks r) (g : Gateways W) (env : Setting)
    (app : Intake W) where
  mark_trace_keeps :
      (t v j : String) (k : K)
      → works.has j k ≡ true
      → works.has j (mark_trace r g env app t v k) ≡ true
  unfolding mark_trace
  mark_trace_keeps t v j k h = grind (arith, works.set_keeps)

  events_keep :
      (es : List DomainEvent) (j : String) (k : K) (w : W)
      → works.has j k ≡ true
      → works.has j (on_events r g env app es (k, w)).0 ≡ true
  unfolding on_events on_event
  events_keep [] j k w h = h
  events_keep (order_created n u a s q p t rt ∷ es) j k w h =
      events_keep es j _ _ (mark_trace_keeps t n j k h)
  events_keep (seckill_rejected t reason rt ∷ es) j k w h =
      events_keep es j _ _ (mark_trace_keeps t _ j k h)

  run_keeps :
      (m : SubmitCommand) (j : String) (k : K) (w : W) (k' : K) (w' : W)
      → works.has j k ≡ true
      → submit_and_release r g env app m (k, w) ≡ (none, (k', w'))
      → works.has j k' ≡ true
  unfolding submit_and_release
  run_keeps m j k w k' w' h run =
      ground (arith, events_keep (submit g env m w).events j k (submit g env m w).world h)

  -- An answered message has its key.
  answered_has_key :
      (m : SubmitCommand) (k : K) (w : W) (k' : K) (w' : W)
      → str_eq m.trace_id "" ≡ false
      → start r g env app m (k, w) ≡ (none, (k', w'))
      → works.has (processor_key m.trace_id) k' ≡ true
  unfolding start try_start
  answered_has_key m k w k' w' filled run = ground (
    arith,
    works.set_nx_fills (processor_key m.trace_id) processing k true,
    works.set_nx_fills (processor_key m.trace_id) processing k false,
    run_keeps m (processor_key m.trace_id) (r.set_nx (processor_key m.trace_id) processing k).1 w k'
        w',
  )

  taken_is_ignored :
      (m : SubmitCommand) (k : K) (w : W)
      → str_eq m.trace_id "" ≡ false
      → works.has (processor_key m.trace_id) k ≡ true
      → (start r g env app m (k, w)).1 ≡ (k, w)
  unfolding start try_start
  taken_is_ignored m k w filled h =
      ground (arith, works.set_nx_fails (processor_key m.trace_id) processing k h)

  -- With the processor's key store, while no key expires: a message that was answered without an
  -- error, whether with an order, with a rejection or as one already taken, changes nothing when it
  -- is delivered again, neither a key nor the stock, the orders or the queue of timeouts.
  pub replay_is_ignored :
      (m : SubmitCommand) (k k' : K) (w w' : W)
      → app.has_processor_store ≡ true
      → str_eq (normalise m).trace_id "" ≡ false
      → execute r g env app m (k, w) ≡ (none, (k', w'))
      → (execute r g env app m (k', w')).1 ≡ (k', w')
  unfolding execute
  replay_is_ignored m k k' w w' has filled run =
      let held = answered_has_key (normalise m) k w k' w' filled (ground (arith, has, run)) in
      ground (arith, taken_is_ignored (normalise m) k' w' filled held)
