-- ===== src/Gateway/Pool/Processing.antt =====
-- How a worker settles an event, read from a journal.
use seckill_go.Prelude.{
  if◌then◌else◌, String, ◌≡◌, Bool, true, false, Option, none, some, List, [], ◌∷◌, arith, str_eq,
}
use seckill_go.Errors.{RpcError}
use seckill_go.Gateway.Entry.{PartInEvent}
use seckill_go.Gateway.Pool.{
  PoolServices, mark_failed, is_blocked, peek_stock, publish_or_fail, process_event,
}

pub data Outcome : Type 0 where
  published : PartInEvent → Bool → Outcome
  failed : (trace_id reason : String) → Outcome

abbrev pub succeeded : Option RpcError → Bool
succeeded none = true
succeeded (some e) = false

-- The services with a journal before their world, the latest call first.
abbrev pub recorded : {W : Type 0} → PoolServices W → PoolServices (List Outcome × W)
recorded g = record {
  has_results = g.has_results;
  has_risk = g.has_risk;
  has_stock = g.has_stock;
  risk_check = g.risk_check;
  stock_peek = g.stock_peek;
  set_processing = λ t (js, w). (js, g.set_processing t w);
  set_failed = λ t m (js, w). (failed t m ∷ js, g.set_failed t m w);
  is_risk_user = λ u (js, w). let (r, w') = g.is_risk_user u w in (r, (js, w'));
  get_activity = λ n (js, w). let (r, w') = g.get_activity n w in (r, (js, w'));
  peek = λ a s (js, w). let (r, w') = g.peek a s w in (r, (js, w'));
  publish = λ e (js, w). let (r, w') = g.publish e w in (r, (published e (succeeded r) ∷ js, w'));
}

-- An event was published, or its request was marked as failed: one of the two, once.
abbrev pub Settles : PartInEvent → String → List Outcome → Type 0
Settles e trace_id (failed t reason ∷ []) = t ≡ trace_id
Settles e trace_id (published e' true ∷ []) = e' ≡ e
Settles e trace_id (failed t reason ∷ published e' false ∷ []) = (t ≡ trace_id) × (e' ≡ e)
Settles e trace_id _ = ⊥

module _ {W : Type 0} (g : PoolServices W) (stored : g.has_results ≡ true) (e : PartInEvent) where
  publish-Settles :
      (trace_id : String) (w : W)
      → Settles e trace_id (publish_or_fail (recorded g) e trace_id ([], w)).0
  unfolding publish_or_fail mark_failed peek_stock
  publish-Settles trace_id w = ground arith

  -- With a result store, a worker settles an event in one way, whatever the services answer: it is
  -- published once and the request is not marked as failed, or the request is marked as failed once,
  -- under the event's trace id or, where this is empty, the generated one, and no publication
  -- succeeded.
  pub process_event-Settles :
      (generated : String) (w : W)
      → Settles e
          (if str_eq e.trace_id "" then generated else e.trace_id)
          (process_event (recorded g) generated e ([], w)).0
  unfolding process_event mark_failed is_blocked
  process_event-Settles generated w =
      let trace_id = if str_eq e.trace_id "" then generated else e.trace_id in
      let w0 = if g.has_results then g.set_processing trace_id w else w in
      let w1 = (is_blocked g e w0).1 in
      ground (arith, publish-Settles trace_id (g.get_activity e.activity_no w1).1)
