-- ===== src/Gateway/Entry/Verdicts.antt =====
-- What the entry learns of a request before it hands it over, read from a journal.
pub mod Answered
use seckill_go.Prelude.{
  ℤ, pos, ◌<ℤ◌, Result, ok, err, ◌≡◌, Bool, true, false, not, Option, none, some, List, [], ◌∷◌,
  arith,
}
use seckill_go.Errors.{RpcError}
use seckill_go.Gateway.Entry.{
  ActivityDetail, PartInEvent, PartInResult, Setting, Services, Request, pass_machine,
  acquire_user_rate_limit, set_queued_trace, mark_suspicious, record_seckill_action,
}
use seckill_go.Gateway.Entry.Fast.{EntryError, set_processing, separate_calls, submit_event}
use seckill_go.Gateway.Entry.Slow.{publish_event, check_risk}

pub data Verdict : Type 0 where
  machine : Bool → Verdict
  rate : Bool → Verdict
  opened : Bool → Verdict
  risk : Bool → Verdict
  stock : ℤ → Verdict
  handed : PartInEvent → Bool → Verdict

abbrev pub succeeded : Option RpcError → Bool
succeeded none = true
succeeded (some e) = false

abbrev pub verdict_if :
    {A : Type 0} → (A → Verdict) → Result RpcError A → List Verdict → List Verdict
verdict_if f (ok a) vs = f a ∷ vs
verdict_if f (err e) vs = vs

abbrev pub opened_if : Result RpcError (Option ActivityDetail) → List Verdict → List Verdict
opened_if (ok (some a)) vs = opened a.activity_open ∷ vs
opened_if (ok none) vs = opened false ∷ vs
opened_if (err e) vs = opened false ∷ vs

-- The services with a journal of their answers before their world, the latest first.
abbrev pub recorded : {W : Type 0} → Services W → Services (List Verdict × W)
recorded g = record {
  check_machine = λ u t (vs, w). let (r, w') = g.check_machine u t w in (r, (machine r ∷ vs, w'));
  acquire_and_set_processing = λ u r i x k (vs, w).
      let (a, w') = g.acquire_and_set_processing u r i x k w in (a, (verdict_if rate a vs, w'));
  try_acquire =
      λ u r i x (vs, w). let (a, w') = g.try_acquire u r i x w in (a, (verdict_if rate a vs, w'));
  set_processing = λ t (vs, w). (vs, g.set_processing t w);
  set_failed = λ t m (vs, w). (vs, g.set_failed t m w);
  submit = λ e (vs, w). let (r, w') = g.submit e w in (r, (handed e (succeeded r) ∷ vs, w'));
  publish = λ e (vs, w). let (r, w') = g.publish e w in (r, (handed e (succeeded r) ∷ vs, w'));
  set_queued = λ u a t x (vs, w). (vs, g.set_queued u a t x w);
  get_activity = λ n (vs, w). let (r, w') = g.get_activity n w in (r, (opened_if r vs, w'));
  is_risk_user = λ u (vs, w). let (r, w') = g.is_risk_user u w in (r, (verdict_if risk r vs, w'));
  mark_suspicious = λ a u ip (vs, w). (vs, g.mark_suspicious a u ip w);
  record_action = λ r (vs, w). (vs, g.record_action r w);
  peek = λ a s (vs, w). let (r, w') = g.peek a s w in (r, (verdict_if stock r vs, w'));
  now = λ (vs, w). g.now w;
}

-- Every check that was answered was passed, and nothing was handed over.
abbrev pub AllPassed : List Verdict → Type 0
AllPassed [] = Unit
AllPassed (machine b ∷ vs) = (b ≡ true) × AllPassed vs
AllPassed (rate b ∷ vs) = (b ≡ true) × AllPassed vs
AllPassed (opened b ∷ vs) = (b ≡ true) × AllPassed vs
AllPassed (risk b ∷ vs) = (b ≡ false) × AllPassed vs
AllPassed (stock n ∷ vs) = (pos 0 <ℤ n) × AllPassed vs
AllPassed (handed e done ∷ vs) = ⊥

-- No event was taken over.
abbrev pub NoneTaken : List Verdict → Type 0
NoneTaken [] = Unit
NoneTaken (handed e done ∷ vs) = (done ≡ false) × NoneTaken vs
NoneTaken (v ∷ vs) = NoneTaken vs

-- The event is the caller's.
abbrev pub IsOf : Request → PartInEvent → Type 0
IsOf q e =
    (e.user_id ≡ q.user_id)
    × (e.activity_no ≡ q.activity_no)
    × (e.sku_no ≡ q.sku_no)
    × (e.quantity ≡ q.quantity)
    × (e.trace_id ≡ q.trace_id)
    × (e.machine_pass ≡ true)

abbrev pub Taken : Request → List Verdict → Type 0
Taken q (handed e true ∷ vs) = IsOf q e × AllPassed vs
Taken q _ = ⊥

abbrev pub Justifies : Request → List Verdict → Result EntryError PartInResult → Type 0
Justifies q vs (err e) = NoneTaken vs
Justifies q vs (ok r) = elim r.queued [
  | true ↦ (r.token ≡ q.trace_id) × Taken q vs
  | false ↦ NoneTaken vs
]

-- What a check leaves: it was passed, or nothing was taken over.
abbrev pub Stage : Bool → List Verdict → Type 0
Stage true vs = AllPassed vs × NoneTaken vs
Stage false vs = NoneTaken vs

module _ {W : Type 0} (g : Services W) (env : Setting) (q : Request) (vs : List Verdict)
    (passed : AllPassed vs) (untaken : NoneTaken vs) (w : W) where
  pub machine-Stage :
      Stage
        (pass_machine (recorded g) env q (vs, w)).0
        (pass_machine (recorded g) env q (vs, w)).1.0
  unfolding pass_machine
  machine-Stage = ground arith

  pub rate-Stage :
      Stage
        (acquire_user_rate_limit (recorded g) env q.user_id (vs, w)).0
        (acquire_user_rate_limit (recorded g) env q.user_id (vs, w)).1.0
  unfolding acquire_user_rate_limit
  rate-Stage = ground arith

  pub separate-Stage :
      Stage
        (separate_calls (recorded g) env q (vs, w)).0
        (separate_calls (recorded g) env q (vs, w)).1.0
  unfolding separate_calls set_processing
  separate-Stage = ground (arith, rate-Stage)

  pub submit-Justifies :
      Justifies q
        (submit_event (recorded g) env q (vs, w)).1.0
        (ok (submit_event (recorded g) env q (vs, w)).0)
  unfolding submit_event set_queued_trace
  submit-Justifies = ground arith

  pub risk-Stage :
      Stage
        (not (check_risk (recorded g) env q (vs, w)).0)
        (check_risk (recorded g) env q (vs, w)).1.0
  unfolding check_risk
  risk-Stage = ground arith

  pub publish-Justifies :
      (a : ActivityDetail)
      → Justifies q
          (publish_event (recorded g) env q a (vs, w)).1.0
          (ok (publish_event (recorded g) env q a (vs, w)).0)
  unfolding publish_event set_queued_trace record_seckill_action
  publish-Justifies a = ground arith
