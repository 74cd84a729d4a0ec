-- ===== src/Support/Callback/Dispatch.antt =====
-- What a payment callback sets going, read from a journal of its calls.
use seckill_go.Prelude.{
  if◌then◌else◌, is_some, Assoc, ℕ, suc, ◌-◌, ◌≤◌, String, ◌≡◌, Bool, true, false, not, List, [],
  ◌∷◌, arith,
}
use seckill_go.Support.Ledger.{IssueCardRequest, SyncOrderRequest}
use seckill_go.Support.Callback.{
  PostPayTask, sync_task, card_task, Collaborators, AppConfig, notify,
}

pub data Call : Type 0 where
  paid_call : (order_no transaction_no : String) (done : Bool) → Call
  queued : PostPayTask → (done : Bool) → Call
  synced : SyncOrderRequest → Call
  carded : IssueCardRequest → Call
  locked : (key : String) → Call
  unlocked : (key : String) → Call
  other_call : Call

abbrev lock_calls : String → Bool → List Call → List Call
lock_calls key true js = locked key ∷ js
lock_calls key false js = js

-- The collaborators with a journal before their world, the latest call first.
abbrev pub noted : {W : Type 0} → Collaborators W → Collaborators (List Call × W)
noted c = record {
  get_order = λ n (js, w). c.get_order n w;
  mark_order_paid = λ n t at (js, w).
      let (r, w') = c.mark_order_paid n t at w in (r, (paid_call n t (not (is_some r)) ∷ js, w'));
  create_payment = λ q (js, w). let (r, w') = c.create_payment q w in (r, (other_call ∷ js, w'));
  get_prepay = λ n (js, w). c.get_prepay n w;
  set_prepay = λ n r (js, w). (js, c.set_prepay n r w);
  publish_post_pay_task = λ t (js, w).
      let (r, w') = c.publish_post_pay_task t w in (r, (queued t (not (is_some r)) ∷ js, w'));
  try_lock = λ k (js, w). let (r, w') = c.try_lock k w in (r, (lock_calls k r js, w'));
  unlock = λ k (js, w). (unlocked k ∷ js, c.unlock k w);
  sync_order = λ q (js, w). (synced q ∷ js, c.sync_order q w);
  issue_card = λ q (js, w). (carded q ∷ js, c.issue_card q w);
}

abbrev one_if : Bool → ℕ → ℕ
one_if b n = if b then suc n else n

-- How often a journal has a payment that was marked, a sync or a card handed on (queued, or called
-- for at once), a lock taken, and a lock given back.
pub payments : List Call → ℕ
payments [] = 0
payments (paid_call n t done ∷ js) = one_if done (payments js)
payments (_ ∷ js) = payments js

pub syncs : List Call → ℕ
syncs [] = 0
syncs (queued (sync_task q) done ∷ js) = one_if done (syncs js)
syncs (synced q ∷ js) = suc (syncs js)
syncs (_ ∷ js) = syncs js

pub cards : List Call → ℕ
cards [] = 0
cards (queued (card_task q) done ∷ js) = one_if done (cards js)
cards (carded q ∷ js) = suc (cards js)
cards (_ ∷ js) = cards js

pub held : List Call → ℕ
held [] = 0
held (locked k ∷ js) = suc (held js)
held (unlocked k ∷ js) = held js - 1
held (_ ∷ js) = held js

-- Where the sync and card gateways are set and not degraded: with or without the lock and the task
-- queue, whatever fails, a callback marks at most one payment, hands on exactly one sync and one
-- card for a marked payment and none otherwise, and does not keep the lock.
pub notify_dispatches_once :
    {W : Type 0} (c : Collaborators W) (app : AppConfig) (params : Assoc String) (w : W)
    → app.skip_order_sync ≡ false
    → app.skip_card_issue ≡ false
    → app.has_sync ≡ true
    → app.has_cards ≡ true
    → let js = (notify (noted c) app params ([], w)).1.0 in
      (payments js ≤ 1) × (syncs js ≡ payments js) × (cards js ≡ payments js) × (held js ≡ 0)
unfolding notify payments syncs cards held
notify_dispatches_once c app params w s k hs hc = ground arith
