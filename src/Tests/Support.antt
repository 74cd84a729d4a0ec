-- ===== src/Tests/Support.antt =====
-- A payment callback, the cards and the synced orders of the support service.
use seckill_go.Prelude.{
  ℤ, pos, ◌+ℤ◌, ok, Assoc, insert, lookup, lookup-insert, trim_space, ◌≤◌, String, ◌≡◌, refl, true,
  false, none, some, [], ◌∷◌, arith, eq_refl,
}
use seckill_go.Support.Ledger.{
  IssueCardRequest, ActivateCardRequest, new_support_ledger, issue_card, get_synced_order,
}
use seckill_go.Support.Ledger.Cards.{issue, activate, freeze, card_calls, one_card_per_order}
use seckill_go.Support.Callback.{
  Collaborators, AppConfig, PayableOrder, PayResult, pending_pay, notify, prepay,
}
use seckill_go.Support.Callback.Dispatch.{
  noted, payments, syncs, cards, held, notify_dispatches_once,
}
use seckill_go.Support.Callback.Paying.{CacheWorks, Payable, prepay_twice}

abbrev payable : String → PayableOrder
payable order_no = record {
  order_no = order_no;
  user_id = pos 7;
  pay_amount = pos 990;
  status = pending_pay;
  transaction_no = "";
  paid_at = none;
}

abbrev pay_result : String → PayResult
pay_result order_no = record {
  order_no = order_no;
  pay_channel = "mock";
  prepay_id = "p1";
  nonce_str = "";
  time_stamp = "";
  sign = "";
}

-- The world is the cache; the queue refuses every task.
abbrev collaborators : Collaborators (Assoc PayResult)
collaborators = record {
  get_order = λ n w. ok (payable n);
  mark_order_paid = λ n t at w. (none, w);
  create_payment = λ q w. (ok (pay_result q.order_no), w);
  get_prepay = λ n w. lookup n w;
  set_prepay = λ n r w. insert n r w;
  publish_post_pay_task =
      λ t w. (some (record { message = "queue down"; is_circuit_open = false }), w);
  try_lock = λ k w. (true, w);
  unlock = λ k w. w;
  sync_order = λ q w. w;
  issue_card = λ q w. w;
}

abbrev config : AppConfig
config = record {
  has_prepay_cache = true;
  has_callback_lock = true;
  has_post_pay_tasks = true;
  has_sync = true;
  has_cards = true;
  skip_order_sync = false;
  skip_card_issue = false;
  now = pos 100;
}

abbrev params : Assoc String
params = ("orderNo", " o1") ∷ ("transactionNo", "x1") ∷ []

notify_dispatches_once_example :
    let js = (notify (noted collaborators) config params ([], [])).1.0 in
    (payments js ≤ 1) × (syncs js ≡ payments js) × (cards js ≡ payments js) × (held js ≡ 0)
notify_dispatches_once_example =
    notify_dispatches_once collaborators config params [] refl refl refl refl

collaborators-CacheWorks : CacheWorks collaborators
collaborators-CacheWorks = record {
  create_keeps = λ n q w. refl;
  set_keeps = λ n m r w. refl;
  get-set = λ n r w. ground (arith, lookup-insert n n r w, eq_refl n);
}

first_prepay :
    prepay collaborators config (pos 7) " o1 " "" []
    ≡ (ok (pay_result "o1"), ("o1", pay_result "o1") ∷ [])
unfolding prepay trim_space lookup insert ◌+ℤ◌
first_prepay = refl

prepay_twice_example :
    Payable (pos 7) (collaborators.get_order (trim_space " o1 ") [])
    × (prepay collaborators config (pos 7) " o1 " "wechat" (("o1", pay_result "o1") ∷ [])
        ≡ (ok (pay_result "o1"), ("o1", pay_result "o1") ∷ []))
prepay_twice_example =
    prepay_twice collaborators config collaborators-CacheWorks (pos 7) " o1 " "" "wechat" []
      (("o1", pay_result "o1") ∷ []) (pay_result "o1") refl first_prepay

abbrev add_days : ℤ → ℤ → ℤ
add_days at days = at +ℤ days

abbrev card_request_of : String → IssueCardRequest
card_request_of order_no = record {
  user_id = pos 7;
  order_no = order_no;
  card_name = "card";
  face_value = pos 990;
  valid_days = pos 0;
}

abbrev activation : ActivateCardRequest
activation = record { card_no = "FC1"; user_id = pos 7; order_no = "o1" }

one_card_per_order_example :
    let first = issue_card (card_request_of "o1") "1" (pos 10) new_support_ledger in
    let after =
      card_calls add_days
        (activate activation (pos 20)
          ∷ issue (card_request_of "o2") "2" (pos 30)
          ∷ freeze "FC1"
          ∷ [])
        first.1 in
    issue_card (card_request_of "o1") "3" (pos 40) after ≡ (first.0, after)
one_card_per_order_example =
    one_card_per_order add_days (card_request_of "o1") (card_request_of "o1") "1" "3" (pos 10)
      (pos 40)
      (activate activation (pos 20) ∷ issue (card_request_of "o2") "2" (pos 30) ∷ freeze "FC1" ∷ [])
      new_support_ledger refl

nothing_synced : get_synced_order "o1" new_support_ledger ≡ none
unfolding get_synced_order new_support_ledger lookup
nothing_synced = refl
