-- ===== src/Support/Ledger/Cards.antt =====
-- One card for one order, whatever happens to the cards.
use Prim.Native.String.append
use Prim.Native.String.compare
use text.Mathlib.Text.{is_eq}
use seckill_go.Prelude.{
  ℤ, lookup-insert, String, append, ◌≡◌, false, List, [], ◌∷◌, arith, str_eq, eq_iff, refl, ap, ◌∙◌,
  eq_refl,
}
use seckill_go.Support.Ledger.{
  IssueCardRequest, ActivateCardRequest, SyncOrderRequest, SupportLedger, issued_no, issue_card,
  activate_card, freeze_card, unfreeze_card, sync_order,
}

pub data CardCall : Type 0 where
  issue : (req : IssueCardRequest) (new_id : String) (now : ℤ) → CardCall
  activate : (req : ActivateCardRequest) (now : ℤ) → CardCall
  freeze : (number : String) → CardCall
  unfreeze : (number : String) (now : ℤ) → CardCall
  sync : (req : SyncOrderRequest) (now : ℤ) → CardCall

abbrev pub card_call : (ℤ → ℤ → ℤ) → CardCall → SupportLedger → SupportLedger
card_call add_days (issue req new_id now) l = (issue_card req new_id now l).1
card_call add_days (activate req now) l = (activate_card add_days req now l).1
card_call add_days (freeze number) l = (freeze_card number l).1
card_call add_days (unfreeze number now) l = (unfreeze_card add_days number now l).1
card_call add_days (sync req now) l = sync_order req now l

pub card_calls : (ℤ → ℤ → ℤ) → List CardCall → SupportLedger → SupportLedger
card_calls add_days [] l = l
card_calls add_days (c ∷ cs) l = card_calls add_days cs (card_call add_days c l)

prefixed_is_some : (new_id : String) → str_eq (append "FC" new_id) "" ≡ false
prefixed_is_some new_id =
    ap (λ s. str_eq s "") (append.cons "F" "C" new_id)
    ∙ ap is_eq (compare.cons-nil "F" (append "C" new_id))

issued_stays :
    (add_days : ℤ → ℤ → ℤ) (c : CardCall) (order_no : String) (l : SupportLedger)
    → str_eq (issued_no order_no l) "" ≡ false
    → issued_no order_no (card_call add_days c l) ≡ issued_no order_no l
unfolding issue_card activate_card freeze_card unfreeze_card sync_order
issued_stays add_days (issue req new_id now) order_no l h = ground (
  arith,
  lookup-insert req.order_no order_no (append "FC" new_id) l.card_no_by_order,
  eq_iff req.order_no order_no,
)
issued_stays add_days (activate req now) order_no l h = ground arith
issued_stays add_days (freeze number) order_no l h = ground arith
issued_stays add_days (unfreeze number now) order_no l h = ground arith
issued_stays add_days (sync req now) order_no l h = ground arith

issue_fills :
    (req : IssueCardRequest) (new_id : String) (now : ℤ) (l : SupportLedger)
    → (str_eq (issued_no req.order_no (issue_card req new_id now l).1) "" ≡ false)
      × (issued_no req.order_no (issue_card req new_id now l).1 ≡ (issue_card req new_id now l).0)
unfolding issue_card
issue_fills req new_id now l = ground (
  arith,
  lookup-insert req.order_no req.order_no (append "FC" new_id) l.card_no_by_order,
  eq_refl req.order_no,
  prefixed_is_some new_id,
)

calls_keep :
    (add_days : ℤ → ℤ → ℤ) (cs : List CardCall) (order_no : String) (l : SupportLedger)
    → str_eq (issued_no order_no l) "" ≡ false
    → issued_no order_no (card_calls add_days cs l) ≡ issued_no order_no l
unfolding card_calls
calls_keep add_days [] order_no l h = refl
calls_keep add_days (c ∷ cs) order_no l h =
    let same = issued_stays add_days c order_no l h in
    calls_keep add_days cs order_no (card_call add_days c l) (ap (λ s. str_eq s "") same ∙ h) ∙ same

reissue :
    (req : IssueCardRequest) (new_id : String) (now : ℤ) (l : SupportLedger)
    → str_eq (issued_no req.order_no l) "" ≡ false
    → issue_card req new_id now l ≡ (issued_no req.order_no l, l)
unfolding issue_card
reissue req new_id now l h = ground arith

-- After a card was issued for an order, whatever calls come next, and with whatever request and new
-- identifier, to issue one for that order again answers with the first card's number and changes
-- nothing.
pub one_card_per_order :
    (add_days : ℤ → ℤ → ℤ) (req again : IssueCardRequest) (id id' : String) (now now' : ℤ)
    (cs : List CardCall) (l : SupportLedger)
    → again.order_no ≡ req.order_no
    → issue_card again id' now' (card_calls add_days cs (issue_card req id now l).1)
      ≡ ((issue_card req id now l).0, card_calls add_days cs (issue_card req id now l).1)
one_card_per_order add_days req again id id' now now' cs l same =
    let (filled, at) = issue_fills req id now l in
    let kept = calls_keep add_days cs req.order_no (issue_card req id now l).1 filled in
    let after = card_calls add_days cs (issue_card req id now l).1 in
    let here = ap (λ n. issued_no n after) same ∙ kept in
    reissue again id' now' after (ap (λ s. str_eq s "") here ∙ filled)
    ∙ ap (λ n. (n, after)) (here ∙ at)
