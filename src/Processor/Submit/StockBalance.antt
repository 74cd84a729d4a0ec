-- ===== src/Processor/Submit/StockBalance.antt =====
-- What a submission does to the stock, read from a journal of the calls that it makes.
use seckill_go.Prelude.{
  if◌then◌else◌, ℤ, Result, ok, err, String, ◌≡◌, Bool, true, false, Option, none, some, List, [],
  ◌∷◌, arith,
}
use seckill_go.Processor.Model.{Failure, is_duplicate_trace_id, SubmitCommand, OrderRequest}
use seckill_go.Processor.Submit.{Gateways, Setting, submit}

-- A deduction that succeeded, an order that was created, an order refused as a duplicate, an order
-- refused otherwise, and a release that was asked for.
pub data Entry : Type 0 where
  took : (activity_no sku_no : String) (user_id quantity : ℤ) (order_no : String) → Entry
  created : OrderRequest → Entry
  clashed : OrderRequest → Entry
  refused : OrderRequest → Entry
  asked_back : (activity_no sku_no : String) (user_id quantity : ℤ) (order_no : String) → Entry

-- The entry of a reply to `CreateOrder`.
abbrev pub creation_entry : OrderRequest → Option Failure → Entry
creation_entry o none = created o
creation_entry o (some f) = if is_duplicate_trace_id f then clashed o else refused o

abbrev pub deduction_entries : Entry → Result Failure Bool → List Entry → List Entry
deduction_entries e (ok true) es = e ∷ es
deduction_entries e (ok false) es = es
deduction_entries e (err f) es = es

-- The collaborators with a journal before their world, the latest entry first.
abbrev pub journaled : {W : Type 0} → Gateways W → Gateways (List Entry × W)
journaled g = record {
  get_activity = λ a (es, w). g.get_activity a w;
  evaluate = λ u ip (es, w). g.evaluate u ip w;
  get_sku = λ a s (es, w). g.get_sku a s w;
  next_order_no = λ (es, w). let (n, w') = g.next_order_no w in (n, (es, w'));
  deduct = λ a s u q l n (es, w).
      let (r, w') = g.deduct a s u q l n w in (r, (deduction_entries (took a s u q n) r es, w'));
  release = λ a s u q n (es, w).
      let (r, w') = g.release a s u q n w in (r, (asked_back a s u q n ∷ es, w'));
  create_order =
      λ o (es, w). let (r, w') = g.create_order o w in (r, (creation_entry o r ∷ es, w'));
  get_by_user_and_trace = λ u t (es, w). g.get_by_user_and_trace u t w;
  is_temporary = g.is_temporary;
}

-- An order takes the stock that was deducted, for its own number.
abbrev pub Uses : OrderRequest → Entry → Type 0
Uses o (took a s u q n) =
    (o.activity_no ≡ a) × (o.sku_no ≡ s) × (o.user_id ≡ u) × (o.quantity ≡ q) × (o.order_no ≡ n)
Uses o _ = ⊥

-- The journals of a submission: nothing was taken; an order was created for what was taken; an
-- order was refused and the release of what was taken was asked for; a duplicate keeps what was
-- taken.
abbrev pub IsSettled : List Entry → Type 0
IsSettled [] = Unit
IsSettled (created o ∷ took a s u q n ∷ []) = Uses o (took a s u q n)
IsSettled (clashed o ∷ took a s u q n ∷ []) = Uses o (took a s u q n)
IsSettled (asked_back a' s' u' q' n' ∷ refused o ∷ took a s u q n ∷ []) =
    Uses o (took a s u q n) × (asked_back a' s' u' q' n' ≡ asked_back a s u q n)
IsSettled _ = ⊥

-- Whatever the collaborators answer, the stock a submission takes is used by the one order it
-- creates, or its release is asked for once, in the same quantity and under the same order number,
-- when the order is refused, whether or not that release succeeds, or it stays taken with no order
-- of that number when the order is a duplicate; and a submission that takes nothing creates nothing
-- and asks for no release.
pub submit_settles_stock :
    {W : Type 0} (g : Gateways W) (env : Setting) (cmd : SubmitCommand) (w : W)
    → IsSettled (submit (journaled g) env cmd ([], w)).world.0
unfolding submit
submit_settles_stock g env cmd w = ground arith
