-- ===== src/Processor/PaymentTimeout/Closing.antt =====
-- In which order a payment timeout acts, read from a journal of its calls.
use seckill_go.Prelude.{
  ℤ, Result, ok, trim_space, String, ◌≡◌, Bool, true, false, Option, none, some, List, [], ◌∷◌,
  arith,
}
use seckill_go.Errors.{RpcError}
use seckill_go.Processor.Model.{OrderInfo}
use seckill_go.Processor.PaymentTimeout.{PaymentTimeoutTask, TimeoutGateways, execute}

-- The calls that change something, with whether they succeeded.
pub data Action : Type 0 where
  marked : (order_no : String) (done : Bool) → Action
  closed_order : (order_no : String) (done : Bool) → Action
  released :
      (activity_no sku_no : String) (user_id quantity : ℤ) (order_no : String) (done : Bool)
      → Action
  voided : (order_no : String) → Action

abbrev pub succeeded : Option RpcError → Bool
succeeded none = true
succeeded (some e) = false

-- The gateways with a journal before their world, the latest call first.
abbrev pub recorded : {W : Type 0} → TimeoutGateways W → TimeoutGateways (List Action × W)
recorded g = record {
  get_order = λ n (js, w). g.get_order n w;
  mark_order_paid = λ n t at (js, w).
      let (r, w') = g.mark_order_paid n t at w in (r, (marked n (succeeded r) ∷ js, w'));
  close_order =
      λ n (js, w). let (r, w') = g.close_order n w in (r, (closed_order n (succeeded r) ∷ js, w'));
  release_stock = λ a s u q n (js, w).
      let (r, w') = g.release_stock a s u q n w in (r, (released a s u q n (succeeded r) ∷ js, w'));
  query_payment = λ n (js, w). g.query_payment n w;
  close_payment = λ n (js, w). let (r, w') = g.close_payment n w in (r, (voided n ∷ js, w'));
  now = g.now;
}

-- A release is for the order that was read, under its number.
abbrev pub Releases : Result RpcError OrderInfo → Action → Type 0
Releases (ok o) (released a s u q n done) =
    (o.activity_no ≡ a) × (o.sku_no ≡ s) × (o.user_id ≡ u) × (o.quantity ≡ q)
Releases _ _ = ⊥

-- The journals of a timeout for order `n`, with the answer of the run.
abbrev pub IsOrderly : String → Result RpcError OrderInfo → Option RpcError → List Action → Type 0
IsOrderly n o e [] = Unit
IsOrderly n o e (marked m done ∷ []) = (n ≡ m) × (succeeded e ≡ done)
IsOrderly n o e (closed_order m done ∷ []) = n ≡ m
IsOrderly n o e (released a s u q m false ∷ closed_order m' true ∷ []) =
    (n ≡ m) × (n ≡ m') × Releases o (released a s u q m false) × (succeeded e ≡ false)
IsOrderly n o e (voided m'' ∷ released a s u q m true ∷ closed_order m' true ∷ []) =
    (n ≡ m) × (n ≡ m') × (n ≡ m'') × Releases o (released a s u q m true)
IsOrderly n o e _ = ⊥

-- A payment timeout does one of these for the order the task names, its spaces trimmed: nothing;
-- marks the order as paid, and fails where that failed; asks to close it; or, after the order was
-- closed, releases the stock of the order it read, once, and, where the release succeeded, voids
-- the payment; where the release failed, the run fails. It never marks an order paid and closes it
-- or releases its stock in one run.
pub execute-IsOrderly :
    {W : Type 0} (g : TimeoutGateways W) (task : PaymentTimeoutTask) (w : W)
    → IsOrderly
        (trim_space task.order_no)
        (g.get_order (trim_space task.order_no) w)
        (execute (recorded g) task ([], w)).0
        (execute (recorded g) task ([], w)).1.0
unfolding execute
execute-IsOrderly g task w = ground arith
