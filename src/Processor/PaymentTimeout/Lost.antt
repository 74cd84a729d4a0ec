-- ===== src/Processor/PaymentTimeout/Lost.antt =====
-- A timeout whose release of the stock failed is not completed by a later attempt.
use mathlib.Core.Path.{subst}
use seckill_go.Prelude.{
  ℤ, String, ◌≡◌, false, none, List, [], ◌∷◌, arith, Result, ok, err, trim_space, sym, ap, ◌∙◌,
}
use seckill_go.Errors.{RpcError}
use seckill_go.Processor.Model.{closed, OrderInfo}
use seckill_go.Processor.PaymentTimeout.{PaymentTimeoutTask, TimeoutGateways, execute}
use seckill_go.Processor.PaymentTimeout.Closing.{Action, released, succeeded, recorded}

abbrev IsClosed : Result RpcError OrderInfo → Type 0
IsClosed (ok o) = o.status ≡ closed
IsClosed (err e) = ⊥

-- Where a run released in vain, and what it had read then.
failed_release :
    {W : Type 0} (g : TimeoutGateways W) (task : PaymentTimeoutTask) (w w' : W) (a s n : String)
    (u q : ℤ) (js : List Action)
    → (execute (recorded g) task ([], w)).1 ≡ (released a s u q n false ∷ js, w')
    → (w'
        ≡ (g.release_stock a s u q
            (trim_space task.order_no)
            (g.close_order (trim_space task.order_no) w).1).1)
      × (IsClosed
            (g.get_order (trim_space task.order_no) (g.close_order (trim_space task.order_no) w).1)
          × (succeeded (execute (recorded g) task ([], w)).0 ≡ false))
unfolding execute
failed_release g task w w' a s n u q js run = ground arith

-- An order that reads as closed is left alone.
closed_is_left :
    {W : Type 0} (g : TimeoutGateways W) (task : PaymentTimeoutTask) (w : W)
    → IsClosed (g.get_order (trim_space task.order_no) w)
    → execute (recorded g) task ([], w) ≡ (none, ([], w))
unfolding execute
closed_is_left g task w reads = ground arith

-- Where a release leaves the orders as they are: once a run closed the order and its release of the
-- stock failed, the run asks to be tried again or stops, but each attempt after it in that state
-- returns no error and asks for no release, so the stock is not given back.
pub failed_release_is_lost :
    {W : Type 0} (g : TimeoutGateways W) (task : PaymentTimeoutTask) (w w' : W) (a s n : String)
    (u q : ℤ) (js : List Action)
    → ((m a s n : String) (u q : ℤ) (v : W)
        → g.get_order m (g.release_stock a s u q n v).1 ≡ g.get_order m v)
    → (execute (recorded g) task ([], w)).1 ≡ (released a s u q n false ∷ js, w')
    → (succeeded (execute (recorded g) task ([], w)).0 ≡ false)
      × (execute (recorded g) task ([], w') ≡ (none, ([], w')))
failed_release_is_lost g task w w' a s n u q js keeps run =
    let (at, (reads, fails)) = failed_release g task w w' a s n u q js run in
    (
      fails,
      closed_is_left g task w' (
          subst IsClosed
            (sym (ap (g.get_order (trim_space task.order_no)) at ∙ keeps _ _ _ _ _ _ _)) reads),
    )
