-- ===== src/Stock/App/Publishing.antt =====
-- When the stock service publishes, over any repository and bus, and over the in-memory store with
-- a bus that keeps what it accepts.
use seckill_go.Prelude.{
  if◌then◌else◌, is_some, ok, lookup, ◌≡◌, Bool, true, none, some, List, [], ◌∷◌, ◌++◌, arith,
  Result, err, false, Option,
}
use seckill_go.Stock.Entity.{new_stock_from_state, StockError}
use seckill_go.Stock.Memory
use seckill_go.Stock.Memory.{
  MemoryStore, deduct_stock_with_limit, reserved_key, peek_stock, release_stock,
}
use seckill_go.Stock.Memory.Retry.{reserved-deduct}
use seckill_go.Stock.App.{
  ReserveStockCommand, Invalid, validate_reserve, StockEvent, stock_reserved, AppError,
  command_validation, StockRepository, Bus, reserve_stock, failed, insufficient,
}

-- The in-memory store as the service's repository.
abbrev pub memory_repository : StockRepository MemoryStore
memory_repository = record {
  peek = peek_stock;
  deduct = deduct_stock_with_limit;
  release_order = λ a k u q order s. (none, Memory.release_stock a k u q order s);
}

-- A bus that accepts the events which pass a test, and keeps them in order.
abbrev pub keeping_bus : (StockEvent → Bool) → Bus StockEvent (List StockEvent)
keeping_bus accepts = record {
  publish = λ e kept. (accepts e, if accepts e then kept ++ e ∷ [] else kept);
}

abbrev pub reserved_event : ReserveStockCommand → StockEvent
reserved_event c = stock_reserved c.activity_no c.sku_no c.quantity c.user_id c.order_no

-- What a reservation that is refused or fails leaves alone.
abbrev pub Quiet :
    {R B : Type 0}
    → Option Invalid
    → Result StockError Bool
    → R
    → B
    → Option AppError × R × B
    → Type 0
Quiet (some e) deducted r b after = after ≡ (some (command_validation e), r, b)
Quiet none (ok true) r b after = Unit
Quiet none (ok false) r b after = (after.0 ≡ some insufficient) × (after.2 ≡ b)
Quiet none (err e) r b after = (after.0 ≡ some (failed "deduct stock failed" e)) × (after.2 ≡ b)

-- Over every repository and bus: an invalid command touches neither, and a deduction that is
-- refused or fails is an error and leaves the bus alone.
pub reserve_silent :
    {R B : Type 0} (repo : StockRepository R) (bus : Bus StockEvent B) (c : ReserveStockCommand)
    (r : R) (b : B)
    → Quiet
        (validate_reserve c)
        (repo.deduct c.activity_no c.sku_no c.user_id c.quantity c.purchase_limit c.order_no r).0
        r
        b
        (reserve_stock repo bus c r b)
unfolding reserve_stock
reserve_silent repo bus c r b = ground arith

-- What an answer says of the store and of the events kept before and after.
abbrev pub Published :
    ReserveStockCommand → List StockEvent → Option AppError × MemoryStore × List StockEvent → Type 0
Published c kept (none, s, kept') =
    (is_some (lookup (reserved_key c.activity_no c.sku_no c.order_no) s.reserved) ≡ true)
    × (kept' ≡ kept ++ reserved_event c ∷ [])
Published c kept (some e, s, kept') = kept' ≡ kept

-- Over the in-memory store: a nil error means that the order is reserved and exactly one event,
-- with the command's fields, was published; with any error nothing was published.
pub reserve_publishes_once :
    (accepts : StockEvent → Bool) (c : ReserveStockCommand) (s : MemoryStore)
    (kept : List StockEvent)
    → Published c kept (reserve_stock memory_repository (keeping_bus accepts) c s kept)
unfolding reserve_stock new_stock_from_state
reserve_publishes_once accepts c s kept = ground (
  arith,
  reserved-deduct c.activity_no c.sku_no c.user_id c.quantity c.purchase_limit c.order_no s,
)
