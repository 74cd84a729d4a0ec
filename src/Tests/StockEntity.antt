-- ===== src/Tests/StockEntity.antt =====
-- The stock entity, the stock service and the audit writer on small data.

use seckill_go.Prelude.{pos, wrap64, sub64, ◌≡◌, refl, Bool, true, none, [], ◌∷◌, ◌-ℤ◌}
use seckill_go.Stock.Memory.{MemoryStore}
use seckill_go.Stock.Entity.{Stock, reserve}
use seckill_go.Stock.App.{ReserveStockCommand, StockEvent, reserve_stock}
use seckill_go.Stock.App.Publishing.{
  memory_repository, keeping_bus, Published, reserve_publishes_once,
}

abbrev five : Stock
five = record { activity_no = "A"; sku_no = "S"; total = pos 5; available = pos 5 }

abbrev three : Stock
three = record { activity_no = "A"; sku_no = "S"; total = pos 5; available = pos 3 }

reserved_two : reserve five (pos 2) ≡ (three, none)
unfolding reserve sub64 wrap64 ◌-ℤ◌
reserved_two = refl

abbrev command : ReserveStockCommand
command = record {
  activity_no = "A";
  sku_no = "S";
  user_id = pos 7;
  quantity = pos 2;
  purchase_limit = pos 3;
  order_no = "o1";
}

abbrev two_activities : MemoryStore
two_activities = record {
  stock = ("A:S", pos 3) ∷ ("A:T", pos 4) ∷ ("B:S", pos 1) ∷ [];
  purchases = ("7:A:S", pos 2) ∷ ("7:B:S", pos 1) ∷ [];
  reserved = ("A:S:o1", "1") ∷ [];
}

abbrev accept_all : StockEvent → Bool
accept_all e = true

reserve_publishes_once_example :
    Published command []
      (reserve_stock memory_repository (keeping_bus accept_all) command two_activities [])
reserve_publishes_once_example = reserve_publishes_once accept_all command two_activities []
