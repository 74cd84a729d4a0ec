-- ===== src/Stock/Writer.antt =====
-- services/stock-service/internal/infrastructure/persistence/async_writer.go and memory_db.go: the
-- subscriber that writes an audit row for each stock event, and the in-memory tables.
pub mod Redelivery
use seckill_go.Prelude.{
  if◌then◌else◌, is_some, ℤ, Assoc, lookup, insert, String, append, Option, none, some, List, [],
  ◌∷◌,
}
use seckill_go.Stock.Entity.{StockError, duplicate}
use seckill_go.Stock.App.{StockEvent, stock_reserved, stock_released}

-- StockDeduction and StockRelease, which have the same fields; the time is the event's.
pub record Row : Type 0 where
  pub activity_no : String
  pub sku_no : String
  pub order_no : String
  pub user_id : ℤ
  pub quantity : ℤ
  pub created_at : ℤ

pub record MemoryDb : Type 0 where
  pub deductions : Assoc Row
  pub releases : Assoc Row

abbrev pub new_memory_db : MemoryDb
new_memory_db = record { deductions = []; releases = [] }

-- The key `orderNo:skuNo`.
unfoldable pub row_key : Row → String
row_key r = append r.order_no (append ":" r.sku_no)

unfoldable pub insert_stock_deduction : Row → MemoryDb → Option StockError × MemoryDb
insert_stock_deduction d db =
    if is_some (lookup (row_key d) db.deductions)
    then (some duplicate, db)
    else (none, record db { deductions = insert (row_key d) d db.deductions })

unfoldable pub insert_stock_release : Row → MemoryDb → Option StockError × MemoryDb
insert_stock_release r db =
    if is_some (lookup (row_key r) db.releases)
    then (some duplicate, db)
    else (none, record db { releases = insert (row_key r) r db.releases })

-- The DB interface of the writer, over a state.
pub record Db (D : Type 0) : Type 0 where
  pub insert_deduction : Row → D → Option StockError × D
  pub insert_release : Row → D → Option StockError × D

-- `errors.Is(err, ErrDuplicate)` turns into a nil error; any other error is passed on.
settled : Option StockError → Option StockError
settled none = none
settled (some duplicate) = none
settled (some e) = some e

module _ {D : Type 0} (db : Db D) where
  -- An event with the time at which it occurred; each handler ignores the other's events.
  unfoldable pub handle_reserved : StockEvent → ℤ → D → Option StockError × D
  unfolding settled
  handle_reserved (stock_reserved a k q u order) at d =
      let (error, d') =
        db.insert_deduction
          (record {
            activity_no = a;
            sku_no = k;
            order_no = order;
            user_id = u;
            quantity = q;
            created_at = at;
          })
          d in
      (settled error, d')
  handle_reserved (stock_released a k q u order) at d = (none, d)

  unfoldable pub handle_released : StockEvent → ℤ → D → Option StockError × D
  unfolding settled
  handle_released (stock_released a k q u order) at d =
      let (error, d') =
        db.insert_release
          (record {
            activity_no = a;
            sku_no = k;
            order_no = order;
            user_id = u;
            quantity = q;
            created_at = at;
          })
          d in
      (settled error, d')
  handle_released (stock_reserved a k q u order) at d = (none, d)

  -- The subscriptions of `Start`: each event goes to the handler of its topic.
  unfoldable pub dispatch : StockEvent → ℤ → D → Option StockError × D
  unfolding handle_reserved handle_released
  dispatch (stock_reserved a k q u order) at d = handle_reserved (stock_reserved a k q u order) at d
  dispatch (stock_released a k q u order) at d = handle_released (stock_released a k q u order) at d

  unfoldable pub deliver : List (StockEvent × ℤ) → D → D
  unfolding dispatch
  deliver [] d = d
  deliver ((e, at) ∷ es) d = deliver es (dispatch e at d).1

-- The tables in memory as the writer's database.
abbrev pub memory_db : Db MemoryDb
memory_db = record {
  insert_deduction = insert_stock_deduction;
  insert_release = insert_stock_release;
}
