-- ===== src/Stock/Writer/Redelivery.antt =====
-- Delivery of the stock events more than once.
use seckill_go.Prelude.{
  is_some, ℤ, lookup, lookup-insert, append, ◌≡◌, refl, Bool, true, none, List, [], ◌∷◌, arith,
  eq_refl,
}
use seckill_go.Stock.App.{StockEvent, stock_reserved, stock_released}
use seckill_go.Stock.Writer.{
  Row, MemoryDb, row_key, insert_stock_deduction, insert_stock_release, memory_db, dispatch,
  deliver,
}

-- The key under which the row of an event stands, and whether a table has it.
abbrev has_row : StockEvent → MemoryDb → Bool
has_row (stock_reserved a k q u order) db =
    is_some (lookup (append order (append ":" k)) db.deductions)
has_row (stock_released a k q u order) db =
    is_some (lookup (append order (append ":" k)) db.releases)

dispatch-has_row :
    (e : StockEvent) (at : ℤ) (db : MemoryDb) → has_row e (dispatch memory_db e at db).1 ≡ true
unfolding dispatch insert_stock_deduction insert_stock_release row_key
dispatch-has_row (stock_reserved a k q u order) at db =
    let key = append order (append ":" k) in
    let row : Row = record {
      activity_no = a;
      sku_no = k;
      order_no = order;
      user_id = u;
      quantity = q;
      created_at = at;
    } in
    ground (arith, lookup-insert key key row db.deductions, eq_refl key)
dispatch-has_row (stock_released a k q u order) at db =
    let key = append order (append ":" k) in
    let row : Row = record {
      activity_no = a;
      sku_no = k;
      order_no = order;
      user_id = u;
      quantity = q;
      created_at = at;
    } in
    ground (arith, lookup-insert key key row db.releases, eq_refl key)

dispatch_keeps_row :
    (e e' : StockEvent) (at : ℤ) (db : MemoryDb)
    → has_row e db ≡ true
    → has_row e (dispatch memory_db e' at db).1 ≡ true
unfolding dispatch insert_stock_deduction insert_stock_release row_key
dispatch_keeps_row (stock_reserved a k q u order) (stock_reserved a' k' q' u' order') at db h =
    let key = append order' (append ":" k') in
    let row : Row = record {
      activity_no = a';
      sku_no = k';
      order_no = order';
      user_id = u';
      quantity = q';
      created_at = at;
    } in
    ground (arith, lookup-insert key (append order (append ":" k)) row db.deductions)
dispatch_keeps_row (stock_released a k q u order) (stock_released a' k' q' u' order') at db h =
    let key = append order' (append ":" k') in
    let row : Row = record {
      activity_no = a';
      sku_no = k';
      order_no = order';
      user_id = u';
      quantity = q';
      created_at = at;
    } in
    ground (arith, lookup-insert key (append order (append ":" k)) row db.releases)
dispatch_keeps_row (stock_reserved a k q u order) (stock_released a' k' q' u' order') at db h =
    ground arith
dispatch_keeps_row (stock_released a k q u order) (stock_reserved a' k' q' u' order') at db h =
    ground arith

dispatch_repeated :
    (e : StockEvent) (at : ℤ) (db : MemoryDb)
    → has_row e db ≡ true
    → dispatch memory_db e at db ≡ (none, db)
unfolding dispatch insert_stock_deduction insert_stock_release row_key
dispatch_repeated (stock_reserved a k q u order) at db h = ground arith
dispatch_repeated (stock_released a k q u order) at db h = ground arith

abbrev AllHaveRows : List (StockEvent × ℤ) → MemoryDb → Type 0
AllHaveRows [] db = Unit
AllHaveRows ((e, at) ∷ es) db = (has_row e db ≡ true) × AllHaveRows es db

deliver_keeps_row :
    (e : StockEvent) (es : List (StockEvent × ℤ)) (db : MemoryDb)
    → has_row e db ≡ true
    → has_row e (deliver memory_db es db) ≡ true
unfolding deliver
deliver_keeps_row e [] db h = h
deliver_keeps_row e ((e', at) ∷ es) db h =
    deliver_keeps_row e es (dispatch memory_db e' at db).1 (dispatch_keeps_row e e' at db h)

deliver-AllHaveRows :
    (es : List (StockEvent × ℤ)) (db : MemoryDb) → AllHaveRows es (deliver memory_db es db)
unfolding deliver
deliver-AllHaveRows [] db = tt
deliver-AllHaveRows ((e, at) ∷ es) db =
    let db' = (dispatch memory_db e at db).1 in
    (deliver_keeps_row e es db' (dispatch-has_row e at db), deliver-AllHaveRows es db')

deliver_known :
    (es : List (StockEvent × ℤ)) (db : MemoryDb) → AllHaveRows es db → deliver memory_db es db ≡ db
unfolding deliver
deliver_known [] db h = refl
deliver_known ((e, at) ∷ es) db h = rw (dispatch_repeated e at db h.0) (deliver_known es db h.1)

-- A batch of events that is delivered a second time leaves the tables as they were after the first.
pub deliver-deliver :
    (es : List (StockEvent × ℤ)) (db : MemoryDb)
    → deliver memory_db es (deliver memory_db es db) ≡ deliver memory_db es db
deliver-deliver es db = deliver_known es (deliver memory_db es db) (deliver-AllHaveRows es db)
