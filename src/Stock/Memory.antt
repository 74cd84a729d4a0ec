-- ===== src/Stock/Memory.antt =====
-- services/stock-service/internal/infrastructure/persistence/memory.go: the three maps behind one
-- mutex. A method takes the store last and returns it beside its results; every method holds the
-- lock throughout, so concurrent calls are a sequence of calls.
mod Deducting
pub mod Retry
pub mod Undo
pub mod Ledger
pub mod Limit
pub mod Cleanup
use text.Mathlib.Text.{starts_with}
use seckill_go.Prelude.{
  ℕ, zero, suc, ◌+◌, Bool, true, false, ◌&&◌, String, append, str_eq, ℤ, pos, lt_ℤ, le_ℤ, add64,
  sub64, decimal, contains, Option, none, some, is_some, get_or, List, [], ◌∷◌, Assoc, lookup,
  insert, delete, Result, ok, err, if◌then◌else◌,
}
use seckill_go.Stock.Entity.{StockError, stock_not_ready}

pub record MemoryStore : Type 0 where
  pub stock : Assoc ℤ
  pub purchases : Assoc ℤ
  pub reserved : Assoc String

unfoldable pub new_memory_store : MemoryStore
new_memory_store = record { stock = []; purchases = []; reserved = [] }

unfoldable pub sku_key : String → String → String
sku_key activity_no sku_no = append activity_no (append ":" sku_no)

unfoldable pub user_purchase_key : ℤ → String → String → String
unfolding decimal
user_purchase_key user_id activity_no sku_no =
    append (decimal user_id) (append ":" (append activity_no (append ":" sku_no)))

unfoldable pub reserved_key : String → String → String → String
reserved_key activity_no sku_no order_no =
    append activity_no (append ":" (append sku_no (append ":" order_no)))

peeked : Option ℤ → Result StockError ℤ
peeked none = err stock_not_ready
peeked (some stock) = ok stock

unfoldable pub peek_stock : String → String → MemoryStore → Result StockError ℤ
unfolding peeked
peek_stock activity_no sku_no s = peeked (lookup (sku_key activity_no sku_no) s.stock)

-- From the check of the purchase limit on; `key`, `purchase_key` and `reserve_key` are the locals.
deduct_from :
    String → String → String → ℤ → ℤ → MemoryStore → Option ℤ → Result StockError Bool × MemoryStore
deduct_from key purchase_key reserve_key quantity purchase_limit s none = (err stock_not_ready, s)
deduct_from key purchase_key reserve_key quantity purchase_limit s (some current) =
    let purchased = add64 (get_or (lookup purchase_key s.purchases) (pos 0)) quantity in
    if lt_ℤ (pos 0) purchase_limit && lt_ℤ purchase_limit purchased
    then (ok false, s)
    else if lt_ℤ current quantity
    then (ok false, s)
    else (
      ok true,
      record {
        stock = insert key (sub64 current quantity) s.stock;
        purchases =
            if lt_ℤ (pos 0) purchase_limit
            then insert purchase_key purchased s.purchases
            else s.purchases;
        reserved = insert reserve_key "1" s.reserved;
      },
    )

unfoldable pub deduct_stock_with_limit :
    String → String → ℤ → ℤ → ℤ → String → MemoryStore → Result StockError Bool × MemoryStore
unfolding deduct_from
deduct_stock_with_limit activity_no sku_no user_id quantity purchase_limit order_no s =
    let reserve_key = reserved_key activity_no sku_no order_no in
    let key = sku_key activity_no sku_no in
    if is_some (lookup reserve_key s.reserved)
    then (ok true, s)
    else deduct_from key (user_purchase_key user_id activity_no sku_no) reserve_key quantity
        purchase_limit s (lookup key s.stock)

-- The source returns a nil error on every path.
unfoldable pub release_stock : String → String → ℤ → ℤ → String → MemoryStore → MemoryStore
release_stock activity_no sku_no user_id quantity order_no s =
    let reserve_key = reserved_key activity_no sku_no order_no in
    let key = sku_key activity_no sku_no in
    let purchase_key = user_purchase_key user_id activity_no sku_no in
    let purchased = get_or (lookup purchase_key s.purchases) (pos 0) in
    if is_some (lookup reserve_key s.reserved)
    then (record {
      stock = insert key (add64 (get_or (lookup key s.stock) (pos 0)) quantity) s.stock;
      purchases =
          if le_ℤ purchased quantity
          then delete purchase_key s.purchases
          else insert purchase_key (sub64 purchased quantity) s.purchases;
      reserved = delete reserve_key s.reserved;
    })
    else s

-- The loop over `skuNos`; the counter is `deleted`.
pub delete_skus : String → List String → ℕ → Assoc ℤ → ℕ × Assoc ℤ
delete_skus activity_no [] deleted stock = (deleted, stock)
delete_skus activity_no (sku_no ∷ rest) deleted stock =
    let key = sku_key activity_no sku_no in
    let found = is_some (lookup key stock) in
    delete_skus activity_no rest (if found then deleted + 1 else deleted)
      (if found then delete key stock else stock)

-- A range over a map that deletes the keys which pass a test, and counts them.
unfoldable pub delete_matching : (String → Bool) → Assoc ℤ → ℕ × Assoc ℤ
delete_matching test [] = (0, [])
delete_matching test ((key, v) ∷ m) =
    let (deleted, rest) = delete_matching test m in
    if test key then (deleted + 1, rest) else (deleted, (key, v) ∷ rest)

pub cleanup_stock : String → List String → Assoc ℤ → ℕ × Assoc ℤ
unfolding delete_skus delete_matching
cleanup_stock activity_no [] stock =
    delete_matching (λ key. starts_with key (append activity_no ":")) stock
cleanup_stock activity_no (sku_no ∷ rest) stock = delete_skus activity_no (sku_no ∷ rest) 0 stock

unfoldable pub cleanup_activity_stock : String → List String → MemoryStore → ℕ × MemoryStore
unfolding cleanup_stock
cleanup_activity_stock activity_no sku_nos s =
    let (deleted, stock) = cleanup_stock activity_no sku_nos s.stock in
    (deleted, record s { stock = stock })

unfoldable pub cleanup_activity_purchases : String → MemoryStore → ℕ × MemoryStore
unfolding delete_matching
cleanup_activity_purchases activity_no s =
    let segment = append ":" (append activity_no ":") in
    let (deleted, purchases) = delete_matching (λ key. contains key segment) s.purchases in
    (deleted, record s { purchases = purchases })
