-- ===== src/Stock/Memory/Retry.antt =====
-- Repeated calls of the in-memory store.
use seckill_go.Prelude.{
  is_some, ℤ, ok, lookup, lookup-insert, lookup-delete, String, ◌≡◌, true, arith, eq_refl,
}
use seckill_go.Stock.Memory.Deducting.{deduct_reserved}
use seckill_go.Stock.Memory.{MemoryStore, reserved_key, deduct_stock_with_limit, release_stock}

module _ (a k : String) (u q limit : ℤ) (order : String) (s : MemoryStore) where
  pub reserved-deduct :
      (deduct_stock_with_limit a k u q limit order s).0 ≡ ok true
      → is_some (
          lookup
            (reserved_key a k order)
            (deduct_stock_with_limit a k u q limit order s).1.reserved)
        ≡ true
  unfolding deduct_stock_with_limit
  reserved-deduct h = ground (
    arith,
    lookup-insert (reserved_key a k order) (reserved_key a k order) "1" s.reserved,
    eq_refl (reserved_key a k order),
  )

-- A deduction that succeeded may be sent again for the same order, by any user, with any quantity
-- and limit: it succeeds again and leaves the store as it is.
pub deduct-deduct :
    (a k : String) (u q limit u' q' limit' : ℤ) (order : String) (s : MemoryStore)
    → (deduct_stock_with_limit a k u q limit order s).0 ≡ ok true
    → deduct_stock_with_limit a k u' q' limit' order
        (deduct_stock_with_limit a k u q limit order s).1
      ≡ (ok true, (deduct_stock_with_limit a k u q limit order s).1)
deduct-deduct a k u q limit u' q' limit' order s h =
    deduct_reserved a k u' q' limit' order (deduct_stock_with_limit a k u q limit order s).1
      (reserved-deduct a k u q limit order s h)

-- A second release of an order changes nothing, whatever its user and quantity.
pub release-release :
    (a k : String) (u q u' q' : ℤ) (order : String) (s : MemoryStore)
    → release_stock a k u' q' order (release_stock a k u q order s) ≡ release_stock a k u q order s
unfolding release_stock
release-release a k u q u' q' order s = ground (
  arith,
  lookup-delete (reserved_key a k order) (reserved_key a k order) s.reserved,
  eq_refl (reserved_key a k order),
)
