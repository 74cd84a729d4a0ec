-- ===== src/Stock/Memory/Undo.antt =====
-- A release undoes its deduction.
use seckill_go.Prelude.{
  ℤ, pos, ◌+ℤ◌, ◌≤ℤ◌, ◌<ℤ◌, lt_ℤ, +ℤ_parts, InInt64, add64, sub64, add64_exact, add64-sub64,
  sub64-add64, ok, lookup, insert, lookup-insert, lookup-delete, String, ◌≡◌, true, none, some,
  arith, eq_iff, eq_refl,
}
use seckill_go.Stock.Memory.{
  MemoryStore, sku_key, user_purchase_key, reserved_key, deduct_stock_with_limit, release_stock,
}
use seckill_go.Stock.Memory.Deducting.{purchased_in, deducted, deduct-Deducted}

-- The same stock and reservations at every key, and the same number bought.
pub record SameView (s t : MemoryStore) : Type 0 where
  pub stock : (j : String) → lookup j s.stock ≡ lookup j t.stock
  pub purchases : (j : String) → purchased_in s.purchases j ≡ purchased_in t.purchases j
  pub reserved : (j : String) → lookup j s.reserved ≡ lookup j t.reserved

module _ (a k : String) (u q limit : ℤ) (order : String) (s : MemoryStore) (c : ℤ) where
  abbrev undone : MemoryStore
  undone = release_stock a k u q order (deducted a k u q limit order s c)

  module _ (fresh : lookup (reserved_key a k order) s.reserved ≡ none)
      (in_stock : lookup (sku_key a k) s.stock ≡ some c) where
    reserved_back : (j : String) → lookup j undone.reserved ≡ lookup j s.reserved
    unfolding release_stock
    reserved_back j = ground (
      arith,
      fresh,
      lookup-insert (reserved_key a k order) j "1" s.reserved,
      lookup-insert (reserved_key a k order) (reserved_key a k order) "1" s.reserved,
      lookup-delete (reserved_key a k order) j (insert (reserved_key a k order) "1" s.reserved),
      eq_refl (reserved_key a k order),
      eq_iff (reserved_key a k order) j,
    )

    stock_back : InInt64 c → InInt64 q → (j : String) → lookup j undone.stock ≡ lookup j s.stock
    unfolding release_stock
    stock_back hc hq j = ground (
      arith,
      lookup-insert (reserved_key a k order) (reserved_key a k order) "1" s.reserved,
      eq_refl (reserved_key a k order),
      eq_refl (sku_key a k),
      lookup-insert (sku_key a k) (sku_key a k) (sub64 c q) s.stock,
      lookup-insert (sku_key a k) j (sub64 c q) s.stock,
      lookup-insert (sku_key a k) j (add64 (sub64 c q) q)
          (insert (sku_key a k) (sub64 c q) s.stock),
      add64-sub64 c q hc hq,
      eq_iff (sku_key a k) j,
    )

    purchases_back :
        let bought = purchased_in s.purchases (user_purchase_key u a k) in
        lt_ℤ (pos 0) limit ≡ true
        → pos 0 ≤ℤ bought
        → InInt64 bought
        → InInt64 q
        → InInt64 (bought +ℤ q)
        → (j : String) → purchased_in undone.purchases j ≡ purchased_in s.purchases j
    unfolding release_stock
    purchases_back limited nonneg hb hq hs j =
        let key = user_purchase_key u a k in
        let bought = purchased_in s.purchases (user_purchase_key u a k) in
        ground (
          arith,
          lookup-insert (reserved_key a k order) (reserved_key a k order) "1" s.reserved,
          eq_refl (reserved_key a k order),
          eq_refl key,
          lookup-insert key key (add64 bought q) s.purchases,
          lookup-insert key j (add64 bought q) s.purchases,
          lookup-delete key j (insert key (add64 bought q) s.purchases),
          lookup-insert key j (sub64 (add64 bought q) q) (insert key (add64 bought q) s.purchases),
          sub64-add64 bought q hb hq,
          add64_exact bought q hs,
          +ℤ_parts bought q,
          eq_iff key j,
        )

-- With a purchase limit, a first deduction that succeeds and then a release with the same
-- arguments give back what every key held: the stock, the numbers bought and the reservations.
-- The stored numbers are `int64` values, the number bought is not negative, and the number bought
-- with the quantity added does not overflow.
pub release-deduct :
    (a k : String) (u q limit : ℤ) (order : String) (s : MemoryStore)
    → ((j : String) (c : ℤ) → lookup j s.stock ≡ some c → InInt64 c)
    → InInt64 q
    → pos 0 <ℤ limit
    → pos 0 ≤ℤ purchased_in s.purchases (user_purchase_key u a k)
    → InInt64 (purchased_in s.purchases (user_purchase_key u a k))
    → InInt64 (purchased_in s.purchases (user_purchase_key u a k) +ℤ q)
    → lookup (reserved_key a k order) s.reserved ≡ none
    → (deduct_stock_with_limit a k u q limit order s).0 ≡ ok true
    → SameView (release_stock a k u q order (deduct_stock_with_limit a k u q limit order s).1) s
release-deduct a k u q limit order s fits hq limited nonneg hb hs fresh done =
    let (c, d) = deduct-Deducted a k u q limit order s fresh done in
    rw (d.written) (record {
      stock =
          stock_back a k u q limit order s c fresh d.in_stock (fits (sku_key a k) c d.in_stock) hq;
      purchases =
          purchases_back a k u q limit order s c fresh d.in_stock (ground arith) nonneg hb hq hs;
      reserved = reserved_back a k u q limit order s c fresh d.in_stock;
    })
