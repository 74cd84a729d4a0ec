-- ===== src/Stock/Memory/Deducting.antt =====
-- What a first deduction of the in-memory store that succeeds has checked and written.
use seckill_go.Prelude.{
  if◌then◌else◌, Option-cases, is_some, get_or, ℤ, pos, ◌≤ℤ◌, lt_ℤ, add64, sub64, Result, ok, err,
  Assoc, lookup, insert, String, ◌≡◌, inl, inr, Bool, true, false, none, some, arith, ap,
}
use seckill_go.Stock.Memory.{
  MemoryStore, sku_key, user_purchase_key, reserved_key, deduct_stock_with_limit,
}
use seckill_go.Stock.Entity.{StockError}

abbrev pub purchased_in : Assoc ℤ → String → ℤ
purchased_in m key = get_or (lookup key m) (pos 0)

module _ (a k : String) (u q limit : ℤ) (order : String) (s : MemoryStore) where
  -- The store after a deduction that was made from `c` in stock.
  abbrev pub deducted : ℤ → MemoryStore
  deducted c = record {
    stock = insert (sku_key a k) (sub64 c q) s.stock;
    purchases =
        if lt_ℤ (pos 0) limit
        then insert (user_purchase_key u a k)
            (add64 (purchased_in s.purchases (user_purchase_key u a k)) q) s.purchases
        else s.purchases;
    reserved = insert (reserved_key a k order) "1" s.reserved;
  }

  -- What a first deduction that succeeds has checked, and what it has written.
  pub record Deducted (c : ℤ) : Type 0 where
    pub in_stock : lookup (sku_key a k) s.stock ≡ some c
    pub enough : q ≤ℤ c
    pub allowed :
        lt_ℤ (pos 0) limit ≡ true
        → lt_ℤ limit (add64 (purchased_in s.purchases (user_purchase_key u a k)) q) ≡ false
    pub written : (deduct_stock_with_limit a k u q limit order s).1 ≡ deducted c

  pub deduct-Deducted :
      lookup (reserved_key a k order) s.reserved ≡ none
      → (deduct_stock_with_limit a k u q limit order s).0 ≡ ok true
      → (c : ℤ) × Deducted c
  unfolding deduct_stock_with_limit
  deduct-Deducted fresh done = elim (Option-cases (lookup (sku_key a k) s.stock)) [
    | inl missing ↦ absurd (ground arith)
    | inr (c, found) ↦ (
      c,
      record {
        in_stock = found;
        enough = ground arith;
        allowed = ground arith;
        written = ground arith;
      },
    )
  ]

pub deduct_reserved :
    (a k : String) (u q limit : ℤ) (order : String) (s : MemoryStore)
    → is_some (lookup (reserved_key a k order) s.reserved) ≡ true
    → deduct_stock_with_limit a k u q limit order s ≡ (ok true, s)
unfolding deduct_stock_with_limit
deduct_reserved a k u q limit order s h = rw h

abbrev pub accepted : Result StockError Bool → Bool
accepted (ok b) = b
accepted (err e) = false

-- A deduction that is refused, or that fails, leaves the store as it is.
pub deduct_refused :
    (a k : String) (u q limit : ℤ) (order : String) (s : MemoryStore)
    → accepted (deduct_stock_with_limit a k u q limit order s).0 ≡ false
    → (deduct_stock_with_limit a k u q limit order s).1 ≡ s
unfolding deduct_stock_with_limit
deduct_refused a k u q limit order s h = ground (arith, Option-cases (lookup (sku_key a k) s.stock))

pub accepted-ok : (r : Result StockError Bool) → accepted r ≡ true → r ≡ ok true
accepted-ok (ok b) h = ap ok h
accepted-ok (err e) h = cc
