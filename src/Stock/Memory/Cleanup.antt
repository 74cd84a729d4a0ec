-- ===== src/Stock/Memory/Cleanup.antt =====
-- The cleanup of an activity that has ended.
use text.Mathlib.Text.{starts_with}
use seckill_go.Prelude.{
  if◌then◌else◌, ℤ, Assoc, lookup, ℕ, suc, String, ◌≡◌, ap, Bool, none, [], ◌∷◌, arith, eq_iff,
  delete, lookup-delete, contains, ◌+◌, append, refl, false, ◌||◌, List, str_eq, is_some,
}
use seckill_go.Stock.Memory.{
  delete_matching, MemoryStore, sku_key, cleanup_activity_stock, cleanup_activity_purchases,
  delete_skus, cleanup_stock,
}

abbrev pub length : Assoc ℤ → ℕ
length [] = 0
length (x ∷ m) = suc (length m)

lookup-delete_matching :
    (test : String → Bool) (j : String) (m : Assoc ℤ)
    → lookup j (delete_matching test m).1 ≡ (if test j then none else lookup j m)
unfolding delete_matching lookup
lookup-delete_matching test j [] = ground arith
lookup-delete_matching test j ((i, v) ∷ m) =
    ground (arith, eq_iff i j, lookup-delete_matching test j m, ap test)

length-delete_matching :
    (test : String → Bool) (m : Assoc ℤ)
    → (delete_matching test m).0 + length (delete_matching test m).1 ≡ length m
unfolding delete_matching
length-delete_matching test [] = omega arith
length-delete_matching test ((i, v) ∷ m) = ground (arith, length-delete_matching test m)

-- Without a list of SKUs, the cleanup of the stock removes the keys with the prefix `activity:`
-- and no other, and its result is the number of entries that it removed.
pub cleanup_stock_exact :
    (a : String) (s : MemoryStore)
    → let (deleted, s') = cleanup_activity_stock a [] s in
      ((j : String)
        → lookup j s'.stock ≡ (if starts_with j (append a ":") then none else lookup j s.stock))
      × (deleted + length s'.stock ≡ length s.stock)
unfolding cleanup_activity_stock cleanup_stock
cleanup_stock_exact a s = (
  λ j. lookup-delete_matching (λ key. starts_with key (append a ":")) j s.stock,
  length-delete_matching (λ key. starts_with key (append a ":")) s.stock,
)

-- The cleanup of the purchases removes the keys that contain `:activity:` and no other, its
-- result is the number of entries that it removed, and the stock and reservations stay.
pub cleanup_purchases_exact :
    (a : String) (s : MemoryStore)
    → let (deleted, s') = cleanup_activity_purchases a s in
      ((j : String)
        → lookup j s'.purchases
          ≡ (if contains j (append ":" (append a ":")) then none else lookup j s.purchases))
      × (deleted + length s'.purchases ≡ length s.purchases)
      × (s'.stock ≡ s.stock)
      × (s'.reserved ≡ s.reserved)
unfolding cleanup_activity_purchases
cleanup_purchases_exact a s =
    let test = λ (key : String). contains key (append ":" (append a ":")) in
    (
      λ j. lookup-delete_matching test j s.purchases,
      length-delete_matching test s.purchases,
      refl,
      refl,
    )

-- Whether a key is that of a listed SKU.
abbrev pub is_listed : String → List String → String → Bool
is_listed a [] j = false
is_listed a (k ∷ ks) j = str_eq (sku_key a k) j || is_listed a ks j

lookup-delete_skus :
    (a : String) (ks : List String) (n : ℕ) (m : Assoc ℤ) (j : String)
    → lookup j (delete_skus a ks n m).1 ≡ (if is_listed a ks j then none else lookup j m)
unfolding delete_skus
lookup-delete_skus a [] n m j = refl
lookup-delete_skus a (k ∷ ks) n m j =
    let found = is_some (lookup (sku_key a k) m) in
    ground (
      arith,
      lookup-delete_skus a ks (if found then n + 1 else n)
          (if found then delete (sku_key a k) m else m) j,
      lookup-delete (sku_key a k) j m,
      eq_iff (sku_key a k) j,
    )

-- With a list of SKUs, the cleanup removes the stock of these SKUs of the activity, keeps every
-- other key, and leaves the purchases and reservations.
pub cleanup_listed_exact :
    (a k : String) (ks : List String) (s : MemoryStore)
    → let (deleted, s') = cleanup_activity_stock a (k ∷ ks) s in
      ((j : String)
        → lookup j s'.stock ≡ (if is_listed a (k ∷ ks) j then none else lookup j s.stock))
      × (s'.purchases ≡ s.purchases)
      × (s'.reserved ≡ s.reserved)
unfolding cleanup_activity_stock cleanup_stock
cleanup_listed_exact a k ks s = (λ j. lookup-delete_skus a (k ∷ ks) 0 s.stock j, refl, refl)
