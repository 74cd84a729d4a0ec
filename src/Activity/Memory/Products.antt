-- ===== src/Activity/Memory/Products.antt =====
-- Adding a product to an activity of the store and removing it again.
use seckill_go.Prelude.{
  if◌then◌else◌, get_or, ℤ, pos, Result, ok, err, Assoc, lookup, String, ◌≡◌, refl, Option, none,
  some, List, [], ◌∷◌, arith, str_eq, eq_iff, insert, lookup-insert, eq_refl, delete, lookup-delete,
}
use seckill_go.Activity.Status.{Sku, Activity}
use seckill_go.Activity.Memory.{
  StoreError, sku_key, replace_or_append, without_sku, with_stock, MemoryStore, put_sku,
  add_activity_sku, attach_runtime_stock, get_activity, get_sku, peek_stock, not_found,
  stock_not_ready, remove_activity_sku,
}

-- What is listed under a number in a slice of SKUs.
pub listed : String → List Sku → Option Sku
listed n [] = none
listed n (k ∷ rest) = let later = listed n rest in if str_eq k.sku_no n then some k else later

-- The SKUs of an activity as a reader gets them.
pub products : Result StoreError Activity → List Sku
products (ok a) = a.skus
products (err e) = []

listed-replaced :
    (k : Sku) (ks : List Sku) (n : String)
    → listed n (replace_or_append k ks) ≡ (if str_eq k.sku_no n then some k else listed n ks)
unfolding listed replace_or_append
listed-replaced k [] n = ground arith
listed-replaced k (x ∷ rest) n = ground (
  arith,
  listed-replaced k rest n,
  eq_iff x.sku_no k.sku_no,
  eq_iff k.sku_no n,
  eq_iff x.sku_no n,
)

listed-without :
    (m : String) (ks : List Sku) (n : String)
    → listed n (without_sku m ks) ≡ (if str_eq m n then none else listed n ks)
unfolding listed without_sku
listed-without m [] n = ground arith
listed-without m (x ∷ rest) n =
    ground (arith, listed-without m rest n, eq_iff x.sku_no m, eq_iff m n, eq_iff x.sku_no n)

abbrev pub stocked : Assoc ℤ → String → Option Sku → Option Sku
stocked stock a none = none
stocked stock a (some k) =
    some (record k { total_stock = get_or (lookup (sku_key a k.sku_no) stock) (pos 0) })

listed-with_stock :
    (a : String) (stock : Assoc ℤ) (ks : List Sku) (n : String)
    → listed n (with_stock a stock ks) ≡ stocked stock a (listed n ks)
unfolding listed with_stock
listed-with_stock a stock [] n = refl
listed-with_stock a stock (x ∷ rest) n = ground (arith, listed-with_stock a stock rest n)

-- A product that is added to an activity, and whose key had no stock, is found, has the stock it was
-- given, and is listed with it among the products of the activity.
pub added_product_is_served :
    (a : String) (k : Sku) (now : ℤ) (act : Activity) (s : MemoryStore)
    → lookup a s.activities ≡ some act
    → act.activity_no ≡ a
    → lookup (sku_key a k.sku_no) s.stock ≡ none
    → let s' = (add_activity_sku a k now s).1 in
      (get_sku a k.sku_no s' ≡ ok (record k { activity_no = a }))
      × (peek_stock a k.sku_no s' ≡ ok k.total_stock)
      × (listed k.sku_no (products (get_activity a s').0) ≡ some (record k { activity_no = a }))
unfolding add_activity_sku put_sku get_sku peek_stock get_activity attach_runtime_stock products
added_product_is_served a k now act s there own fresh =
    let key = sku_key a k.sku_no in
    let named = record k { activity_no = a } in
    ground (
      arith,
      lookup-insert key key named s.sku_map,
      lookup-insert key key k.total_stock s.stock,
      lookup-insert a a (record act { skus = replace_or_append named act.skus; updated_at = now })
          s.activities,
      listed-with_stock a (insert key k.total_stock s.stock) (replace_or_append named act.skus)
          k.sku_no,
      listed-replaced named act.skus k.sku_no,
      eq_refl key,
      eq_refl a,
      eq_refl k.sku_no,
    )

-- A product that the store knows is removed without an error: it is found no more, its stock is gone,
-- and no product of its number is listed.
pub removed_product_is_gone :
    (a n : String) (k : Sku) (now : ℤ) (act : Activity) (s : MemoryStore)
    → lookup a s.activities ≡ some act
    → get_sku a n s ≡ ok k
    → let (error, s') = remove_activity_sku a n now s in
      (error ≡ none)
      × (get_sku a n s' ≡ err not_found)
      × (peek_stock a n s' ≡ err stock_not_ready)
      × (listed n (products (get_activity a s').0) ≡ none)
unfolding remove_activity_sku get_sku peek_stock get_activity attach_runtime_stock products
removed_product_is_gone a n k now act s there known =
    let key = sku_key a n in
    ground (
      arith,
      lookup-delete key key s.sku_map,
      lookup-delete key key s.stock,
      lookup-insert a a (record act { skus = without_sku n act.skus; updated_at = now })
          s.activities,
      listed-with_stock act.activity_no (delete key s.stock) (without_sku n act.skus) n,
      listed-without n act.skus n,
      eq_refl key,
      eq_refl a,
      eq_refl n,
    )
