-- ===== src/Tests/Activity.antt =====
-- An activity of the store and its administration.
use seckill_go.Prelude.{pos, ok, lookup, trim_space, ◌≡◌, refl, false, none, some, List, [], ◌∷◌}
use seckill_go.Activity.Status.{Sku, Activity}
use seckill_go.Activity.Admin.{
  AdminServices, UpdateActivityCommand, AddProductCommand, update_activity, end_activity,
  add_product, create_activity, CreateActivityCommand,
}
use seckill_go.Activity.Admin.Guards.{recorded, IsChange, IsCreation, admin_guards}
use seckill_go.Activity.Memory.{
  MemoryStore, StoreError, add_activity, new_memory_store, add_activity_sku, get_sku, get_activity,
  peek_stock, with_stock, put_skus, sku_key, update_activity_status, remove_activity_sku,
}
use seckill_go.Activity.Memory.Products.{listed, products, added_product_is_served}
use seckill_go.Activity.Memory.Reading.{
  Shows, totals, stored_skus, remaining, read_overwrites_totals,
}
use seckill_go.Activity.Memory.Steps.{Operation, update_status, status_of, put_product}
use seckill_go.Activity.Memory.Steps.Runs.{run, MovedOn, run-MovedOn}

abbrev product : Sku
product = record {
  activity_no = "";
  sku_no = "S";
  product_name = "course";
  product_image = "";
  original_price = pos 1990;
  seckill_price = pos 990;
  total_stock = pos 100;
  limit_quantity = pos 1;
  discount_type = pos 0;
  discount_price = pos 0;
  discount_pct = pos 0;
}

abbrev sale : Activity
sale = record {
  root = none;
  activity_no = "A";
  name = "sale";
  start_time = pos 10;
  end_time = pos 20;
  status = pos 0;
  purchase_limit = pos 1;
  remark = "";
  skus = [];
  created_at = pos 5;
  updated_at = pos 5;
}

abbrev store : MemoryStore
store = record {
  activities = ("A", sale) ∷ [];
  sku_map = [];
  stock = [];
  purchases = [];
  trace_results = [];
}

sale_there : lookup "A" store.activities ≡ some sale
unfolding lookup
sale_there = refl

no_stock : lookup (seckill_go.Activity.Memory.sku_key "A" "S") store.stock ≡ none
unfolding lookup
no_stock = refl

added_product_is_served_example :
    let s' = (add_activity_sku "A" product (pos 6) store).1 in
    (get_sku "A" "S" s' ≡ ok (record product { activity_no = "A" }))
    × (peek_stock "A" "S" s' ≡ ok (pos 100))
    × (listed "S" (products (get_activity "A" s').0) ≡ some (record product { activity_no = "A" }))
added_product_is_served_example =
    added_product_is_served "A" product (pos 6) sale store sale_there refl no_stock

-- A store of which an item was sold.
abbrev sold : MemoryStore
sold = record store {
  activities = ("A", record sale { skus = product ∷ [] }) ∷ [];
  stock = ("A:S", pos 99) ∷ [];
}

sold_there : lookup "A" sold.activities ≡ some (record sale { skus = product ∷ [] })
unfolding lookup
sold_there = refl

read_overwrites_totals_example :
    let (read, s') = get_activity "A" sold in
    Shows (record sale { skus = product ∷ [] }) sold read
    × (totals (stored_skus "A" s') ≡ remaining "A" (product ∷ []) sold)
    × ((get_activity "A" s').0 ≡ read)
    × (stored_skus "A" (get_activity "A" s').1 ≡ stored_skus "A" s')
read_overwrites_totals_example =
    read_overwrites_totals "A" (record sale { skus = product ∷ [] }) sold sold_there refl

abbrev operations : List Operation
operations =
    put_product "A" product (pos 6)
    ∷ update_status "A" (pos 1) (pos 10)
    ∷ update_status "A" (pos 3) (pos 20)
    ∷ update_status "A" (pos 1) (pos 30)
    ∷ []

run-MovedOn_example :
    MovedOn
      (status_of (lookup "A" store.activities))
      (status_of (lookup "A" (run operations store).activities))
run-MovedOn_example = run-MovedOn operations "A" store

abbrev gateway : AdminServices StoreError MemoryStore
gateway = record {
  has_cache = false;
  get_activity = λ n s. get_activity n s;
  create_activity = λ a s. (ok a, add_activity a (pos 6) s);
  update_activity = λ a s. seckill_go.Activity.Memory.update_activity a (pos 6) s;
  update_activity_status = λ n t s. seckill_go.Activity.Memory.update_activity_status n t (pos 6) s;
  add_activity_sku = λ n k s. add_activity_sku n k (pos 6) s;
  remove_activity_sku = λ n k s. seckill_go.Activity.Memory.remove_activity_sku n k (pos 6) s;
  evict = λ n s. s;
  now = λ s. (pos 6, s);
}

abbrev renamed : UpdateActivityCommand
renamed = record {
  activity_no = " A ";
  activity_name = "summer sale";
  start_time = pos 0;
  end_time = pos 0;
  purchase_limit = pos 0;
  remark = "";
}

abbrev addition : AddProductCommand
addition = record {
  activity_no = "A";
  sku_no = "S2";
  product_name = "";
  product_image = "";
  original_price = pos 1990;
  seckill_price = pos 990;
  activity_stock = pos 10;
  limit_quantity = pos 0;
  discount_type = pos 0;
  discount_price = pos 0;
  discount_percent = pos 0;
}

abbrev new_sale : CreateActivityCommand
new_sale = record {
  activity_name = "sale";
  start_time = pos 10;
  end_time = pos 20;
  purchase_limit = pos 0;
  remark = "";
}

admin_guards_example :
    IsChange
      (trim_space " A ")
      (gateway.get_activity (trim_space " A ") store).0
      (update_activity (recorded gateway) renamed ([], store)).1.0
    × IsChange
        (trim_space "A")
        (gateway.get_activity (trim_space "A") store).0
        (end_activity (recorded gateway) "A" ([], store)).1.0
    × IsChange
        (trim_space "A")
        (gateway.get_activity (trim_space "A") store).0
        (add_product (recorded gateway) addition ([], store)).1.0
    × IsCreation (pos 6) (create_activity (recorded gateway) "1" new_sale ([], store)).1.0
admin_guards_example = admin_guards gateway renamed "A" addition "1" new_sale store
