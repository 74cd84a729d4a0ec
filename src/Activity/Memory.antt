-- ===== src/Activity/Memory.antt =====
-- services/activity-service/internal/infrastructure/persistence/memory.go. A method takes the store
-- last and returns it beside its results; `now` is what `time.Now` returns in it. The stored
-- activity and the activity that a reader gets share their slice of SKUs, so the totals that
-- `attachRuntimeStockLocked` writes are written in the store as well; that no caller writes to the
-- slices it passed or received is assumed.
pub mod Inventory
pub mod Products
pub mod Reading
pub mod Steps
use Prim.Native.Nat.{Ordering}
use Prim.Native.String.{compare}
use seckill_go.Prelude.{
  if◌then◌else◌, is_some, get_or, ℤ, pos, lt_ℤ, eq_ℤ, Result, ok, err, Assoc, delete, insert,
  lookup, decimal, String, append, Bool, true, false, Option, none, some, List, [], ◌∷◌, str_eq,
}
use seckill_go.Activity.Status.{Sku, Activity, transit_activity}

pub data StoreError : Type 0 where
  not_found : StoreError
  invalid_state : StoreError
  stock_not_ready : StoreError

pub record ExpiringValue : Type 0 where
  pub value : String
  pub expires_at : ℤ

pub record MemoryStore : Type 0 where
  pub activities : Assoc Activity
  pub sku_map : Assoc Sku
  pub stock : Assoc ℤ
  pub purchases : Assoc ℤ
  pub trace_results : Assoc ExpiringValue

unfoldable pub new_memory_store : MemoryStore
new_memory_store = record {
  activities = [];
  sku_map = [];
  stock = [];
  purchases = [];
  trace_results = [];
}

unfoldable pub sku_key : String → String → String
sku_key activity_no sku_no = append activity_no (append ":" sku_no)

unfoldable pub user_purchase_key : ℤ → String → String → String
user_purchase_key user_id activity_no sku_no =
    append (decimal user_id) (append ":" (append activity_no (append ":" sku_no)))

-- `if _, exists := s.stock[key]; !exists { s.stock[key] = total }`
abbrev pub init_stock : String → ℤ → Assoc ℤ → Assoc ℤ
init_stock key total stock = if is_some (lookup key stock) then stock else insert key total stock

unfoldable pub put_sku : String → Sku → MemoryStore → MemoryStore
unfolding sku_key
put_sku activity_no k s = record s {
  sku_map =
      insert (sku_key activity_no k.sku_no) (record k { activity_no = activity_no }) s.sku_map;
  stock = init_stock (sku_key activity_no k.sku_no) k.total_stock s.stock;
}

unfoldable pub put_skus : String → List Sku → MemoryStore → MemoryStore
unfolding put_sku
put_skus activity_no [] s = s
put_skus activity_no (k ∷ rest) s = put_skus activity_no rest (put_sku activity_no k s)

unfoldable pub add_activity : Activity → ℤ → MemoryStore → MemoryStore
unfolding put_skus
add_activity a now s =
    let created = if eq_ℤ a.created_at (pos 0) then now else a.created_at in
    put_skus a.activity_no a.skus (record s {
      activities =
          insert a.activity_no (record a { created_at = created; updated_at = now }) s.activities;
    })

-- The fields that the caller gave.
unfoldable pub merge_activity : Activity → ℤ → Activity → Activity
merge_activity given now existing = record existing {
  name = if str_eq given.name "" then existing.name else given.name;
  start_time = if eq_ℤ given.start_time (pos 0) then existing.start_time else given.start_time;
  end_time = if eq_ℤ given.end_time (pos 0) then existing.end_time else given.end_time;
  purchase_limit =
      if lt_ℤ (pos 0) given.purchase_limit then given.purchase_limit else existing.purchase_limit;
  remark = if str_eq given.remark "" then existing.remark else given.remark;
  updated_at = now;
}

unfoldable pub update_activity : Activity → ℤ → MemoryStore → Option StoreError × MemoryStore
unfolding merge_activity
update_activity given now s = elim (lookup given.activity_no s.activities) [
  | none ↦ (some not_found, s)
  | some existing ↦ (
    none,
    record s {
      activities = insert given.activity_no (merge_activity given now existing) s.activities;
    },
  )
]

unfoldable pub update_activity_status :
    String → ℤ → ℤ → MemoryStore → Option StoreError × MemoryStore
unfolding transit_activity
update_activity_status activity_no status now s = elim (lookup activity_no s.activities) [
  | none ↦ (some not_found, s)
  | some a ↦
      let (updated, allowed) = transit_activity a status now in
      if allowed
      then (none, record s { activities = insert activity_no updated s.activities })
      else (some invalid_state, s)
]

-- The loop that replaces the first entry with the number, then the append.
unfoldable pub replace_or_append : Sku → List Sku → List Sku
replace_or_append k [] = k ∷ []
replace_or_append k (x ∷ rest) =
    let others = replace_or_append k rest in
    if str_eq x.sku_no k.sku_no then k ∷ rest else x ∷ others

unfoldable pub add_activity_sku : String → Sku → ℤ → MemoryStore → Option StoreError × MemoryStore
unfolding put_sku replace_or_append
add_activity_sku activity_no k now s = elim (lookup activity_no s.activities) [
  | none ↦ (some not_found, s)
  | some a ↦
      let listed = replace_or_append (record k { activity_no = activity_no }) a.skus in
      (
        none,
        record (put_sku activity_no k s) {
          activities =
              insert activity_no (record a { skus = listed; updated_at = now }) s.activities;
        },
      )
]

unfoldable pub without_sku : String → List Sku → List Sku
without_sku n [] = []
without_sku n (k ∷ rest) =
    let others = without_sku n rest in if str_eq k.sku_no n then others else k ∷ others

unfoldable pub remove_activity_sku :
    String → String → ℤ → MemoryStore → Option StoreError × MemoryStore
unfolding sku_key without_sku
remove_activity_sku activity_no sku_no now s = elim (lookup activity_no s.activities) [
  | none ↦ (some not_found, s)
  | some a ↦ elim (lookup (sku_key activity_no sku_no) s.sku_map) [
    | none ↦ (some not_found, s)
    | some k ↦ (
      none,
      record s {
        sku_map = delete (sku_key activity_no sku_no) s.sku_map;
        stock = delete (sku_key activity_no sku_no) s.stock;
        activities =
            insert activity_no (record a { skus = without_sku sku_no a.skus; updated_at = now })
              s.activities;
      },
    )
  ]
]

unfoldable pub with_stock : String → Assoc ℤ → List Sku → List Sku
unfolding sku_key
with_stock activity_no stock [] = []
with_stock activity_no stock (k ∷ rest) =
    record k { total_stock = get_or (lookup (sku_key activity_no k.sku_no) stock) (pos 0) }
    ∷ with_stock activity_no stock rest

unfoldable pub attach_runtime_stock : Assoc ℤ → Activity → Activity
unfolding with_stock
attach_runtime_stock stock a = record a { skus = with_stock a.activity_no stock a.skus }

unfoldable pub attach_all : Assoc ℤ → Assoc Activity → Assoc Activity
unfolding attach_runtime_stock
attach_all stock [] = []
attach_all stock ((n, a) ∷ rest) = (n, attach_runtime_stock stock a) ∷ attach_all stock rest

abbrev pub number_before : Activity → Activity → Bool
number_before a b = elim (compare a.activity_no b.activity_no) [ Ordering.lt ↦ true | _ ↦ false ]

unfoldable pub insert_by_number : Activity → List Activity → List Activity
insert_by_number a [] = a ∷ []
insert_by_number a (b ∷ rest) =
    let later = insert_by_number a rest in if number_before b a then b ∷ later else a ∷ b ∷ rest

-- `sort.Slice` on the values of a map, whose numbers differ.
unfoldable pub sorted_values : Assoc Activity → List Activity
unfolding insert_by_number
sorted_values [] = []
sorted_values ((n, a) ∷ rest) = insert_by_number a (sorted_values rest)

unfoldable pub list_activities : MemoryStore → List Activity × MemoryStore
unfolding attach_all sorted_values
list_activities s =
    let attached = attach_all s.stock s.activities in
    (sorted_values attached, record s { activities = attached })

unfoldable pub get_activity : String → MemoryStore → Result StoreError Activity × MemoryStore
unfolding attach_runtime_stock
get_activity activity_no s = elim (lookup activity_no s.activities) [
  | none ↦ (err not_found, s)
  | some a ↦
      let read = attach_runtime_stock s.stock a in
      (ok read, record s { activities = insert activity_no read s.activities })
]

unfoldable pub get_sku : String → String → MemoryStore → Result StoreError Sku
unfolding sku_key
get_sku activity_no sku_no s = elim (lookup (sku_key activity_no sku_no) s.sku_map) [
  | none ↦ err not_found
  | some k ↦ ok k
]

unfoldable pub peek_stock : String → String → MemoryStore → Result StoreError ℤ
unfolding sku_key
peek_stock activity_no sku_no s = elim (lookup (sku_key activity_no sku_no) s.stock) [
  | none ↦ err stock_not_ready
  | some n ↦ ok n
]
