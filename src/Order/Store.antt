-- ===== src/Order/Store.antt =====
-- services/order-service/internal/infrastructure/persistence/memory.go: the map of orders behind a
-- mutex. The store comes last and is returned beside the result. A range over the map goes in the
-- order of the association list, where Go's order is not fixed.
pub mod Final
pub mod Listing
pub mod Batch
use Prim.Native.Nat.{Ordering}
use Prim.Native.String.{compare}
use seckill_go.Prelude.{
  if◌then◌else◌, is_some, get_or, ℤ, lt_ℤ, eq_ℤ, Result, ok, err, Assoc, insert, lookup, String,
  Bool, true, false, ◌&&◌, ◌||◌, Option, none, some, List, [], ◌∷◌, ◌++◌, str_eq,
}
use seckill_go.Order.Entity.{Order}
use seckill_go.Order.Status.{transit_order_paid, transit_order_closed}

pub data StoreError : Type 0 where
  duplicate : StoreError
  not_found : StoreError
  invalid_state : StoreError

abbrev pub MemoryStore : Type 0
MemoryStore = Assoc Order

unfoldable pub create : Order → MemoryStore → Option StoreError × MemoryStore
create o s =
    if is_some (lookup o.order_no s) then (some duplicate, s) else (none, insert o.order_no o s)

found : Option Order → Result StoreError Order
found none = err not_found
found (some o) = ok o

unfoldable pub get_order : String → MemoryStore → Result StoreError Order
unfolding found
get_order order_no s = found (lookup order_no s)

-- The range of `GetByUserAndTrace`, which returns at the first match.
find_user_trace : ℤ → String → MemoryStore → Result StoreError Order
find_user_trace user_id trace_id [] = err not_found
find_user_trace user_id trace_id ((n, o) ∷ s) =
    let rest = find_user_trace user_id trace_id s in
    if eq_ℤ o.user_id user_id && str_eq o.trace_id trace_id then ok o else rest

unfoldable pub get_by_user_and_trace : ℤ → String → MemoryStore → Result StoreError Order
unfolding find_user_trace
get_by_user_and_trace user_id trace_id s =
    if str_eq trace_id "" then err not_found else find_user_trace user_id trace_id s

-- Go's `>` on texts.
text_gt : String → String → Bool
text_gt a b = elim (compare a b) [ Ordering.gt ↦ true | _ ↦ false ]

-- The order of the sort: the newer first, and by order number where the times are equal.
comes_first : Order → Order → Bool
unfolding text_gt
comes_first x y =
    if eq_ℤ x.created_at y.created_at
    then text_gt x.order_no y.order_no
    else lt_ℤ y.created_at x.created_at

insert_sorted : Order → List Order → List Order
unfolding comes_first
insert_sorted x [] = x ∷ []
insert_sorted x (y ∷ ys) =
    let rest = insert_sorted x ys in if comes_first x y then x ∷ y ∷ ys else y ∷ rest

-- `sort.Slice` by `comes_first`; on different order numbers the sorted list is the only one.
pub sort_orders_by_create_time_desc : List Order → List Order
unfolding insert_sorted
sort_orders_by_create_time_desc [] = []
sort_orders_by_create_time_desc (o ∷ os) = insert_sorted o (sort_orders_by_create_time_desc os)

-- The range that appends the orders which pass a test.
unfoldable pub matching : (Order → Bool) → MemoryStore → List Order
matching test [] = []
matching test ((n, o) ∷ s) = let rest = matching test s in if test o then o ∷ rest else rest

unfoldable pub list_orders_by_activity : String → MemoryStore → List Order
unfolding sort_orders_by_create_time_desc matching
list_orders_by_activity activity_no s =
    sort_orders_by_create_time_desc (matching (λ o. str_eq o.activity_no activity_no) s)

unfoldable pub list_orders_by_user : ℤ → MemoryStore → List Order
unfolding sort_orders_by_create_time_desc matching
list_orders_by_user user_id s =
    sort_orders_by_create_time_desc (matching (λ o. eq_ℤ o.user_id user_id) s)

-- The keys that are asked for, each with no orders.
unfoldable pub asked_for : List String → Assoc (List Order) → Assoc (List Order)
asked_for [] result = result
asked_for (activity_no ∷ rest) result = asked_for rest (
    if str_eq activity_no "" || is_some (lookup activity_no result)
    then result
    else insert activity_no [] result)

-- The range that appends each order to its activity, where that is wanted; `wanted` has the keys
-- of the empty result.
unfoldable pub group_orders :
    Assoc (List Order) → MemoryStore → Assoc (List Order) → Assoc (List Order)
group_orders wanted [] result = result
group_orders wanted ((n, o) ∷ s) result = group_orders wanted s (
    if is_some (lookup o.activity_no wanted)
    then insert o.activity_no (get_or (lookup o.activity_no result) [] ++ o ∷ []) result
    else result)

unfoldable pub sort_groups : Assoc (List Order) → Assoc (List Order)
unfolding sort_orders_by_create_time_desc
sort_groups [] = []
sort_groups ((activity_no, orders) ∷ rest) =
    (activity_no, sort_orders_by_create_time_desc orders) ∷ sort_groups rest

unfoldable pub list_orders_by_activities : List String → MemoryStore → Assoc (List Order)
unfolding asked_for group_orders sort_groups
list_orders_by_activities activity_nos s =
    let wanted = asked_for activity_nos [] in sort_groups (group_orders wanted s wanted)

-- What a transition gives: the new value is stored, a refusal is an error.
store_transition : String → Order × Bool → MemoryStore → Option StoreError × MemoryStore
store_transition order_no (updated, true) s = (none, insert order_no updated s)
store_transition order_no (updated, false) s = (some invalid_state, s)

unfoldable pub mark_order_paid : String → String → ℤ → MemoryStore → Option StoreError × MemoryStore
unfolding store_transition
mark_order_paid order_no transaction_no paid_at s = elim (lookup order_no s) [
  | none ↦ (some not_found, s)
  | some o ↦ store_transition order_no (transit_order_paid o transaction_no paid_at) s
]

-- `now` is the clock reading.
unfoldable pub close_order : String → ℤ → MemoryStore → Option StoreError × MemoryStore
unfolding store_transition
close_order order_no now s = elim (lookup order_no s) [
  | none ↦ (some not_found, s)
  | some o ↦ store_transition order_no (transit_order_closed o now) s
]
