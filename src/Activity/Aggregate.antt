-- ===== src/Activity/Aggregate.antt =====
-- services/activity-service/internal/domain/entity/activity.go and factory/activity.go. A method on
-- `*Activity` takes the activity last; its result is `none` where it panics on a nil aggregate root.
use seckill_go.Prelude.{
  if◌then◌else◌, is_some, ℤ, pos, lt_ℤ, le_ℤ, eq_ℤ, String, Bool, not, ◌||◌, Option, none, some,
  List, [], ◌∷◌, ◌++◌, str_eq,
}
use seckill_go.Activity.Status.{
  Sku, ActivityEvent, activity_started, activity_ended, sku_added, sku_removed, Activity,
}

pub data ActivityError : Type 0 where
  ended_cannot_start : ActivityError
  already_open : ActivityError
  paused_cannot_start : ActivityError
  before_scheduled_time : ActivityError
  already_ended : ActivityError
  ended_cannot_add : ActivityError
  sku_already_exists : ActivityError
  open_cannot_remove : ActivityError
  ended_cannot_remove : ActivityError
  sku_not_found : ActivityError
  ended_cannot_be_modified : ActivityError

abbrev pub Answer : Type 0
Answer = Option (Option ActivityError × Activity)

-- `RecordEvent` through the embedded pointer, then `return nil`.
abbrev pub recording : ActivityEvent → Activity → Answer
recording e a = elim a.root [
  | none ↦ none
  | some events ↦ some (none, record a { root = some (events ++ (e ∷ [])) })
]

unfoldable pub start : ℤ → Activity → Answer
start now a =
    if eq_ℤ a.status (pos 3)
    then some (some ended_cannot_start, a)
    else if eq_ℤ a.status (pos 1)
    then some (some already_open, a)
    else if eq_ℤ a.status (pos 2)
    then some (some paused_cannot_start, a)
    else if lt_ℤ now a.start_time
    then some (some before_scheduled_time, a)
    else recording (activity_started a.activity_no now) (record a { status = pos 1 })

unfoldable pub end_activity : String → ℤ → Activity → Answer
end_activity reason now a =
    if eq_ℤ a.status (pos 3)
    then some (some already_ended, a)
    else recording (activity_ended a.activity_no reason now) (record a { status = pos 3 })

unfoldable pub find_sku : String → List Sku → Option Sku
find_sku n [] = none
find_sku n (k ∷ rest) = let later = find_sku n rest in if str_eq k.sku_no n then some k else later

unfoldable pub has_sku : String → Activity → Bool
unfolding find_sku
has_sku n a = is_some (find_sku n a.skus)

unfoldable pub add_sku : Sku → Activity → Answer
unfolding has_sku
add_sku k a =
    if eq_ℤ a.status (pos 3)
    then some (some ended_cannot_add, a)
    else if has_sku k.sku_no a
    then some (some sku_already_exists, a)
    else recording (sku_added a.activity_no k.sku_no k.total_stock k.seckill_price)
        (record a { skus = a.skus ++ (k ∷ []) })

-- The first entry with the number is cut out.
unfoldable pub remove_first : String → List Sku → List Sku
remove_first n [] = []
remove_first n (k ∷ rest) =
    let others = remove_first n rest in if str_eq k.sku_no n then rest else k ∷ others

unfoldable pub remove_sku : String → String → Activity → Answer
unfolding has_sku remove_first
remove_sku n reason a =
    if eq_ℤ a.status (pos 1)
    then some (some open_cannot_remove, a)
    else if eq_ℤ a.status (pos 3)
    then some (some ended_cannot_remove, a)
    else if not (has_sku n a)
    then some (some sku_not_found, a)
    else recording (sku_removed a.activity_no n reason) (record a { skus = remove_first n a.skus })

unfoldable pub can_modify : Activity → Bool
can_modify a = not (eq_ℤ a.status (pos 3))

unfoldable pub can_remove_products : Activity → Bool
can_remove_products a = not (eq_ℤ a.status (pos 1))

-- The value objects are seen through their texts and the limit.
pub record PendingActivityParams : Type 0 where
  pub activity_no : String
  pub name : String
  pub start_time : ℤ
  pub end_time : ℤ
  pub purchase_limit : ℤ
  pub remark : String
  pub created_at : ℤ

-- `Activity{...}` leaves the aggregate root nil.
unfoldable pub new_pending : PendingActivityParams → Option Activity
new_pending p =
    if str_eq p.activity_no "" || str_eq p.name ""
    then none
    else if eq_ℤ p.start_time (pos 0)
        || eq_ℤ p.end_time (pos 0)
        || not (lt_ℤ p.start_time p.end_time)
    then none
    else if eq_ℤ p.created_at (pos 0) || le_ℤ p.purchase_limit (pos 0)
    then none
    else some (record {
      root = none;
      activity_no = p.activity_no;
      name = p.name;
      start_time = p.start_time;
      end_time = p.end_time;
      status = pos 0;
      purchase_limit = p.purchase_limit;
      remark = p.remark;
      skus = [];
      created_at = p.created_at;
      updated_at = pos 0;
    })
