-- ===== src/Activity/Status.antt =====
-- services/activity-service/internal/domain: the entities, and the status machine of
-- status/activity.go. A time of 0 is Go's zero time.
use seckill_go.Prelude.{
  if◌then◌else◌, ℤ, pos, lt_ℤ, eq_ℤ, String, Bool, true, false, not, ◌&&◌, ◌||◌, Option, none, some,
  List, [], ◌∷◌,
}

pub record Sku : Type 0 where
  pub activity_no : String
  pub sku_no : String
  pub product_name : String
  pub product_image : String
  pub original_price : ℤ
  pub seckill_price : ℤ
  pub total_stock : ℤ
  pub limit_quantity : ℤ
  pub discount_type : ℤ
  pub discount_price : ℤ
  pub discount_pct : ℤ

unfoldable pub effective_limit : Sku → ℤ → ℤ
effective_limit k activity_limit =
    if lt_ℤ (pos 0) k.limit_quantity then k.limit_quantity else activity_limit

unfoldable pub has_stock : Sku → Bool
has_stock k = lt_ℤ (pos 0) k.total_stock

-- The events of internal/domain/event/activity_events.go.
pub data ActivityEvent : Type 0 where
  activity_started : (activity_no : String) (started_at : ℤ) → ActivityEvent
  activity_ended : (activity_no reason : String) (ended_at : ℤ) → ActivityEvent
  sku_added : (activity_no sku_no : String) (stock price : ℤ) → ActivityEvent
  sku_removed : (activity_no sku_no reason : String) → ActivityEvent

-- The statuses are 0 pending, 1 open, 2 paused and 3 ended; `root` is the embedded pointer to the
-- aggregate root, `none` where it is nil, else its uncommitted events.
pub record Activity : Type 0 where
  pub root : Option (List ActivityEvent)
  pub activity_no : String
  pub name : String
  pub start_time : ℤ
  pub end_time : ℤ
  pub status : ℤ
  pub purchase_limit : ℤ
  pub remark : String
  pub skus : List Sku
  pub created_at : ℤ
  pub updated_at : ℤ

-- `ActivityAllowedTransitions`
unfoldable pub activity_allowed_transitions : ℤ → Option (List ℤ)
activity_allowed_transitions s =
    if eq_ℤ s (pos 0)
    then some (pos 1 ∷ pos 3 ∷ [])
    else if eq_ℤ s (pos 1)
    then some (pos 2 ∷ pos 3 ∷ [])
    else if eq_ℤ s (pos 2)
    then some (pos 1 ∷ pos 3 ∷ [])
    else if eq_ℤ s (pos 3)
    then some []
    else none

-- `slices.Contains`
unfoldable pub has_status : ℤ → List ℤ → Bool
has_status s [] = false
has_status s (t ∷ rest) = eq_ℤ t s || has_status s rest

unfoldable pub can_activity_transition_to : ℤ → ℤ → Bool
unfolding activity_allowed_transitions has_status
can_activity_transition_to from to = elim (activity_allowed_transitions from) [
  | none ↦ false
  | some targets ↦ has_status to targets
]

unfoldable pub transit_activity : Activity → ℤ → ℤ → Activity × Bool
unfolding can_activity_transition_to
transit_activity a target now =
    if eq_ℤ a.status target
    then (a, true)
    else if not (can_activity_transition_to a.status target)
    then (a, false)
    else (record a { status = target; updated_at = now }, true)

unfoldable pub is_activity_open : Activity → ℤ → Bool
is_activity_open a now = eq_ℤ a.status (pos 1) && not (lt_ℤ now a.start_time) && lt_ℤ now a.end_time
