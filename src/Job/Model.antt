-- ===== src/Job/Model.antt =====
-- services/seckill-job/internal/domain/entity, and the gateways and selections of
-- internal/application/job/job.go. A time of 0 is Go's zero time.
pub mod Transition
use seckill_go.Prelude.{
  if◌then◌else◌, get_or, ℤ, pos, lt_ℤ, eq_ℤ, add64, Assoc, lookup, decimal, ℕ, suc, String, append,
  Bool, false, not, ◌&&◌, ◌||◌, Option, none, some, List, [], ◌∷◌, ◌++◌, str_eq,
}

pub record Sku : Type 0 where
  pub activity_no : String
  pub sku_no : String
  pub total_stock : ℤ

pub record Activity : Type 0 where
  pub activity_no : String
  pub name : String
  pub start_time : ℤ
  pub end_time : ℤ
  pub status : ℤ
  pub purchase_limit : ℤ
  pub remark : String
  pub skus : List Sku
  pub created_at : ℤ
  pub updated_at : ℤ

pub record Order : Type 0 where
  pub order_no : String
  pub user_id : ℤ
  pub activity_no : String
  pub sku_no : String
  pub quantity : ℤ
  pub pay_amount : ℤ
  pub status : String
  pub transaction_no : String
  pub paid_at : Option ℤ
  pub created_at : ℤ

pub record PayQueryResult : Type 0 where
  pub order_no : String
  pub pay_status : ℤ
  pub transaction_no : String
  pub paid_at : Option ℤ

pub record SyncedOrder : Type 0 where
  pub order_no : String

-- An error, with the sentinels that `errors.Is` finds in its chain.
pub record JobError : Type 0 where
  pub message : String
  pub is_invalid_state : Bool
  pub is_not_found : Bool
  pub is_circuit_open : Bool

-- `fmt.Errorf(prefix + ": %w", err)`
abbrev pub wrap : String → JobError → JobError
wrap prefix e = record e { message = append prefix (append ": " e.message) }

-- `len`
abbrev pub number_of : List String → ℕ
number_of [] = 0
number_of (n ∷ ns) = suc (number_of ns)

-- A text with `%d` of a length in it.
unfoldable pub numbered : String → List String → String → String
numbered before_it ns after_it = append before_it (append (decimal (pos (number_of ns))) after_it)

abbrev pub order_pending : String
order_pending = "PENDING_PAY"

abbrev pub order_paid : String
order_paid = "PAID"

-- `t.After(u)`, `t.Before(u)`, `t.IsZero()`
abbrev pub after : ℤ → ℤ → Bool
after t u = lt_ℤ u t

abbrev pub before : ℤ → ℤ → Bool
before t u = lt_ℤ t u

abbrev pub is_zero : ℤ → Bool
is_zero t = eq_ℤ t (pos 0)

-- The activity statuses are 0 pending, 1 open, 2 paused and 3 ended.
unfoldable pub next_activity_status : Activity → ℤ → Option ℤ
next_activity_status a now =
    if eq_ℤ a.status (pos 0)
    then (if is_zero a.start_time || after a.start_time now
        then none
        else if is_zero a.end_time || after a.end_time now
        then some (pos 1)
        else some (pos 3))
    else if eq_ℤ a.status (pos 1)
    then (if not (is_zero a.end_time) && not (after a.end_time now) then some (pos 3) else none)
    else none

unfoldable pub is_ended_activity : Activity → ℤ → Bool
is_ended_activity a now =
    eq_ℤ a.status (pos 3) || not (is_zero a.end_time) && not (after a.end_time now)

unfoldable pub should_reconcile_activity : Activity → ℤ → Bool
unfolding is_ended_activity
should_reconcile_activity a now = eq_ℤ a.status (pos 1) || is_ended_activity a now

unfoldable pub should_cleanup_activity_data : Activity → ℤ → Bool
should_cleanup_activity_data a threshold =
    eq_ℤ a.status (pos 3) && not (is_zero a.end_time) && before a.end_time threshold

unfoldable pub is_active_activity : Activity → ℤ → Bool
is_active_activity a now =
    eq_ℤ a.status (pos 1) && not (after a.start_time now) && after a.end_time now

unfoldable pub is_upcoming_activity : Activity → ℤ → ℤ → Bool
is_upcoming_activity a now deadline =
    eq_ℤ a.status (pos 0) && after a.start_time now && not (after a.start_time deadline)

-- The activities that a loop with `continue` keeps.
unfoldable pub selected : (Activity → Bool) → List Activity → List Activity
selected keep [] = []
selected keep (a ∷ rest) = let others = selected keep rest in if keep a then a ∷ others else others

unfoldable pub sku_nos : List Sku → List String
sku_nos [] = []
sku_nos (k ∷ rest) =
    let others = sku_nos rest in if not (str_eq k.sku_no "") then k.sku_no ∷ others else others

unfoldable pub activity_nos : List Activity → List String
activity_nos [] = []
activity_nos (a ∷ rest) =
    let others = activity_nos rest in
    if not (str_eq a.activity_no "") then a.activity_no ∷ others else others

unfoldable pub total_init_stock : List Sku → ℤ → ℤ
total_init_stock [] total = total
total_init_stock (k ∷ rest) total = total_init_stock rest (add64 total k.total_stock)

-- Whether the set of the numbers seen so far, which is that of the values, has the number.
unfoldable pub holds : String → List String → Bool
holds n [] = false
holds n (m ∷ rest) = str_eq m n || holds n rest

-- The loop over the orders of one activity; `values` are the numbers so far.
unfoldable pub add_order_nos : (Order → Bool) → List Order → List String → List String
unfolding holds
add_order_nos include [] values = values
add_order_nos include (o ∷ rest) values = add_order_nos include rest (
    if str_eq o.order_no "" || not (include o) || holds o.order_no values
    then values
    else values ++ (o.order_no ∷ []))

unfoldable pub order_nos_for :
    (Order → Bool) → List Activity → Assoc (List Order) → List String → List String
unfolding add_order_nos
order_nos_for include [] orders values = values
order_nos_for include (a ∷ rest) orders values =
    order_nos_for include rest orders
      (add_order_nos include (get_or (lookup a.activity_no orders) []) values)

unfoldable pub payment_order_nos : List Activity → Assoc (List Order) → List String
unfolding order_nos_for
payment_order_nos activities orders =
    order_nos_for (λ o. str_eq o.status order_pending || str_eq o.status order_paid) activities
      orders []

unfoldable pub paid_order_nos : List Activity → Assoc (List Order) → List String
unfolding order_nos_for
paid_order_nos activities orders =
    order_nos_for (λ o. str_eq o.status order_paid) activities orders []
