-- ===== src/Order/Status.antt =====
-- services/order-service/internal/domain/status/order.go: the table of allowed transitions and the
-- two transitions that the stores apply to an order value.
pub mod Agreement
use seckill_go.Prelude.{
  if◌then◌else◌, ℤ, String, Bool, true, false, not, ◌||◌, Option, none, some, List, [], ◌∷◌, str_eq,
}
use seckill_go.Order.Entity.{OrderStatus, pending, paid, closed, refunded, other, Order}

-- Equality of the status texts.
abbrev pub status_eq : OrderStatus → OrderStatus → Bool
status_eq pending pending = true
status_eq paid paid = true
status_eq closed closed = true
status_eq refunded refunded = true
status_eq (other s) (other t) = str_eq s t
status_eq _ _ = false

-- `OrderAllowedTransitions`; a text that is not a key has no targets.
order_allowed_transitions : OrderStatus → Option (List OrderStatus)
order_allowed_transitions pending = some (paid ∷ closed ∷ [])
order_allowed_transitions paid = some []
order_allowed_transitions closed = some []
order_allowed_transitions refunded = none
order_allowed_transitions (other s) = none

-- `slices.Contains`
holds : OrderStatus → List OrderStatus → Bool
holds to [] = false
holds to (s ∷ rest) = status_eq s to || holds to rest

unfoldable pub can_order_transition_to : OrderStatus → OrderStatus → Bool
unfolding order_allowed_transitions holds
can_order_transition_to from to = elim (order_allowed_transitions from) [
  | none ↦ false
  | some targets ↦ holds to targets
]

unfoldable pub transit_order_paid : Order → String → ℤ → Order × Bool
unfolding can_order_transition_to
transit_order_paid o transaction_no paid_at =
    if status_eq o.status paid
    then (o, true)
    else if not (can_order_transition_to o.status paid)
    then (o, false)
    else (record o { status = paid; transaction_no = transaction_no; paid_at = some paid_at }, true)

unfoldable pub transit_order_closed : Order → ℤ → Order × Bool
unfolding can_order_transition_to
transit_order_closed o closed_at =
    if status_eq o.status closed
    then (o, true)
    else if not (can_order_transition_to o.status closed)
    then (o, false)
    else (record o { status = closed; closed_at = some closed_at }, true)
