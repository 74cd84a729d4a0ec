-- ===== src/Order/Entity/Lifecycle.antt =====
-- The life of an order aggregate, from its creation through any payments and closings.
use seckill_go.Prelude.{ℤ, String, ◌≡◌, refl, none, some, List, [], ◌∷◌, arith, ◌⊎◌}
use seckill_go.Order.Entity.{
  pending, paid, closed, OrderEvent, order_created, order_paid, order_closed, Order, mark_as_paid,
  close,
}

pub data Command : Type 0 where
  pay : (transaction_no : String) (amount paid_at : ℤ) → Command
  shut : (closed_at : ℤ) → Command

pub obey : Command → Order → Order
obey (pay txn amount at) o = (mark_as_paid txn amount at o).1
obey (shut at) o = (close at o).1

pub live : List Command → Order → Order
live [] o = o
live (c ∷ cs) o = live cs (obey c o)

-- The event of the creation, which carries a time of its own.
abbrev pub created_event : ℤ → Order → OrderEvent
created_event later o =
    order_created o.order_no o.user_id o.activity_no o.sku_no o.quantity o.pay_amount later

-- The three shapes that an order can have: what its status, its times and its event log say agree.
-- `later` is the time that the event of the creation carries.
pub data Shape (later : ℤ) (o : Order) : Type 0 where
  waiting :
      o.status ≡ pending
      → o.paid_at ≡ none
      → o.closed_at ≡ none
      → o.uncommitted_events ≡ created_event later o ∷ []
      → Shape later o
  settled :
      (at : ℤ)
      → o.status ≡ paid
      → o.paid_at ≡ some at
      → o.closed_at ≡ none
      → o.uncommitted_events
        ≡ created_event later o
          ∷ order_paid o.order_no o.user_id o.transaction_no o.pay_amount at
          ∷ []
      → Shape later o
  shut_down :
      (at : ℤ)
      → o.status ≡ closed
      → o.paid_at ≡ none
      → o.closed_at ≡ some at
      → o.uncommitted_events
        ≡ created_event later o ∷ order_closed o.order_no o.user_id "user_closed" at ∷ []
      → Shape later o

abbrev pub IsSettled : Order → Type 0
IsSettled o = (o.status ≡ paid) ⊎ (o.status ≡ closed)

obey_settled : (c : Command) (o : Order) → IsSettled o → obey c o ≡ o
unfolding obey mark_as_paid close
obey_settled (pay txn amount at) o h = ground arith
obey_settled (shut at) o h = ground arith

-- A paid or closed order is changed by no payment and no closing.
pub live_settled : (cs : List Command) (o : Order) → IsSettled o → live cs o ≡ o
unfolding live
live_settled [] o h = refl
live_settled (c ∷ cs) o h = rw (obey_settled c o h) (live_settled cs o h)
