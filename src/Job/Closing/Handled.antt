-- ===== src/Job/Closing/Handled.antt =====
-- What the closing job may leave in the journal of its calls, and that one turn of its loop does.
use seckill_go.Prelude.{
  if◌then◌else◌, Option-cases, ℤ, pos, le_ℤ, sub_time, ℕ, suc, ◌≡◌, refl, inl, inr, Bool, true,
  false, ◌&&◌, Option, none, some, List, [], ◌∷◌, ◌++◌, arith, str_eq,
}
use seckill_go.Job.Model.{Order, JobError, order_pending}
use seckill_go.Job.Closing.{ClosingServices, TimeoutOrderResult}
use seckill_go.Job.Closing.Calls.{
  Call, closed_order, voided, succeeded, release_of, counted, turn, closing, releasing,
  refused_turn, unreleased_turn, whole_turn,
}

-- The orders that are pending and at least fifteen minutes old, in their order.
abbrev pub overdue_one : ℤ → Order → Bool
overdue_one now o =
    str_eq o.status order_pending && le_ℤ (pos 900000000000) (sub_time now o.created_at)

unfoldable pub overdue : ℤ → List Order → List Order
overdue now [] = []
overdue now (o ∷ rest) =
    let later = overdue now rest in if overdue_one now o then o ∷ later else later

-- The orders of the first list, the last first, in front of the second.
unfoldable pub reverse_onto : List Order → List Order → List Order
reverse_onto [] handled = handled
reverse_onto (o ∷ rest) handled = reverse_onto rest (o ∷ handled)

-- The journal for a list of orders, the latest first in both: each order refused, or closed, then
-- its stock released, then its payment voided; the number counts those closed.
pub data Trail : List Order → List Call → ℕ → Type 0 where
  untouched : Trail [] [] 0
  refused :
      {os : List Order} {js : List Call} {n : ℕ} (o : Order)
      → Trail os js n
      → Trail (o ∷ os) (closed_order o.order_no false ∷ js) n
  settled :
      {os : List Order} {js : List Call} {n : ℕ} (o : Order)
      → Trail os js n
      → Trail
          (o ∷ os)
          (voided o.order_no ∷ release_of o true ∷ closed_order o.order_no true ∷ js)
          (suc n)

-- The journal of a run that failed at the latest of its orders, with the numbers of orders closed
-- and of stock released: at the closing, at the release or at the payment.
pub data Stopped : List Order → List Call → ℕ → ℕ → Type 0 where
  at_closing :
      {os : List Order} {js : List Call} {n : ℕ} (o : Order)
      → Trail os js n
      → Stopped (o ∷ os) (closed_order o.order_no false ∷ js) n n
  at_release :
      {os : List Order} {js : List Call} {n : ℕ} (o : Order)
      → Trail os js n
      → Stopped (o ∷ os) (release_of o false ∷ closed_order o.order_no true ∷ js) (suc n) n
  at_payment :
      {os : List Order} {js : List Call} {n : ℕ} (o : Order)
      → Trail os js n
      → Stopped
          (o ∷ os)
          (voided o.order_no ∷ release_of o true ∷ closed_order o.order_no true ∷ js)
          (suc n)
          (suc n)

-- What was handled, the latest first, without an error or up to the one that failed.
abbrev pub Went : List Order → TimeoutOrderResult → Option JobError → List Call → Type 0
Went os r none js = Trail os js r.closed × (r.closed ≡ r.stock_released)
Went os r (some e) js = Stopped os js r.closed r.stock_released

-- After `handled`, the latest first, all of `due` was handled in its order, or a front of it, at the
-- last order of which the run failed.
abbrev pub Ends :
    List Order → List Order → TimeoutOrderResult → Option JobError → List Call → Type 0
Ends handled due r none js =
    Trail (reverse_onto due handled) js r.closed × (r.closed ≡ r.stock_released)
Ends handled due r (some e) js =
    (front rest : List Order) × (due ≡ front ++ rest)
    × Stopped (reverse_onto front handled) js r.closed r.stock_released

module _ (o : Order) (n : ℕ) (os : List Order) (js : List Call) (trail : Trail os js n)
    (r : TimeoutOrderResult) where
  after_refusal :
      (error : Option JobError) (js' : List Call)
      → r ≡ counted n n
      → js' ≡ closed_order o.order_no false ∷ js
      → Went (o ∷ os) r error js'
  after_refusal none js' er ej = rw (er, ej) (refused o trail, refl)
  after_refusal (some e) js' er ej = rw (er, ej) (at_closing o trail)

  after_release :
      (error : Option JobError) (js' : List Call)
      → r ≡ counted (suc n) n
      → succeeded error ≡ false
      → js' ≡ release_of o false ∷ closed_order o.order_no true ∷ js
      → Went (o ∷ os) r error js'
  after_release none js' er fails ej = absurd (ground (arith, fails))
  after_release (some e) js' er fails ej = rw (er, ej) (at_release o trail)

  after_all :
      (error : Option JobError) (js' : List Call)
      → r ≡ counted (suc n) (suc n)
      → js' ≡ voided o.order_no ∷ release_of o true ∷ closed_order o.order_no true ∷ js
      → Went (o ∷ os) r error js'
  after_all none js' er ej = rw (er, ej) (settled o trail, refl)
  after_all (some e) js' er ej = rw (er, ej) (at_payment o trail)

module _ {W : Type 0} (g : ClosingServices W) (stock : g.has_stock ≡ true)
    (payments : g.has_payments ≡ true) where
  pub turn-Went :
      (o : Order) (n : ℕ) (os : List Order) (js : List Call) (w : W)
      → Trail os js n
      → Went (o ∷ os) (turn g o n js w).0 (turn g o n js w).1.0 (turn g o n js w).1.1.0
  turn-Went o n os js w trail = elim (Option-cases (closing g o n js w).0) [
    | inr (e, failed) ↦
        let (er, es, ej) = refused_turn g o n js w e failed in
        after_refusal o n os js trail _ _ _ er ej
    | inl closed ↦ elim (Option-cases (releasing g o n js w).0) [
      | inr (e, failed) ↦
          let (er, es, ej) = unreleased_turn g o n js w e stock closed failed in
          after_release o n os js trail _ _ _ er es ej
      | inl done ↦
          let (er, ej) = whole_turn g o n js w stock payments closed done in
          after_all o n os js trail _ _ _ er ej
    ]
  ]
