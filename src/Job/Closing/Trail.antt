-- ===== src/Job/Closing/Trail.antt =====
-- The loop of the closing job over the orders of an activity, read from a journal.
use mathlib.Core.Path.{subst}
use seckill_go.Prelude.{
  Bool-cases, Option-cases, ℤ, ℕ, ◌≡◌, refl, sym, ap, ◌∙◌, inl, inr, true, false, Option, none,
  some, List, [], ◌∷◌, arith,
}
use seckill_go.Job.Model.{Order, JobError}
use seckill_go.Job.Closing.{
  ClosingServices, TimeoutOrderResult, is_overdue, close_overdue, close_pending_orders,
  close_activity_pending_orders,
}
use seckill_go.Job.Closing.Calls.{Call, recorded, counted, turn}
use seckill_go.Job.Closing.Handled.{
  overdue_one, overdue, reverse_onto, Trail, untouched, Went, Ends, turn-Went,
}

module _ {W : Type 0} (g : ClosingServices W) (o : Order) (rest : List Order) (now : ℤ)
    (r : TimeoutOrderResult) (w : W) where
  loop_skips :
      is_overdue now o ≡ false
      → close_pending_orders g (o ∷ rest) now r w ≡ close_pending_orders g rest now r w
  unfolding close_pending_orders
  loop_skips early = ground (arith, early)

  loop_goes_on :
      is_overdue now o ≡ true
      → (close_overdue g o r w).1.0 ≡ none
      → close_pending_orders g (o ∷ rest) now r w
        ≡ close_pending_orders g rest now (close_overdue g o r w).0 (close_overdue g o r w).1.1
  unfolding close_pending_orders
  loop_goes_on late fine = ground (arith, late, fine)

  loop_stops :
      (e : JobError)
      → is_overdue now o ≡ true
      → (close_overdue g o r w).1.0 ≡ some e
      → close_pending_orders g (o ∷ rest) now r w
        ≡ ((close_overdue g o r w).0, (some e, (close_overdue g o r w).1.1))
  unfolding close_pending_orders
  loop_stops e late failed = ground (arith, late, failed)

evened : (r : TimeoutOrderResult) → r.closed ≡ r.stock_released → r ≡ counted r.closed r.closed
evened r even = ground arith

overdue_agrees : (now : ℤ) (o : Order) → overdue_one now o ≡ is_overdue now o
unfolding is_overdue
overdue_agrees now o = ground arith

-- An order more in front of those that are due.
later-Ends :
    (o : Order) (handled due : List Order) (r : TimeoutOrderResult) (error : Option JobError)
    (js : List Call)
    → Ends (o ∷ handled) due r error js
    → Ends handled (o ∷ due) r error js
unfolding reverse_onto
later-Ends o handled due r none js ends = ends
later-Ends o handled due r (some e) js (front, rest, split, stopped) =
    (o ∷ front, rest, ap (λ os. o ∷ os) split, stopped)

stopped-Ends :
    (o : Order) (handled due : List Order) (r : TimeoutOrderResult) (e : JobError) (js : List Call)
    → Went (o ∷ handled) r (some e) js
    → Ends handled (o ∷ due) r (some e) js
unfolding reverse_onto
stopped-Ends o handled due r e js stopped = (o ∷ [], due, refl, stopped)

loop-Ends :
    {W : Type 0} (g : ClosingServices W) (orders : List Order) (now : ℤ) (n : ℕ)
    (handled : List Order) (js : List Call) (w : W)
    → g.has_stock ≡ true
    → g.has_payments ≡ true
    → Trail handled js n
    → let (r', (error, (js', w'))) =
        close_pending_orders (recorded g) orders now (counted n n) (js, w) in
      Ends handled (overdue now orders) r' error js'
unfolding close_pending_orders turn overdue reverse_onto
loop-Ends g [] now n handled js w stock payments trail = (trail, refl)
loop-Ends g (o ∷ rest) now n handled js w stock payments trail =
    elim (Bool-cases (is_overdue now o)) [
      | inl late ↦
          let t = close_overdue (recorded g) o (counted n n) (js, w) in
          let went = turn-Went g stock payments o n handled js w trail in
          let listed : overdue_one now o ≡ true = overdue_agrees now o ∙ late in
          elim (Option-cases t.1.0) [
            | inl fine ↦
                let (trail', even) = subst (λ x. Went (o ∷ handled) t.0 x t.1.1.0) fine went in
                let after =
                  loop-Ends g rest now t.0.closed (o ∷ handled) t.1.1.0 t.1.1.1 stock payments
                    trail' in
                rw (loop_goes_on (recorded g) o rest now (counted n n) (js, w) late fine, listed)
                  (later-Ends o handled (overdue now rest) _ _ _ (
                    subst
                      (λ r.
                        let (r', (error, (js', w'))) =
                          close_pending_orders (recorded g) rest now r t.1.1 in
                        Ends (o ∷ handled) (overdue now rest) r' error js')
                      (sym (evened t.0 even)) after))
            | inr (e, failed) ↦
                rw (loop_stops (recorded g) o rest now (counted n n) (js, w) e late failed, listed)
                  (stopped-Ends o handled (overdue now rest) t.0 e t.1.1.0
                    (subst (λ x. Went (o ∷ handled) t.0 x t.1.1.0) failed went))
          ]
      | inr early ↦
          rw
            (
              loop_skips (recorded g) o rest now (counted n n) (js, w) early,
              overdue_agrees now o ∙ early,
            )
            (loop-Ends g rest now n handled js w stock payments trail)
    ]

-- With stock and payment services, closing the orders of an activity goes over the orders that are
-- overdue at the time read, each once and in their order, and asks for this and nothing else: to
-- close the order and, where that succeeded, to release the stock of its own product, quantity,
-- user and number, and then to void its payment. Without an error all of them were gone over, and as
-- many were closed as stock was released, which are the two counters; with one, the run stopped at
-- the order whose call failed, and one order more was closed than stock was released only where
-- that was a release.
pub close_activity_pending_orders-Ends :
    {W : Type 0} (g : ClosingServices W) (orders : List Order) (w : W)
    → g.has_stock ≡ true
    → g.has_payments ≡ true
    → let (r, (error, (js, w'))) = close_activity_pending_orders (recorded g) orders ([], w) in
      Ends [] (overdue (g.now w).0 orders) r error js
unfolding close_activity_pending_orders
close_activity_pending_orders-Ends g orders w stock payments =
    loop-Ends g orders (g.now w).0 0 [] [] (g.now w).1 stock payments untouched
