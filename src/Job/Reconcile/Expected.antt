-- ===== src/Job/Reconcile/Expected.antt =====
-- What the reconciliation counts against a count over the orders and the payments.
use mathlib.Core.Path.{subst}
use seckill_go.Prelude.{
  Bool-cases, Option-cases, pos, eq_ℤ, Assoc, lookup, ℕ, suc, ◌+◌, ◌≤◌, ◌<◌, ◌≡◌, inl, inr, Bool,
  true, false, not, ◌&&◌, ◌||◌, Option, none, some, List, [], ◌∷◌, arith,
}
use seckill_go.Job.Model.{Order, PayQueryResult, JobError}
use seckill_go.Job.Reconcile.{
  ReconcileServices, Tally, is_pending, is_paid, one_checked, compensate, reconcile_order,
  reconcile_orders,
}

abbrev pub is_checked : Order → Bool
is_checked o = is_pending o || is_paid o

-- A pending order that was paid for.
abbrev pub is_missed : Option PayQueryResult → Order → Bool
is_missed none o = false
is_missed (some query) o = is_pending o && eq_ℤ query.pay_status (pos 1)

-- A paid order without a payment.
abbrev pub is_unfounded : Option PayQueryResult → Order → Bool
is_unfounded none o = is_paid o
is_unfounded (some query) o = is_paid o && not (eq_ℤ query.pay_status (pos 1))

abbrev one_if : Bool → ℕ
one_if true = 1
one_if false = 0

pub checked_in : List Order → ℕ
checked_in [] = 0
checked_in (o ∷ rest) = one_if (is_checked o) + checked_in rest

pub missed_in : Assoc PayQueryResult → List Order → ℕ
missed_in queries [] = 0
missed_in queries (o ∷ rest) =
    one_if (is_missed (lookup o.order_no queries) o) + missed_in queries rest

pub unfounded_in : Assoc PayQueryResult → List Order → ℕ
unfounded_in queries [] = 0
unfounded_in queries (o ∷ rest) =
    one_if (is_unfounded (lookup o.order_no queries) o) + unfounded_in queries rest

-- From a tally on: without an error every pending or paid order is checked, each compensation and
-- each paid order without a payment is a mismatch, and no more are compensated than were missed;
-- with one, at least one that was missed is not compensated.
abbrev pub IsTallied : Tally → ℕ → ℕ → ℕ → Option JobError → Tally → Type 0
IsTallied t checked missed unfounded none t' =
    (t'.checked ≡ t.checked + checked)
    × (t'.mismatches + t.compensated ≡ t.mismatches + t'.compensated + unfounded)
    × (t'.compensated ≤ t.compensated + missed)
IsTallied t checked missed unfounded (some e) t' =
    (t'.checked ≤ t.checked + checked) × (t'.compensated < t.compensated + missed)

turn-IsTallied :
    {W : Type 0} (g : ReconcileServices W) (o : Order) (m : Option PayQueryResult) (t : Tally)
    (w : W)
    → let (t', (error, w')) = reconcile_order g o m t w in
      IsTallied t 0 (one_if (is_missed m o)) (one_if (is_unfounded m o)) error t'
unfolding reconcile_order compensate
turn-IsTallied g o none t w = ground arith
turn-IsTallied g o (some query) t w = ground arith

chained :
    (t t1 t2 : Tally) (m u n' m' u' : ℕ) (e : Option JobError)
    → IsTallied (one_checked t) 0 m u none t1
    → IsTallied t1 n' m' u' e t2
    → IsTallied t (suc n') (m + m') (u + u') e t2
chained t t1 t2 m u n' m' u' none h k = ground arith
chained t t1 t2 m u n' m' u' (some e) h k = ground arith

stopped :
    (t t1 : Tally) (m u n' m' u' : ℕ) (e : JobError)
    → IsTallied (one_checked t) 0 m u (some e) t1
    → IsTallied t (suc n') (m + m') (u + u') (some e) t1
stopped t t1 m u n' m' u' e h = ground arith

module _ {W : Type 0} (g : ReconcileServices W) (o : Order) (rest : List Order)
    (queries : Assoc PayQueryResult) (t : Tally) (w : W) where
  turn : Tally × (Option JobError × W)
  turn = reconcile_order g o (lookup o.order_no queries) (one_checked t) w

  loop_skips :
      is_checked o ≡ false
      → reconcile_orders g (o ∷ rest) queries t w ≡ reconcile_orders g rest queries t w
  unfolding reconcile_orders
  loop_skips other_status = ground (arith, other_status)

  loop_goes_on :
      is_checked o ≡ true
      → turn.1.0 ≡ none
      → reconcile_orders g (o ∷ rest) queries t w ≡ reconcile_orders g rest queries turn.0 turn.1.1
  unfolding reconcile_orders turn
  loop_goes_on checked fine = ground (arith, checked, fine)

  loop_stops :
      (e : JobError)
      → is_checked o ≡ true
      → turn.1.0 ≡ some e
      → reconcile_orders g (o ∷ rest) queries t w ≡ (turn.0, (some e, turn.1.1))
  unfolding reconcile_orders turn
  loop_stops e checked failed = ground (arith, checked, failed)

  unchecked :
      is_checked o ≡ false
      → (checked_in (o ∷ rest) ≡ checked_in rest)
        × (missed_in queries (o ∷ rest) ≡ missed_in queries rest)
        × (unfounded_in queries (o ∷ rest) ≡ unfounded_in queries rest)
  unfolding checked_in missed_in unfounded_in
  unchecked other_status = elim (Option-cases (lookup o.order_no queries)) [
    | inl absent ↦ ground (arith, absent, other_status)
    | inr (query, there) ↦ ground (arith, there, other_status)
  ]

  checked_first : is_checked o ≡ true → checked_in (o ∷ rest) ≡ suc (checked_in rest)
  unfolding checked_in
  checked_first checked = ground (arith, checked)

nothing_checked :
    {W : Type 0} (g : ReconcileServices W) (queries : Assoc PayQueryResult) (t : Tally) (w : W)
    → let (t', (error, w')) = reconcile_orders g [] queries t w in
      IsTallied t (checked_in []) (missed_in queries []) (unfounded_in queries []) error t'
unfolding reconcile_orders checked_in missed_in unfounded_in
nothing_checked g queries t w = ground arith

-- From whatever tally and world it starts, the loop over the orders of an activity counts what a count
-- over the list and the payments gives: without an error `Checked` grows by the number of pending and
-- paid orders, `MismatchCount` by the compensations and the paid orders without a payment, and no
-- more are compensated than were pending and paid for; with an error fewer are.
pub reconcile_orders-IsTallied :
    {W : Type 0} (g : ReconcileServices W) (orders : List Order) (queries : Assoc PayQueryResult)
    (t : Tally) (w : W)
    → let (t', (error, w')) = reconcile_orders g orders queries t w in
      IsTallied t
        (checked_in orders)
        (missed_in queries orders)
        (unfounded_in queries orders)
        error
        t'
unfolding turn missed_in unfounded_in
reconcile_orders-IsTallied g [] queries t w = nothing_checked g queries t w
reconcile_orders-IsTallied g (o ∷ rest) queries t w = elim (Bool-cases (is_checked o)) [
  | inr other_status ↦
      let (nothing, missed, unfounded) = unchecked g o rest queries t w other_status in
      rw (loop_skips g o rest queries t w other_status, nothing, missed, unfounded)
        (reconcile_orders-IsTallied g rest queries t w)
  | inl checked ↦
      let one = turn-IsTallied g o (lookup o.order_no queries) (one_checked t) w in
      let m = one_if (is_missed (lookup o.order_no queries) o) in
      let u = one_if (is_unfounded (lookup o.order_no queries) o) in
      let t1 = turn g o rest queries t w in
      elim (Option-cases t1.1.0) [
        | inl fine ↦
            rw
              (
                loop_goes_on g o rest queries t w checked fine,
                checked_first g o rest queries t w checked,
              )
              (chained t t1.0 _ _ _ _ _ _ _
                (subst (λ e. IsTallied (one_checked t) 0 m u e t1.0) fine one)
                (reconcile_orders-IsTallied g rest queries t1.0 t1.1.1))
        | inr (e, failed) ↦
            rw
              (
                loop_stops g o rest queries t w e checked failed,
                checked_first g o rest queries t w checked,
              )
              (stopped t t1.0 m u (checked_in rest) (missed_in queries rest)
                (unfounded_in queries rest) e
                (subst (λ e. IsTallied (one_checked t) 0 m u e t1.0) failed one))
      ]
]
