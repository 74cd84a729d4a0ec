-- ===== src/Order/Store/Final.antt =====
-- Paid and closed orders in the store are final, whichever call comes first.
use seckill_go.Prelude.{
  if◌then◌else◌, Bool-cases, Option-cases, ℤ, lookup, lookup-insert, String, ◌≡◌, refl, ◌∙◌, inl,
  inr, false, none, some, List, [], ◌∷◌, arith, str_eq, eq_iff, eq_refl,
}
use seckill_go.Order.Entity.{Order, pending, paid, closed}
use seckill_go.Order.Entity.Lifecycle.{IsSettled}
use seckill_go.Order.Status.{transit_order_paid, transit_order_closed}
use seckill_go.Order.Store.{MemoryStore, create, mark_order_paid, close_order, invalid_state, found}

pub data Call : Type 0 where
  create_call : Order → Call
  pay_call : (order_no transaction_no : String) (paid_at : ℤ) → Call
  close_call : (order_no : String) (now : ℤ) → Call

pub serve : Call → MemoryStore → MemoryStore
serve (create_call o) s = (create o s).1
serve (pay_call n txn at) s = (mark_order_paid n txn at s).1
serve (close_call n now) s = (close_order n now s).1

pub serve_all : List Call → MemoryStore → MemoryStore
serve_all [] s = s
serve_all (c ∷ cs) s = serve_all cs (serve c s)

create_keeps :
    (n : String) (o o' : Order) (s : MemoryStore)
    → lookup n s ≡ some o
    → lookup n (create o' s).1 ≡ some o
unfolding create
create_keeps n o o' s h = ground (arith, lookup-insert o'.order_no n o' s, eq_iff o'.order_no n)

-- A settled order comes out of both transitions as it went in.
paid_settled :
    (o : Order) (txn : String) (at : ℤ) → IsSettled o → (transit_order_paid o txn at).0 ≡ o
unfolding transit_order_paid
paid_settled o txn at f = ground arith

closed_settled : (o : Order) (at : ℤ) → IsSettled o → (transit_order_closed o at).0 ≡ o
unfolding transit_order_closed
closed_settled o at f = ground arith

pay_keeps :
    (n : String) (o : Order) (m txn : String) (at : ℤ) (s : MemoryStore)
    → IsSettled o
    → lookup n s ≡ some o
    → lookup n (mark_order_paid m txn at s).1 ≡ some o
unfolding mark_order_paid
pay_keeps n o m txn at s f h = elim (Option-cases (lookup m s)) [
  | inl missing ↦ ground (arith, missing)
  | inr (x, found) ↦ ground (
    arith,
    found,
    paid_settled o txn at f,
    lookup-insert m n (transit_order_paid x txn at).0 s,
    eq_iff m n,
  )
]

close_keeps :
    (n : String) (o : Order) (m : String) (now : ℤ) (s : MemoryStore)
    → IsSettled o
    → lookup n s ≡ some o
    → lookup n (close_order m now s).1 ≡ some o
unfolding close_order
close_keeps n o m now s f h = elim (Option-cases (lookup m s)) [
  | inl missing ↦ ground (arith, missing)
  | inr (x, found) ↦ ground (
    arith,
    found,
    closed_settled o now f,
    lookup-insert m n (transit_order_closed x now).0 s,
    eq_iff m n,
  )
]

serve_keeps :
    (c : Call) (n : String) (o : Order) (s : MemoryStore)
    → IsSettled o
    → lookup n s ≡ some o
    → lookup n (serve c s) ≡ some o
unfolding serve
serve_keeps (create_call x) n o s f h = create_keeps n o x s h
serve_keeps (pay_call m txn at) n o s f h = pay_keeps n o m txn at s f h
serve_keeps (close_call m now) n o s f h = close_keeps n o m now s f h

settled_stays :
    (cs : List Call) (n : String) (o : Order) (s : MemoryStore)
    → IsSettled o
    → lookup n s ≡ some o
    → lookup n (serve_all cs s) ≡ some o
unfolding serve_all
settled_stays [] n o s f h = h
settled_stays (c ∷ cs) n o s f h = settled_stays cs n o (serve c s) f (serve_keeps c n o s f h)

-- The order that a pending one becomes: paid or closed by the first payment or closing of its
-- number, with the transaction and the time of that call and its other fields as they were.
pub settled_by_first : String → List Call → Order → Order
settled_by_first n [] o = o
settled_by_first n (create_call x ∷ cs) o = settled_by_first n cs o
settled_by_first n (pay_call m txn at ∷ cs) o =
    let rest = settled_by_first n cs o in
    if str_eq m n then record o { status = paid; transaction_no = txn; paid_at = some at } else rest
settled_by_first n (close_call m now ∷ cs) o =
    let rest = settled_by_first n cs o in
    if str_eq m n then record o { status = closed; closed_at = some now } else rest

pay_first :
    (n txn : String) (at : ℤ) (o : Order) (s : MemoryStore)
    → o.status ≡ pending
    → lookup n s ≡ some o
    → lookup n (mark_order_paid n txn at s).1
      ≡ some (record o { status = paid; transaction_no = txn; paid_at = some at })
unfolding mark_order_paid transit_order_paid
pay_first n txn at o s p h =
    ground (arith, p, h, lookup-insert n n (transit_order_paid o txn at).0 s, eq_refl n)

close_first :
    (n : String) (now : ℤ) (o : Order) (s : MemoryStore)
    → o.status ≡ pending
    → lookup n s ≡ some o
    → lookup n (close_order n now s).1 ≡ some (record o { status = closed; closed_at = some now })
unfolding close_order transit_order_closed
close_first n now o s p h =
    ground (arith, p, h, lookup-insert n n (transit_order_closed o now).0 s, eq_refl n)

other_pay :
    (m n txn : String) (at : ℤ) (s : MemoryStore)
    → str_eq m n ≡ false
    → lookup n (mark_order_paid m txn at s).1 ≡ lookup n s
unfolding mark_order_paid
other_pay m n txn at s differs = elim (Option-cases (lookup m s)) [
  | inl missing ↦ ground (arith, missing)
  | inr (x, found) ↦
      ground (arith, found, differs, lookup-insert m n (transit_order_paid x txn at).0 s)
]

other_close :
    (m n : String) (now : ℤ) (s : MemoryStore)
    → str_eq m n ≡ false
    → lookup n (close_order m now s).1 ≡ lookup n s
unfolding close_order
other_close m n now s differs = elim (Option-cases (lookup m s)) [
  | inl missing ↦ ground (arith, missing)
  | inr (x, found) ↦
      ground (arith, found, differs, lookup-insert m n (transit_order_closed x now).0 s)
]

-- A pending order of the store, after any sequence of creations, payments and closings, its own
-- number included: it is as it was where none of these paid or closed its number, and else as the
-- first of these settled it, with that call's transaction and time, and every later call changed
-- nothing.
pub serve_all_settled :
    (cs : List Call) (n : String) (o : Order) (s : MemoryStore)
    → o.status ≡ pending
    → lookup n s ≡ some o
    → lookup n (serve_all cs s) ≡ some (settled_by_first n cs o)
unfolding serve_all serve settled_by_first
serve_all_settled [] n o s p h = h
serve_all_settled (create_call x ∷ cs) n o s p h =
    serve_all_settled cs n o (create x s).1 p (create_keeps n o x s h)
serve_all_settled (pay_call m txn at ∷ cs) n o s p h = elim (Bool-cases (str_eq m n)) [
  | inl same ↦
      let e = (eq_iff m n).0 same in
      let o' = record o { status = paid; transaction_no = txn; paid_at = some at } in
      rw same (
        rw e (
          settled_stays cs n o' (mark_order_paid n txn at s).1 (inl refl)
            (pay_first n txn at o s p h)))
  | inr differs ↦ rw differs (
      serve_all_settled cs n o (mark_order_paid m txn at s).1 p
        (other_pay m n txn at s differs ∙ h))
]
serve_all_settled (close_call m now ∷ cs) n o s p h = elim (Bool-cases (str_eq m n)) [
  | inl same ↦
      let e = (eq_iff m n).0 same in
      let o' = record o { status = closed; closed_at = some now } in
      rw same (
        rw e (settled_stays cs n o' (close_order n now s).1 (inr refl) (close_first n now o s p h)))
  | inr differs ↦
      rw differs
        (serve_all_settled cs n o (close_order m now s).1 p (other_close m n now s differs ∙ h))
]

-- A payment and a timeout closing race for a pending order: whichever comes first succeeds, the
-- other is refused with `invalid_state` and changes nothing.
pub pay_close_exclusive :
    (n txn : String) (at now : ℤ) (o : Order) (s : MemoryStore)
    → lookup n s ≡ some o
    → o.status ≡ pending
    → let s_paid = (mark_order_paid n txn at s).1 in
      let s_closed = (close_order n now s).1 in
      ((mark_order_paid n txn at s).0 ≡ none)
      × (close_order n now s_paid ≡ (some invalid_state, s_paid))
      × ((close_order n now s).0 ≡ none)
      × (mark_order_paid n txn at s_closed ≡ (some invalid_state, s_closed))
unfolding mark_order_paid close_order transit_order_paid transit_order_closed
pay_close_exclusive n txn at now o s h p =
    let paid_order = (transit_order_paid o txn at).0 in
    let closed_order = (transit_order_closed o now).0 in
    (
      ground arith,
      ground (arith, lookup-insert n n paid_order s, eq_refl n),
      ground arith,
      ground (arith, lookup-insert n n closed_order s, eq_refl n),
    )
