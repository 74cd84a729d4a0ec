-- ===== src/Order/App/Refinement/Runs.antt =====
-- The use cases over pointers and over values, side by side.
use mathlib.Core.Path.{subst, ap₂}
use seckill_go.Prelude.{
  Option-cases, ℤ, Result-cases, lookup, lookup-empty, ℕ, suc, String, ◌≡◌, refl, sym, ap, ◌∙◌, inl,
  inr, Option, none, some, List, [], ◌∷◌, arith,
}
use seckill_go.Order.Entity.{
  OrderError, OrderEvent, Order, clear_events, create_order, mark_as_paid, close,
}
use seckill_go.Order.App.{
  Heap, AppError, invalid_command, create_failed, load_failed, mark_failed, close_failed,
  get_by_order_no, CreateOrderCommand, PayOrderCommand, CloseOrderCommand, validate_create,
  validate_pay, validate_close, Answer, publish_events, create_order_case, applied, pay_order_case,
  close_order_case,
}
use seckill_go.Order.App.Refinement.{
  Orders, changed, create_promised, pay_promised, close_promised, deref, view, Leads, IsSound,
  Agrees,
}
use seckill_go.Order.App.Refinement.Storing.{
  leads, Stores, put_seen, after_storing, made_number, marked, unmarked, shut, unshut, written_back,
  written, storing-Stores, view-Stores, Stores-Leads,
}

module _ (h : Heap) (st : Orders) (sound : IsSound h) (seen : (n : String) → view h n ≡ st n) where
  unchanged : (e : Option AppError) → Agrees (e, ([], h)) (e, ([], st))
  unchanged e = (refl, refl, sound, seen)

  publish-Agrees :
      (p : ℕ) (o : Order) (h' : Heap) (n : String) (failure : OrderError → AppError)
      → o.order_no ≡ n
      → h'.objects p ≡ o
      → Stores h (publish_events p h').1.1 p (clear_events o)
      → Agrees (publish_events p h') (changed failure n (none, o) st)
  unfolding publish_events changed clear_events
  publish-Agrees p o h' n failure named here stored = (
    refl,
    ap (λ (x : Order). x.uncommitted_events) here,
    λ m. Stores-Leads h (publish_events p h').1.1 p (clear_events o) sound m stored,
    λ m.
        view-Stores h (publish_events p h').1.1 p (clear_events o) sound m stored
        ∙ put_seen (clear_events o) o.order_no n m (view h) st named (seen m),
  )

  create_keeps :
      (c : CreateOrderCommand) (now later : ℤ)
      → Agrees (create_order_case c now later h) (create_promised c now later st)
  unfolding create_order_case create_promised
  create_keeps c now later = elim (Option-cases (validate_create c)) [
    | inr (reason, refused) ↦
        rw (refused, create_order_case, create_promised) (unchanged (some (invalid_command reason)))
    | inl valid ↦
        elim (Result-cases (
          create_order c.order_no c.user_id c.activity_no c.sku_no c.quantity c.pay_amount
            c.trace_id now later)) [
              | inr (e, failed) ↦
                  rw (valid, failed, create_order_case, create_promised)
                    (unchanged (some (create_failed e)))
              | inl (o, made) ↦
                  let o' = record o { request_trace_id = c.request_trace_id } in
                  rw (valid, made, create_order_case, create_promised)
                    (publish-Agrees h.next o' (after_storing h.next o' (suc h.next) h) c.order_no
                      create_failed
                      (made_number c.order_no c.user_id c.activity_no c.sku_no c.quantity
                        c.pay_amount c.trace_id now later o made)
                      (written h.next o' (suc h.next) h)
                      (storing-Stores h h.next o' (suc h.next) (ground arith) (ground arith)
                        (inl refl)))
            ]
  ]

  -- A use case that changes the order under a number, which an error leaves as it was.
  change_keeps :
      (n : String) (p : ℕ) (error : Option OrderError) (o : Order) (failure : OrderError → AppError)
      → lookup n h.refs ≡ some p
      → o.order_no ≡ (h.objects p).order_no
      → ((e : OrderError) → error ≡ some e → o ≡ h.objects p)
      → Agrees (applied p (error, o) failure h) (changed failure n (error, o) st)
  unfolding applied changed
  change_keeps n p (some e) o failure at keeps fails =
      subst (λ x. Agrees (some (failure e), ([], x)) (some (failure e), ([], st)))
        (sym (written_back h p o (fails e refl))) (unchanged (some (failure e)))
  change_keeps n p none o failure at keeps fails =
      let (named, low) = leads h n p sound at in
      publish-Agrees p o (after_storing p o h.next h) n failure (keeps ∙ named)
        (written p o h.next h)
        (storing-Stores h p o h.next (ground arith) low
          (inr (subst (λ m. lookup m h.refs ≡ some p) (sym (keeps ∙ named)) at)))

  seen_at : (n : String) (o : Option ℕ) → lookup n h.refs ≡ o → st n ≡ deref h o
  seen_at n o at = sym (seen n) ∙ ap (deref h) at

  pay_keeps : (c : PayOrderCommand) → Agrees (pay_order_case c h) (pay_promised c st)
  unfolding pay_order_case pay_promised get_by_order_no
  pay_keeps c = elim (Option-cases (validate_pay c)) [
    | inr (reason, refused) ↦
        rw (refused, pay_order_case, pay_promised) (unchanged (some (invalid_command reason)))
    | inl valid ↦ elim (Option-cases (lookup c.order_no h.refs)) [
      | inl missing ↦
          rw (valid, missing, seen_at c.order_no none missing, pay_order_case, pay_promised)
            (unchanged (some load_failed))
      | inr (p, found) ↦
          let o = h.objects p in
          rw (valid, found, seen_at c.order_no (some p) found, pay_order_case, pay_promised)
            (change_keeps c.order_no p (mark_as_paid c.transaction_no c.amount c.paid_at o).0
              (mark_as_paid c.transaction_no c.amount c.paid_at o).1 mark_failed found
              (marked c.transaction_no c.amount c.paid_at o)
              (unmarked c.transaction_no c.amount c.paid_at o))
    ]
  ]

  close_keeps : (c : CloseOrderCommand) → Agrees (close_order_case c h) (close_promised c st)
  unfolding close_order_case close_promised get_by_order_no
  close_keeps c = elim (Option-cases (validate_close c)) [
    | inr (reason, refused) ↦
        rw (refused, close_order_case, close_promised) (unchanged (some (invalid_command reason)))
    | inl valid ↦ elim (Option-cases (lookup c.order_no h.refs)) [
      | inl missing ↦
          rw (valid, missing, seen_at c.order_no none missing, close_order_case, close_promised)
            (unchanged (some load_failed))
      | inr (p, found) ↦
          let o = h.objects p in
          rw (valid, found, seen_at c.order_no (some p) found, close_order_case, close_promised)
            (change_keeps c.order_no p (close c.closed_at o).0 (close c.closed_at o).1 close_failed
              found (shut c.closed_at o) (unshut c.closed_at o))
    ]
  ]

pub data UseCase : Type 0 where
  create_case : CreateOrderCommand → (now later : ℤ) → UseCase
  pay_case : PayOrderCommand → UseCase
  close_case : CloseOrderCommand → UseCase

pub serve : UseCase → Heap → Answer Heap
serve (create_case c now later) h = create_order_case c now later h
serve (pay_case c) h = pay_order_case c h
serve (close_case c) h = close_order_case c h

pub promised : UseCase → Orders → Answer Orders
promised (create_case c now later) st = create_promised c now later st
promised (pay_case c) st = pay_promised c st
promised (close_case c) st = close_promised c st

-- A sequence of use cases, with the errors and events of each.
pub serve_all : List UseCase → Heap → List (Option AppError × List OrderEvent) × Heap
serve_all [] h = ([], h)
serve_all (u ∷ us) h =
    let (e, (events, h')) = serve u h in
    let (replies, h'') = serve_all us h' in ((e, events) ∷ replies, h'')

pub promised_all : List UseCase → Orders → List (Option AppError × List OrderEvent) × Orders
promised_all [] st = ([], st)
promised_all (u ∷ us) st =
    let (e, (events, st')) = promised u st in
    let (replies, st'') = promised_all us st' in ((e, events) ∷ replies, st'')

one_keeps :
    (u : UseCase) (h : Heap) (st : Orders)
    → IsSound h
    → ((n : String) → view h n ≡ st n)
    → Agrees (serve u h) (promised u st)
unfolding serve promised
one_keeps (create_case c now later) h st sound seen = create_keeps h st sound seen c now later
one_keeps (pay_case c) h st sound seen = pay_keeps h st sound seen c
one_keeps (close_case c) h st sound seen = close_keeps h st sound seen c

all_keep :
    (us : List UseCase) (h : Heap) (st : Orders)
    → IsSound h
    → ((n : String) → view h n ≡ st n)
    → ((serve_all us h).0 ≡ (promised_all us st).0)
      × ((n : String) → view (serve_all us h).1 n ≡ (promised_all us st).1 n)
unfolding serve_all promised_all
all_keep [] h st sound seen = (refl, seen)
all_keep (u ∷ us) h st sound seen =
    let (e, events, sound', seen') = one_keeps u h st sound seen in
    let (replies, seen'') = all_keep us (serve u h).1.1 (promised u st).1.1 sound' seen' in
    (ap₂ (λ x y. x ∷ y) (ap₂ (λ x y. (x, y)) e events) replies, seen'')

-- An empty repository, whatever stands at the addresses.
abbrev pub empty_heap : (ℕ → Order) → Heap
empty_heap objects = record { objects = objects; next = 0; refs = [] }

starts_sound : (objects : ℕ → Order) (n : String) → Leads (empty_heap objects) n (lookup n [])
starts_sound objects n = rw (lookup-empty {V = ℕ} n) tt

starts_empty : (objects : ℕ → Order) (n : String) → view (empty_heap objects) n ≡ none
starts_empty objects n = rw (lookup-empty {V = ℕ} n) refl

-- Over a repository that keeps pointers, and starts empty, any sequence of creations, payments and
-- closings answers and publishes what it does over a map of plain values in which an order is
-- replaced only where the use case succeeds and keeps no events that were published; and each number
-- leads to the order that the map has.
pub pointers_refine_values :
    (us : List UseCase) (objects : ℕ → Order)
    → ((serve_all us (empty_heap objects)).0 ≡ (promised_all us (λ n. none)).0)
      × ((n : String)
          → view (serve_all us (empty_heap objects)).1 n ≡ (promised_all us (λ n. none)).1 n)
pointers_refine_values us objects =
    all_keep us (empty_heap objects) (λ n. none) (λ n. starts_sound objects n)
      (λ n. starts_empty objects n)
