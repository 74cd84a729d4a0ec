-- ===== src/Order/App/Refinement/Storing.antt =====
-- The heap after an order was stored at an address.
use mathlib.Core.Path.{subst, fun_ext}
use seckill_go.Prelude.{
  ◌==◌, if◌then◌else◌, Bool-cases, Option-cases, ℤ, ok, insert, lookup, lookup-insert, ℕ, ◌≤◌, ◌<◌,
  String, ◌≡◌, refl, sym, ap, ◌∙◌, ◌⊎◌, inl, inr, true, false, some, arith, str_eq, eq_iff, eq_refl,
}
use seckill_go.Order.Entity.{
  OrderError, Order, record_event, clear_events, create_order, mark_as_paid, close,
}
use seckill_go.Order.App.{Heap, write, save, publish_events}
use seckill_go.Order.App.Refinement.{Orders, put, view, Leads, IsSound}

pub leads :
    (h : Heap) (n : String) (p : ℕ) → IsSound h → lookup n h.refs ≡ some p → Leads h n (some p)
leads h n p sound at = subst (Leads h n) at (sound n)

-- A heap `h'` that has come from `h` by storing the order `o` at the address `p`, which is new or the
-- one of its number.
pub data Stores (h h' : Heap) (p : ℕ) (o : Order) : Type 0 where
  stores :
      h'.objects p ≡ o
      → ((i : ℕ) → (i == p) ≡ false → h'.objects i ≡ h.objects i)
      → h'.refs ≡ insert o.order_no p h.refs
      → h.next ≤ h'.next
      → p < h'.next
      → ((p ≡ h.next) ⊎ (lookup o.order_no h.refs ≡ some p))
      → Stores h h' p o

-- Another number has another address.
apart :
    (h : Heap) (p : ℕ) (o : Order) (m : String) (p' : ℕ)
    → IsSound h
    → (p ≡ h.next) ⊎ (lookup o.order_no h.refs ≡ some p)
    → lookup m h.refs ≡ some p'
    → str_eq o.order_no m ≡ false
    → (p' == p) ≡ false
apart h p o m p' sound (inl fresh) at other_no =
    let (named, low) = leads h m p' sound at in ground (arith, fresh, low)
apart h p o m p' sound (inr old) at other_no =
    let (named, low) = leads h m p' sound at in
    let (named', low') = leads h o.order_no p sound old in
    ground (
      arith,
      ap (λ i. (h.objects i).order_no),
      named,
      named',
      other_no,
      eq_refl m,
      eq_refl o.order_no,
    )

module _ (h h' : Heap) (p : ℕ) (o : Order) (sound : IsSound h) where
  stored_at :
      (n : String)
      → Stores h h' p o
      → lookup n h'.refs ≡ (if str_eq o.order_no n then some p else lookup n h.refs)
  stored_at n (stores here there refs grown below place) =
      ap (λ r. lookup n r) refs ∙ lookup-insert o.order_no n p h.refs

  pub view-Stores : (n : String) → Stores h h' p o → view h' n ≡ put o.order_no o (view h) n
  view-Stores n (stores here there refs grown below place) =
      let at = stored_at n (stores here there refs grown below place) in
      elim (Bool-cases (str_eq o.order_no n)) [
        | inl same ↦ rw (at, same) (ap some here)
        | inr differs ↦ elim (Option-cases (lookup n h.refs)) [
          | inl missing ↦ rw (at, differs, missing) refl
          | inr (p', found) ↦
              rw (at, differs, found)
                (ap some (there p' (apart h p o n p' sound place found differs)))
        ]
      ]

  pub Stores-Leads : (n : String) → Stores h h' p o → Leads h' n (lookup n h'.refs)
  Stores-Leads n (stores here there refs grown below place) =
      let at = stored_at n (stores here there refs grown below place) in
      elim (Bool-cases (str_eq o.order_no n)) [
        | inl same ↦
            rw (at, same)
              (ap (λ (x : Order). x.order_no) here ∙ (eq_iff o.order_no n).0 same, below)
        | inr differs ↦ elim (Option-cases (lookup n h.refs)) [
          | inl missing ↦ rw (at, differs, missing) tt
          | inr (p', found) ↦
              let (named, low) = leads h n p' sound found in
              let moved = there p' (apart h p o n p' sound place found differs) in
              rw (at, differs, found)
                (ap (λ (x : Order). x.order_no) moved ∙ named, ground (arith, low, grown))
        ]
      ]

pub put_seen :
    (x : Order) (a n m : String) (st st' : Orders)
    → a ≡ n
    → st m ≡ st' m
    → put a x st m ≡ put n x st' m
put_seen x a n m st st' named agree = elim (Bool-cases (str_eq n m)) [
  | inl same ↦ rw (named, same) refl
  | inr differs ↦ rw (named, differs) agree
]

-- The heap after an order was written at an address, saved and its events published.
abbrev pub after_storing : ℕ → Order → ℕ → Heap → Heap
after_storing p o next h = save p (record (write p o h) { next = next })

pub made_number :
    (n : String) (u : ℤ) (a k : String) (q amount : ℤ) (t : String) (now later : ℤ) (o : Order)
    → create_order n u a k q amount t now later ≡ ok o
    → o.order_no ≡ n
unfolding create_order record_event
made_number n u a k q amount t now later o made = ground arith

-- A payment or a closing keeps the number, and on an error the order.
pub marked :
    (t : String) (amount at : ℤ) (o : Order) → (mark_as_paid t amount at o).1.order_no ≡ o.order_no
unfolding mark_as_paid record_event
marked t amount at o = ground arith

pub unmarked :
    (t : String) (amount at : ℤ) (o : Order) (e : OrderError)
    → (mark_as_paid t amount at o).0 ≡ some e
    → (mark_as_paid t amount at o).1 ≡ o
unfolding mark_as_paid
unmarked t amount at o e failed = ground arith

pub shut : (at : ℤ) (o : Order) → (close at o).1.order_no ≡ o.order_no
unfolding close record_event
shut at o = ground arith

pub unshut : (at : ℤ) (o : Order) (e : OrderError) → (close at o).0 ≡ some e → (close at o).1 ≡ o
unfolding close
unshut at o e failed = ground arith

itself : (p : ℕ) → (p == p) ≡ true
itself p = ground arith

-- Writing back what is there changes nothing.
pub written_back : (h : Heap) (p : ℕ) (o : Order) → o ≡ h.objects p → write p o h ≡ h
written_back h p o same =
    ap (λ (f : ℕ → Order). record h { objects = f }) (fun_ext (λ i. at_address i))
  where
    at_address : (i : ℕ) → (if i == p then o else h.objects i) ≡ h.objects i
    at_address i = elim (Bool-cases (i == p)) [
      | inl here ↦ rw here (same ∙ ap h.objects (sym (ground (arith, here))))
      | inr elsewhere ↦ rw elsewhere refl
    ]

pub written : (p : ℕ) (o : Order) (next : ℕ) (h : Heap) → (after_storing p o next h).objects p ≡ o
unfolding save
written p o next h = rw (itself p) refl

pub storing-Stores :
    (h : Heap) (p : ℕ) (o : Order) (next : ℕ)
    → h.next ≤ next
    → p < next
    → ((p ≡ h.next) ⊎ (lookup o.order_no h.refs ≡ some p))
    → Stores h (publish_events p (after_storing p o next h)).1.1 p (clear_events o)
unfolding publish_events save clear_events
storing-Stores h p o next grown below place =
    stores (rw (itself p) refl) (λ i differs. rw differs refl) (rw (itself p) refl) grown below
      place
