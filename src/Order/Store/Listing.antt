-- ===== src/Order/Store/Listing.antt =====
-- The listings and the lookup by user and trace.
use mathlib.Core.List.{Perm}
use mathlib.Core.List.Perm
use mathlib.Core.Path.{subst}
use seckill_go.Prelude.{
  Bool-cases, ℤ, ◌≤ℤ◌, eq_ℤ, Result, ok, err, Result-cases, String, ◌≡◌, sym, ◌⊎◌, inl, inr, Bool,
  true, false, ◌&&◌, List, [], ◌∷◌, arith, str_eq, eq_iff,
}
use seckill_go.Order.Entity.{Order}
use seckill_go.Order.Store.{
  sort_orders_by_create_time_desc, MemoryStore, matching, list_orders_by_activity,
  list_orders_by_user, find_user_trace, comes_first, insert_sorted, StoreError,
  get_by_user_and_trace, found,
}

insert_sorted-perm : (x : Order) (ys : List Order) → Perm (insert_sorted x ys) (x ∷ ys)
unfolding insert_sorted
insert_sorted-perm x [] = Perm.refl (x ∷ [])
insert_sorted-perm x (y ∷ ys) = elim (Bool-cases (comes_first x y)) [
  | inl first ↦ rw first (Perm.refl (x ∷ y ∷ ys))
  | inr later ↦ rw later (Perm.trans (Perm.cons y (insert_sorted-perm x ys)) (Perm.swap x y ys))
]

sort-perm : (os : List Order) → Perm (sort_orders_by_create_time_desc os) os
unfolding sort_orders_by_create_time_desc
sort-perm [] = Perm.refl []
sort-perm (o ∷ os) =
    Perm.trans (insert_sorted-perm o (sort_orders_by_create_time_desc os))
      (Perm.cons o (sort-perm os))

-- Each order is at least as new as the one behind it.
abbrev pub IsNewestFirst : List Order → Type 0
IsNewestFirst [] = Unit
IsNewestFirst (x ∷ []) = Unit
IsNewestFirst (x ∷ y ∷ ys) = (y.created_at ≤ℤ x.created_at) × IsNewestFirst (y ∷ ys)

insert_sorted-IsNewestFirst :
    (x : Order) (ys : List Order) → IsNewestFirst ys → IsNewestFirst (insert_sorted x ys)
unfolding insert_sorted comes_first
insert_sorted-IsNewestFirst x [] h = tt
insert_sorted-IsNewestFirst x (y ∷ []) h = ground arith
insert_sorted-IsNewestFirst x (y ∷ z ∷ ys) h =
    ground (arith, insert_sorted-IsNewestFirst x (z ∷ ys) h.1)

sort-IsNewestFirst : (os : List Order) → IsNewestFirst (sort_orders_by_create_time_desc os)
unfolding sort_orders_by_create_time_desc
sort-IsNewestFirst [] = tt
sort-IsNewestFirst (o ∷ os) =
    insert_sorted-IsNewestFirst o (sort_orders_by_create_time_desc os) (sort-IsNewestFirst os)

-- A list that has exactly the orders of the store with `P`, in the order of the store.
pub data Picks (P : Order → Type 0) : MemoryStore → List Order → Type 0 where
  done : Picks P [] []
  take :
      {n : String} {o : Order} {s : MemoryStore} {os : List Order}
      → P o
      → Picks P s os
      → Picks P ((n, o) ∷ s) (o ∷ os)
  skip :
      {n : String} {o : Order} {s : MemoryStore} {os : List Order}
      → ¬ P o
      → Picks P s os
      → Picks P ((n, o) ∷ s) os

matching-Picks :
    (P : Order → Type 0) (test : Order → Bool)
    → ((o : Order) → test o ≡ true → P o)
    → ((o : Order) → test o ≡ false → ¬ P o)
    → (s : MemoryStore) → Picks P s (matching test s)
unfolding matching
matching-Picks P test sound complete [] = done
matching-Picks P test sound complete ((n, o) ∷ s) =
    let rest = matching-Picks P test sound complete s in
    elim (Bool-cases (test o)) [
      | inl passes ↦ rw passes (take (sound o passes) rest)
      | inr fails ↦ rw fails (skip (complete o fails) rest)
    ]

-- A list of exactly the orders of the store with `P`, each as often as the store has it, from the
-- newest to the oldest.
abbrev pub IsListing : (Order → Type 0) → MemoryStore → List Order → Type 0
IsListing P s os = ((picked : List Order) × Picks P s picked × Perm os picked) × IsNewestFirst os

-- The listing of a user and the listing of an activity hold exactly the orders of the store with
-- this user and with this activity, each as often as the store does, and go from the newest to the
-- oldest.
pub listings_exact :
    (user_id : ℤ) (activity_no : String) (s : MemoryStore)
    → IsListing (λ o. o.user_id ≡ user_id) s (list_orders_by_user user_id s)
      × IsListing (λ o. o.activity_no ≡ activity_no) s (list_orders_by_activity activity_no s)
unfolding list_orders_by_user list_orders_by_activity
listings_exact user_id activity_no s =
    let of_user = matching (λ (o : Order). eq_ℤ o.user_id user_id) s in
    let of_activity = matching (λ (o : Order). str_eq o.activity_no activity_no) s in
    (
      (
        (
          of_user,
          matching-Picks (λ o. o.user_id ≡ user_id) (λ o. eq_ℤ o.user_id user_id)
              (λ o same. ground arith) (λ o differs. ground arith) s,
          sort-perm of_user,
        ),
        sort-IsNewestFirst of_user,
      ),
      (
        (
          of_activity,
          matching-Picks (λ o. o.activity_no ≡ activity_no) (λ o. str_eq o.activity_no activity_no)
              (λ o same. (eq_iff o.activity_no activity_no).0 same)
              (λ o differs. ground (arith, eq_iff o.activity_no activity_no)) s,
          sort-perm of_activity,
        ),
        sort-IsNewestFirst of_activity,
      ),
    )

abbrev pub matches : ℤ → String → Order → Bool
matches user_id trace_id o = eq_ℤ o.user_id user_id && str_eq o.trace_id trace_id

-- The entry of the store that a range finds.
pub data Held (o : Order) : MemoryStore → Type 0 where
  here : {n : String} {s : MemoryStore} → Held o ((n, o) ∷ s)
  there : {m : String} {x : Order} {s : MemoryStore} → Held o s → Held o ((m, x) ∷ s)

find-Held :
    (u : ℤ) (t : String) (s : MemoryStore) (o : Order)
    → find_user_trace u t s ≡ ok o
    → Held o s × (matches u t o ≡ true)
unfolding find_user_trace
find-Held u t [] o h = absurd (ground arith)
find-Held u t ((n, x) ∷ s) o h = elim (Bool-cases (matches u t x)) [
  | inl found ↦
      let e : x ≡ o = ground (arith, found) in
      (subst (λ z. Held o ((n, z) ∷ s)) (sym e) here, rw e at found)
  | inr differs ↦ let (held, m) = find-Held u t s o (ground (arith, differs)) in (there held, m)
]

find_misses :
    (u : ℤ) (t : String) (o : Order) (e : StoreError) (s : MemoryStore)
    → find_user_trace u t s ≡ err e
    → Held o s
    → matches u t o ≡ false
unfolding find_user_trace
find_misses u t o e _ h (here {n} {s}) = ground arith
find_misses u t o e _ h (there {m} {x} {s} held) = find_misses u t o e s (ground arith) held

-- What an answer of the lookup says of the store.
abbrev pub Answered : ℤ → String → MemoryStore → Result StoreError Order → Type 0
Answered u t s (ok o) = Held o s × (matches u t o ≡ true) × (str_eq t "" ≡ false)
Answered u t s (err e) = (t ≡ "") ⊎ ((o : Order) → Held o s → matches u t o ≡ false)

blank_answer :
    (u : ℤ) (t : String) (s : MemoryStore)
    → str_eq t "" ≡ true
    → Answered u t s (get_by_user_and_trace u t s)
unfolding get_by_user_and_trace
blank_answer u t s blank = rw blank (inl ((eq_iff t "").0 blank))

named_answer :
    (u : ℤ) (t : String) (s : MemoryStore)
    → str_eq t "" ≡ false
    → get_by_user_and_trace u t s ≡ find_user_trace u t s
unfolding get_by_user_and_trace
named_answer u t s named = ground (arith, named)

find_answer :
    (u : ℤ) (t : String) (s : MemoryStore)
    → str_eq t "" ≡ false
    → Answered u t s (find_user_trace u t s)
find_answer u t s named = elim (Result-cases (find_user_trace u t s)) [
  | inl (o, h) ↦
      let (held, m) = find-Held u t s o h in subst (Answered u t s) (sym h) (held, m, named)
  | inr (e, h) ↦ subst (Answered u t s) (sym h) (inr (λ o held. find_misses u t o e s h held))
]

-- The lookup by user and trace returns an order of the store with both and with a trace id that is
-- not empty; it fails only if the trace id is empty or the store has no order with both.
pub get_by_user_and_trace_exact :
    (u : ℤ) (t : String) (s : MemoryStore) → Answered u t s (get_by_user_and_trace u t s)
get_by_user_and_trace_exact u t s = elim (Bool-cases (str_eq t "")) [
  | inl blank ↦ blank_answer u t s blank
  | inr named ↦ subst (Answered u t s) (sym (named_answer u t s named)) (find_answer u t s named)
]
