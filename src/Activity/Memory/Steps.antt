-- ===== src/Activity/Memory/Steps.antt =====
-- The status of an activity of the store over a sequence of operations.

pub mod Runs
use seckill_go.Prelude.{
  Bool-cases, Option-cases, ℤ, eq_ℤ, Assoc, insert, lookup, lookup-insert, String, ◌≡◌, refl, ◌⊎◌,
  inl, inr, true, Option, none, some, List, [], ◌∷◌, arith, str_eq, eq_iff,
}
use seckill_go.Activity.Status.{Sku, Activity, can_activity_transition_to, transit_activity}
use seckill_go.Activity.Memory.{
  MemoryStore, sku_key, merge_activity, update_activity, update_activity_status, add_activity_sku,
  remove_activity_sku, attach_runtime_stock, attach_all, list_activities, get_activity,
}
use seckill_go.Activity.Memory.Inventory.{
  deduct_stock_with_limit, release_stock, cleanup_activity_stock,
}

-- The operations on an activity that is there, and those on the stock and the traces.
pub data Operation : Type 0 where
  update : (given : Activity) (now : ℤ) → Operation
  update_status : (activity_no : String) (status now : ℤ) → Operation
  put_product : (activity_no : String) (k : Sku) (now : ℤ) → Operation
  drop_product : (activity_no sku_no : String) (now : ℤ) → Operation
  read_all : Operation
  read_one : (activity_no : String) → Operation
  deduct : (activity_no sku_no : String) (user_id quantity purchase_limit : ℤ) → Operation
  release : (activity_no sku_no : String) (user_id quantity : ℤ) → Operation
  clean_stock : (activity_no : String) (sku_nos : List String) → Operation

unfoldable pub apply : Operation → MemoryStore → MemoryStore
apply (update given now) s = (update_activity given now s).1
apply (update_status a status now) s = (update_activity_status a status now s).1
apply (put_product a k now) s = (add_activity_sku a k now s).1
apply (drop_product a n now) s = (remove_activity_sku a n now s).1
apply read_all s = (list_activities s).1
apply (read_one a) s = (get_activity a s).1
apply (deduct a n u q limit) s = (deduct_stock_with_limit a n u q limit s).1
apply (release a n u q) s = release_stock a n u q s
apply (clean_stock a ns) s = (cleanup_activity_stock a ns s).1

-- The status that is stored under a number.
abbrev pub status_of : Option Activity → Option ℤ
status_of none = none
status_of (some a) = some a.status

-- A status that stays, or one that the table allows to follow it; nothing comes or goes.
abbrev pub Follows : Option ℤ → Option ℤ → Type 0
Follows (some s) (some t) = (s ≡ t) ⊎ (can_activity_transition_to s t ≡ true)
Follows none none = Unit
Follows _ _ = ⊥

lookup-attach_all :
    (stock : Assoc ℤ) (m : Assoc Activity) (n : String)
    → status_of (lookup n (attach_all stock m)) ≡ status_of (lookup n m)
unfolding attach_all lookup attach_runtime_stock
lookup-attach_all stock [] n = refl
lookup-attach_all stock ((k, a) ∷ rest) n = ground (arith, lookup-attach_all stock rest n)

stays : (o : Option ℤ) → Follows o o
stays none = tt
stays (some s) = inl refl

inserted-Follows :
    (a n : String) (old new : Activity) (m : Assoc Activity)
    → lookup a m ≡ some old
    → Follows (some old.status) (some new.status)
    → Follows (status_of (lookup n m)) (status_of (lookup n (insert a new m)))
inserted-Follows a n old new m at follows = elim (Bool-cases (str_eq a n)) [
  | inl same ↦
      rw (lookup-insert a n new m, same)
        (let here : lookup n m ≡ some old = ground (arith, eq_iff a n, at, same) in rw here follows)
  | inr differs ↦ rw (lookup-insert a n new m, differs) (stays (status_of (lookup n m)))
]

transit-Follows :
    (a : Activity) (target now : ℤ)
    → (transit_activity a target now).1 ≡ true
    → Follows (some a.status) (some (transit_activity a target now).0.status)
unfolding transit_activity
transit-Follows a target now allowed = elim (Bool-cases (eq_ℤ a.status target)) [
  | inl same ↦ rw same (inl refl)
  | inr differs ↦ rw differs (elim (Bool-cases (can_activity_transition_to a.status target)) [
    | inl may ↦ rw may (inr may)
    | inr not_may ↦ absurd (ground (arith, allowed, differs, not_may))
  ])
]

-- An operation that left the activities, or put one that follows in the place of another.
data Moved (m : Assoc Activity) : Assoc Activity → Type 0 where
  stayed : Moved m m
  replaced :
      (a : String) (old new : Activity)
      → lookup a m ≡ some old
      → Follows (some old.status) (some new.status)
      → Moved m (insert a new m)

Moved-Follows :
    (n : String) (m m' : Assoc Activity)
    → Moved m m'
    → Follows (status_of (lookup n m)) (status_of (lookup n m'))
Moved-Follows n m _ (stayed) = stays _
Moved-Follows n m _ (replaced a old new at follows) = inserted-Follows a n old new m at follows

module _ (s : MemoryStore) where
  update-Moved :
      (given : Activity) (now : ℤ) → Moved s.activities (update_activity given now s).1.activities
  unfolding update_activity merge_activity
  update-Moved given now = elim (Option-cases (lookup given.activity_no s.activities)) [
    | inl missing ↦ rw (missing, update_activity) stayed
    | inr (a, at) ↦ rw (at, update_activity) (replaced given.activity_no a _ at (inl refl))
  ]

  status-Moved :
      (a : String) (status now : ℤ)
      → Moved s.activities (update_activity_status a status now s).1.activities
  unfolding update_activity_status
  status-Moved a status now = elim (Option-cases (lookup a s.activities)) [
    | inl missing ↦ rw (missing, update_activity_status) stayed
    | inr (old, at) ↦ elim (Bool-cases (transit_activity old status now).1) [
      | inl allowed ↦
          rw (at, allowed, update_activity_status)
            (replaced a old _ at (transit-Follows old status now allowed))
      | inr refused ↦ rw (at, refused, update_activity_status) stayed
    ]
  ]

  add-Moved :
      (a : String) (k : Sku) (now : ℤ)
      → Moved s.activities (add_activity_sku a k now s).1.activities
  unfolding add_activity_sku
  add-Moved a k now = elim (Option-cases (lookup a s.activities)) [
    | inl missing ↦ rw (missing, add_activity_sku) stayed
    | inr (old, at) ↦ rw (at, add_activity_sku) (replaced a old _ at (inl refl))
  ]

  remove-Moved :
      (a n : String) (now : ℤ) → Moved s.activities (remove_activity_sku a n now s).1.activities
  unfolding remove_activity_sku
  remove-Moved a n now = elim (Option-cases (lookup a s.activities)) [
    | inl missing ↦ rw (missing, remove_activity_sku) stayed
    | inr (old, at) ↦ elim (Option-cases (lookup (sku_key a n) s.sku_map)) [
      | inl unknown ↦ rw (at, unknown, remove_activity_sku) stayed
      | inr (k, known) ↦ rw (at, known, remove_activity_sku) (replaced a old _ at (inl refl))
    ]
  ]

  read-Moved : (a : String) → Moved s.activities (get_activity a s).1.activities
  unfolding get_activity attach_runtime_stock
  read-Moved a = elim (Option-cases (lookup a s.activities)) [
    | inl missing ↦ rw (missing, get_activity) stayed
    | inr (old, at) ↦ rw (at, get_activity) (replaced a old _ at (inl refl))
  ]

  deduct_keeps :
      (a m : String) (u q limit : ℤ)
      → (deduct_stock_with_limit a m u q limit s).1.activities ≡ s.activities
  unfolding deduct_stock_with_limit
  deduct_keeps a m u q limit = ground arith

  cleanup_keeps :
      (a : String) (ks : List String) → (cleanup_activity_stock a ks s).1.activities ≡ s.activities
  unfolding cleanup_activity_stock
  cleanup_keeps a [] = refl
  cleanup_keeps a (k ∷ ks) = refl

pub apply-Follows :
    (op : Operation) (n : String) (s : MemoryStore)
    → Follows (status_of (lookup n s.activities)) (status_of (lookup n (apply op s).activities))
unfolding apply list_activities release_stock
apply-Follows (update given now) n s = Moved-Follows n _ _ (update-Moved s given now)
apply-Follows (update_status a status now) n s = Moved-Follows n _ _ (status-Moved s a status now)
apply-Follows (put_product a k now) n s = Moved-Follows n _ _ (add-Moved s a k now)
apply-Follows (drop_product a m now) n s = Moved-Follows n _ _ (remove-Moved s a m now)
apply-Follows read_all n s = rw (lookup-attach_all s.stock s.activities n) (stays _)
apply-Follows (read_one a) n s = Moved-Follows n _ _ (read-Moved s a)
apply-Follows (deduct a m u q limit) n s = rw (deduct_keeps s a m u q limit) (stays _)
apply-Follows (release a m u q) n s = stays _
apply-Follows (clean_stock a ks) n s = rw (cleanup_keeps s a ks) (stays _)
