-- ===== src/Order/Store/Batch.antt =====
-- The batch listing against the listing of one activity.
use mathlib.Core.List.{append_assoc}
use seckill_go.Prelude.{
  if◌then◌else◌, Bool-cases, is_some, get_or, Assoc, insert, lookup, lookup-insert, String, ◌≡◌,
  refl, inl, inr, Bool, true, false, not, ◌&&◌, ◌||◌, Option, none, some, List, [], ◌∷◌, ◌++◌,
  arith, str_eq, eq_iff, lookup-empty, sym, ap, ◌∙◌, eq_refl,
}
use seckill_go.Order.Entity.{Order}
use seckill_go.Order.Store.{
  MemoryStore, sort_orders_by_create_time_desc, matching, asked_for, group_orders, sort_groups,
  list_orders_by_activity, list_orders_by_activities,
}

-- Whether an activity is asked for, with a number that is not empty.
abbrev pub is_asked : String → List String → Bool
is_asked a [] = false
is_asked a (b ∷ rest) = (str_eq a b && not (str_eq b "")) || is_asked a rest

sorted_group : Option (List Order) → Option (List Order)
unfolding sort_orders_by_create_time_desc
sorted_group none = none
sorted_group (some os) = some (sort_orders_by_create_time_desc os)

lookup-sort_groups :
    (a : String) (m : Assoc (List Order)) → lookup a (sort_groups m) ≡ sorted_group (lookup a m)
unfolding sort_groups lookup sorted_group
lookup-sort_groups a [] = refl
lookup-sort_groups a ((b, os) ∷ m) = ground (arith, lookup-sort_groups a m)

lookup-asked_for :
    (a : String) (numbers : List String) (m : Assoc (List Order))
    → lookup a (asked_for numbers m)
      ≡ (if is_some (lookup a m) then lookup a m else if is_asked a numbers then some [] else none)
unfolding asked_for
lookup-asked_for a [] m = ground arith
lookup-asked_for a (b ∷ rest) m = ground (
  arith,
  lookup-asked_for a rest m,
  lookup-asked_for a rest (insert b [] m),
  lookup-insert b a [] m,
  eq_iff a b,
  eq_iff b a,
)

abbrev of_activity : String → MemoryStore → List Order
of_activity a s = matching (λ o. str_eq o.activity_no a) s

group_none :
    (a : String) (wanted : Assoc (List Order)) (s : MemoryStore) (m : Assoc (List Order))
    → is_some (lookup a wanted) ≡ false
    → lookup a (group_orders wanted s m) ≡ lookup a m
unfolding group_orders
group_none a wanted [] m h = refl
group_none a wanted ((n, o) ∷ s) m h =
    let more = get_or (lookup o.activity_no m) [] ++ o ∷ [] in
    ground (
      arith,
      h,
      group_none a wanted s m h,
      group_none a wanted s (insert o.activity_no more m) h,
      lookup-insert o.activity_no a more m,
      eq_iff o.activity_no a,
    )

nothing_after : (os : List Order) → os ++ [] ≡ os
nothing_after [] = refl
nothing_after (o ∷ os) = cc (nothing_after os)

group_some :
    (a : String) (wanted : Assoc (List Order)) (s : MemoryStore) (m : Assoc (List Order))
    (os : List Order)
    → is_some (lookup a wanted) ≡ true
    → lookup a m ≡ some os
    → lookup a (group_orders wanted s m) ≡ some (os ++ of_activity a s)
unfolding group_orders matching
group_some a wanted [] m os h at = at ∙ ap some (sym (nothing_after os))
group_some a wanted ((n, o) ∷ s) m os h at =
    let more = get_or (lookup o.activity_no m) [] ++ o ∷ [] in
    let m' = insert o.activity_no more m in
    elim (Bool-cases (str_eq o.activity_no a)) [
      | inl same ↦
          let e = (eq_iff o.activity_no a).0 same in
          let at' : lookup a m' ≡ some (os ++ o ∷ []) =
            ground (arith, at, e, lookup-insert o.activity_no a more m, eq_refl a) in
          ground (
            arith,
            same,
            e,
            h,
            group_some a wanted s m' (os ++ o ∷ []) h at',
            append_assoc os (o ∷ []) (of_activity a s),
          )
      | inr differs ↦
          let at' : lookup a m' ≡ some os =
            ground (arith, at, differs, lookup-insert o.activity_no a more m) in
          ground
            (arith, differs, group_some a wanted s m os h at, group_some a wanted s m' os h at')
    ]

sorted_single :
    (a : String) (s : MemoryStore)
    → sorted_group (some (of_activity a s)) ≡ some (list_orders_by_activity a s)
unfolding list_orders_by_activity sorted_group
sorted_single a s = refl

-- The batch listing has, for each activity number that is asked for and is not empty, exactly the
-- listing of that activity, and no other key.
pub batch_agrees :
    (activity_nos : List String) (a : String) (s : MemoryStore)
    → lookup a (list_orders_by_activities activity_nos s)
      ≡ (if is_asked a activity_nos then some (list_orders_by_activity a s) else none)
unfolding list_orders_by_activities sorted_group
batch_agrees activity_nos a s =
    let wanted = asked_for activity_nos [] in
    let at : lookup a wanted ≡ (if is_asked a activity_nos then some [] else none) =
      ground (arith, lookup-asked_for a activity_nos [], lookup-empty {0} {V = List Order} a) in
    lookup-sort_groups a (group_orders wanted s wanted)
    ∙ elim (Bool-cases (is_asked a activity_nos)) [
      | inl asked ↦
          let found : lookup a wanted ≡ some [] = ground (arith, at, asked) in
          ap sorted_group (group_some a wanted s wanted [] (ap is_some found) found)
          ∙ sorted_single a s
          ∙ rw asked refl
      | inr unasked ↦
          let missing : lookup a wanted ≡ none = ground (arith, at, unasked) in
          ap sorted_group (group_none a wanted s wanted (ap is_some missing) ∙ missing)
          ∙ rw unasked refl
    ]
