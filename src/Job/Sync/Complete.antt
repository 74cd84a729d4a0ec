-- ===== src/Job/Sync/Complete.antt =====
-- The sync job against the ledger of the support service.
use seckill_go.Prelude.{
  Bool-cases, is_some, ℤ, pos, ok, Assoc, lookup, lookup-insert, suc, String, ◌≡◌, refl, inl, inr,
  Bool, true, false, not, ◌||◌, none, List, [], ◌∷◌, arith, eq_iff, eq_refl,
}
use seckill_go.Support.Ledger.{SyncOrderRequest, SupportLedger, sync_order, get_synced_order}
use seckill_go.Job.Model.{Order, JobError, Activity}
use seckill_go.Job.Reconcile.{is_paid, Tally, one_checked, one_mismatch, no_tally}
use seckill_go.Job.Sync.{SyncServices, sync_order_request, sync_missing, check_orders}

-- The gateways of a job whose sync service is the ledger, at a fixed time; the activities, the orders
-- and the synced orders are what is given.
abbrev pub over_ledger :
    List Activity
    → Assoc (List Order)
    → Assoc seckill_go.Job.Model.SyncedOrder
    → ℤ
    → SyncServices SupportLedger
over_ledger activities orders synced at = record {
  has_activity = true;
  has_orders = true;
  has_sync = true;
  list_activities = λ l. (ok activities, l);
  list_orders_by_activities = λ ns l. (ok orders, l);
  sync_order = λ req l. (none, sync_order req at l);
  list_synced_orders = λ ns l. (ok synced, l);
  now = λ l. (at, l);
}

abbrev pub in_ledger : String → SupportLedger → Bool
in_ledger n l = is_some (get_synced_order n l)

-- Every paid order of a list is in the ledger.
abbrev pub AllSynced : List Order → SupportLedger → Type 0
AllSynced [] l = Unit
AllSynced (o ∷ rest) l = ((not (is_paid o) || in_ledger o.order_no l) ≡ true) × AllSynced rest l

sync_keeps :
    (req : SyncOrderRequest) (at : ℤ) (n : String) (l : SupportLedger)
    → in_ledger n l ≡ true
    → in_ledger n (sync_order req at l) ≡ true
unfolding sync_order get_synced_order
sync_keeps req at n l h = ground (
  arith,
  lookup-insert req.order_no n (record { request = req; order_status = pos 1; created_at = at })
      l.orders,
  eq_iff req.order_no n,
)

sync_stores :
    (req : SyncOrderRequest) (at : ℤ) (l : SupportLedger)
    → in_ledger req.order_no (sync_order req at l) ≡ true
unfolding sync_order get_synced_order
sync_stores req at l = ground (
  arith,
  lookup-insert req.order_no req.order_no
      (record { request = req; order_status = pos 1; created_at = at }) l.orders,
  eq_refl req.order_no,
)

module _ (xs : List Activity) (found : Assoc (List Order))
    (listed : Assoc seckill_go.Job.Model.SyncedOrder) (at : ℤ) where
  abbrev job : SyncServices SupportLedger
  job = over_ledger xs found listed at

  module _ (a : String) (o : Order) (rest : List Order)
      (synced : Assoc seckill_go.Job.Model.SyncedOrder) (t : Tally) (l : SupportLedger) where
    check_skips :
        is_paid o ≡ false
        → check_orders job a (o ∷ rest) synced t l ≡ check_orders job a rest synced t l
    unfolding check_orders
    check_skips unpaid = ground (arith, unpaid)

    check_finds :
        is_paid o ≡ true
        → is_some (lookup o.order_no synced) ≡ true
        → check_orders job a (o ∷ rest) synced t l
          ≡ check_orders job a rest synced (one_checked t) l
    unfolding check_orders
    check_finds paid there = ground (arith, paid, there)

    check_syncs :
        is_paid o ≡ true
        → is_some (lookup o.order_no synced) ≡ false
        → check_orders job a (o ∷ rest) synced t l
          ≡ check_orders job a rest synced
              (record (one_mismatch (one_checked t)) { compensated = suc t.compensated })
              (sync_order (sync_order_request job o at) at l)
    unfolding check_orders sync_missing
    check_syncs paid missing = ground (arith, paid, missing)

  check_none :
      (a : String) (synced : Assoc seckill_go.Job.Model.SyncedOrder) (t : Tally) (l : SupportLedger)
      → check_orders job a [] synced t l ≡ (t, (none, l))
  unfolding check_orders
  check_none a synced t l = refl

  requested : (o : Order) → (sync_order_request job o at).order_no ≡ o.order_no
  unfolding sync_order_request
  requested o = refl

  stored :
      (o : Order) (l : SupportLedger)
      → in_ledger o.order_no (sync_order (sync_order_request job o at) at l) ≡ true
  unfolding sync_order_request
  stored o l = sync_stores (sync_order_request job o at) at l

  run_keeps :
      (a : String) (orders : List Order) (synced : Assoc seckill_go.Job.Model.SyncedOrder)
      (t : Tally) (l : SupportLedger) (n : String)
      → in_ledger n l ≡ true
      → in_ledger n (check_orders job a orders synced t l).1.1 ≡ true
  run_keeps a [] synced t l n h = rw (check_none a synced t l) h
  run_keeps a (o ∷ rest) synced t l n h = elim (Bool-cases (is_paid o)) [
    | inr unpaid ↦ rw (check_skips a o rest synced t l unpaid) (run_keeps a rest synced t l n h)
    | inl paid ↦ elim (Bool-cases (is_some (lookup o.order_no synced))) [
      | inl there ↦
          rw (check_finds a o rest synced t l paid there)
            (run_keeps a rest synced (one_checked t) l n h)
      | inr missing ↦
          rw (check_syncs a o rest synced t l paid missing)
            (run_keeps a rest synced _ _ n (sync_keeps (sync_order_request job o at) at n l h))
    ]
  ]

  run_syncs :
      (a : String) (orders : List Order) (synced : Assoc seckill_go.Job.Model.SyncedOrder)
      (t : Tally) (l : SupportLedger)
      → ((n : String) → is_some (lookup n synced) ≡ true → in_ledger n l ≡ true)
      → ((check_orders job a orders synced t l).1.0 ≡ none)
        × AllSynced orders (check_orders job a orders synced t l).1.1
  run_syncs a [] synced t l known = rw (check_none a synced t l) (refl, tt)
  run_syncs a (o ∷ rest) synced t l known = elim (Bool-cases (is_paid o)) [
    | inr unpaid ↦
        let (fine, all) = run_syncs a rest synced t l known in
        rw (check_skips a o rest synced t l unpaid, unpaid) (fine, (refl, all))
    | inl paid ↦ elim (Bool-cases (is_some (lookup o.order_no synced))) [
      | inl there ↦
          let (fine, all) = run_syncs a rest synced (one_checked t) l known in
          rw (check_finds a o rest synced t l paid there, paid)
            (
              fine,
              (run_keeps a rest synced (one_checked t) l o.order_no (known o.order_no there), all),
            )
      | inr missing ↦
          let l' = sync_order (sync_order_request job o at) at l in
          let (fine, all) =
            run_syncs a rest synced _ l'
              (λ n h. sync_keeps (sync_order_request job o at) at n l (known n h)) in
          rw (check_syncs a o rest synced t l paid missing, paid)
            (fine, (run_keeps a rest synced _ l' o.order_no (stored o l), all))
    ]
  ]

  finds_all :
      (a : String) (orders : List Order) (synced : Assoc seckill_go.Job.Model.SyncedOrder)
      (t : Tally) (l : SupportLedger)
      → ((n : String) → in_ledger n l ≡ true → is_some (lookup n synced) ≡ true)
      → AllSynced orders l
      → ((check_orders job a orders synced t l).0.mismatches ≡ t.mismatches)
        × ((check_orders job a orders synced t l).1 ≡ (none, l))
  finds_all a [] synced t l listed_all all = rw (check_none a synced t l) (refl, refl)
  finds_all a (o ∷ rest) synced t l listed_all all = elim (Bool-cases (is_paid o)) [
    | inr unpaid ↦
        rw (check_skips a o rest synced t l unpaid) (finds_all a rest synced t l listed_all all.1)
    | inl paid ↦
        let there = listed_all o.order_no (ground (arith, paid, all.0)) in
        rw (check_finds a o rest synced t l paid there)
          (finds_all a rest synced (one_checked t) l listed_all all.1)
  ]

-- Over the ledger of the support service, where what is listed as synced first is in the ledger: the
-- check of the orders of an activity ends without an error, and then every paid order of the list is
-- in the ledger; and where all that the ledger has then is listed, a second check finds no mismatch,
-- syncs nothing and leaves the ledger as it is.
pub check_orders_completes :
    (a : String) (orders : List Order) (synced again : Assoc seckill_go.Job.Model.SyncedOrder)
    (at : ℤ) (l : SupportLedger)
    → ((n : String) → is_some (lookup n synced) ≡ true → in_ledger n l ≡ true)
    → ((n : String)
        → in_ledger n (check_orders (over_ledger [] [] [] at) a orders synced no_tally l).1.1 ≡ true
        → is_some (lookup n again) ≡ true)
    → let job = over_ledger [] [] [] at in
      let (t, (error, l')) = check_orders job a orders synced no_tally l in
      (error ≡ none)
      × AllSynced orders l'
      × ((check_orders job a orders again no_tally l').0.mismatches ≡ 0)
      × ((check_orders job a orders again no_tally l').1 ≡ (none, l'))
check_orders_completes a orders synced again at l known complete =
    let (fine, all) = run_syncs [] [] [] at a orders synced no_tally l known in
    let l' = (check_orders (over_ledger [] [] [] at) a orders synced no_tally l).1.1 in
    let (none_missing, same) = finds_all [] [] [] at a orders again no_tally l' complete all in
    (fine, all, none_missing, same)
