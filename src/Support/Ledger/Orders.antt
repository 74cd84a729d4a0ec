-- ===== src/Support/Ledger/Orders.antt =====
-- A synced order is stored once.
use seckill_go.Prelude.{
  ℤ, pos, lookup-insert, String, ◌≡◌, none, some, List, [], ◌∷◌, arith, eq_iff, eq_refl,
}
use seckill_go.Support.Ledger.{
  SyncOrderRequest, SyncedOrder, SupportLedger, sync_order, get_synced_order,
}

pub sync_orders : List (SyncOrderRequest × ℤ) → SupportLedger → SupportLedger
sync_orders [] l = l
sync_orders ((req, now) ∷ rest) l = sync_orders rest (sync_order req now l)

one_sync :
    (req : SyncOrderRequest) (now : ℤ) (number : String) (o : SyncedOrder) (l : SupportLedger)
    → get_synced_order number l ≡ some o
    → get_synced_order number (sync_order req now l) ≡ some o
unfolding sync_order get_synced_order
one_sync req now number o l h = ground (
  arith,
  lookup-insert req.order_no number
      (record { request = req; order_status = pos 1; created_at = now }) l.orders,
  eq_iff req.order_no number,
)

kept :
    (syncs : List (SyncOrderRequest × ℤ)) (number : String) (o : SyncedOrder) (l : SupportLedger)
    → get_synced_order number l ≡ some o
    → get_synced_order number (sync_orders syncs l) ≡ some o
unfolding sync_orders
kept [] number o l h = h
kept ((req, now) ∷ rest) number o l h =
    kept rest number o (sync_order req now l) (one_sync req now number o l h)

first_stored :
    (req : SyncOrderRequest) (now : ℤ) (l : SupportLedger)
    → get_synced_order req.order_no l ≡ none
    → get_synced_order req.order_no (sync_order req now l)
      ≡ some (record { request = req; order_status = pos 1; created_at = now })
unfolding sync_order get_synced_order
first_stored req now l h = ground (
  arith,
  lookup-insert req.order_no req.order_no
      (record { request = req; order_status = pos 1; created_at = now }) l.orders,
  eq_refl req.order_no,
)

-- The first sync of an order decides what is stored for it: it is found as it was requested, and no
-- later syncs, for this order or others, change that.
pub first_sync_wins :
    (req : SyncOrderRequest) (now : ℤ) (syncs : List (SyncOrderRequest × ℤ)) (l : SupportLedger)
    → get_synced_order req.order_no l ≡ none
    → get_synced_order req.order_no (sync_orders ((req, now) ∷ syncs) l)
      ≡ some (record { request = req; order_status = pos 1; created_at = now })
unfolding sync_orders
first_sync_wins req now syncs l h =
    kept syncs req.order_no _ (sync_order req now l) (first_stored req now l h)
