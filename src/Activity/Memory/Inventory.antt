-- ===== src/Activity/Memory/Inventory.antt =====
-- The stock, the purchases and the traces of
-- services/activity-service/internal/infrastructure/persistence/memory.go. The loops that delete
-- keys of a map are those of the stock service's store, whose text is the same.
use text.Mathlib.Text.{starts_with}
use seckill_go.Prelude.{
  if◌then◌else◌, get_or, ℤ, pos, ◌+ℤ◌, lt_ℤ, le_ℤ, eq_ℤ, add64, sub64, Result, ok, err, delete,
  insert, lookup, contains, ℕ, String, append, Bool, true, false, not, ◌&&◌, none, some, List, [],
  ◌∷◌,
}
use seckill_go.Stock.Memory.{delete_skus, delete_matching}
use seckill_go.Activity.Memory.{
  StoreError, not_found, stock_not_ready, MemoryStore, sku_key, user_purchase_key,
}

unfoldable pub deduct_stock_with_limit :
    String → String → ℤ → ℤ → ℤ → MemoryStore → Result StoreError Bool × MemoryStore
unfolding sku_key user_purchase_key
deduct_stock_with_limit activity_no sku_no user_id quantity purchase_limit s =
    let key = sku_key activity_no sku_no in
    let purchase_key = user_purchase_key user_id activity_no sku_no in
    let bought = get_or (lookup purchase_key s.purchases) (pos 0) in
    elim (lookup key s.stock) [
      | none ↦ (err stock_not_ready, s)
      | some current ↦
          if lt_ℤ (pos 0) purchase_limit && lt_ℤ purchase_limit (add64 bought quantity)
          then (ok false, s)
          else if lt_ℤ current quantity
          then (ok false, s)
          else (
            ok true,
            record s {
              stock = insert key (sub64 current quantity) s.stock;
              purchases =
                  if lt_ℤ (pos 0) purchase_limit
                  then insert purchase_key (add64 bought quantity) s.purchases
                  else s.purchases;
            },
          )
    ]

unfoldable pub release_stock : String → String → ℤ → ℤ → MemoryStore → MemoryStore
unfolding sku_key user_purchase_key
release_stock activity_no sku_no user_id quantity s =
    let key = sku_key activity_no sku_no in
    let purchase_key = user_purchase_key user_id activity_no sku_no in
    let bought = get_or (lookup purchase_key s.purchases) (pos 0) in
    record s {
      stock = insert key (add64 (get_or (lookup key s.stock) (pos 0)) quantity) s.stock;
      purchases =
          if le_ℤ bought quantity
          then delete purchase_key s.purchases
          else insert purchase_key (sub64 bought quantity) s.purchases;
    }

unfoldable pub cleanup_activity_stock : String → List String → MemoryStore → ℕ × MemoryStore
cleanup_activity_stock activity_no [] s =
    let (deleted, rest) =
      delete_matching (λ key. starts_with key (append activity_no ":")) s.stock in
    (deleted, record s { stock = rest })
cleanup_activity_stock activity_no (sku_no ∷ sku_nos) s =
    let (deleted, rest) = delete_skus activity_no (sku_no ∷ sku_nos) 0 s.stock in
    (deleted, record s { stock = rest })

unfoldable pub cleanup_activity_purchases : String → MemoryStore → ℕ × MemoryStore
unfolding delete_matching
cleanup_activity_purchases activity_no s =
    let (deleted, rest) =
      delete_matching (λ key. contains key (append ":" (append activity_no ":"))) s.purchases in
    (deleted, record s { purchases = rest })

abbrev pub trace_processing : String
trace_processing = "PROCESSING"

unfoldable pub expired : ℤ → ℤ → Bool
expired expires_at now = not (eq_ℤ expires_at (pos 0)) && lt_ℤ expires_at now

-- `mark` of the three methods that write a result; `until` is `time.Now().Add(ttl)`.
unfoldable pub mark_trace : String → String → ℤ → MemoryStore → MemoryStore
mark_trace trace_id value until s = record s {
  trace_results = insert trace_id (record { value = value; expires_at = until }) s.trace_results;
}

unfoldable pub try_start_trace : String → ℤ → ℤ → MemoryStore → Bool × MemoryStore
unfolding expired mark_trace
try_start_trace trace_id ttl now s =
    let started = mark_trace trace_id trace_processing (now +ℤ ttl) s in
    elim (lookup trace_id s.trace_results) [
      | none ↦ (true, started)
      | some v ↦ if expired v.expires_at now then (true, started) else (false, s)
    ]

unfoldable pub get_trace_result : String → ℤ → MemoryStore → Result StoreError String × MemoryStore
unfolding expired
get_trace_result trace_id now s =
    let gone = record s { trace_results = delete trace_id s.trace_results } in
    elim (lookup trace_id s.trace_results) [
      | none ↦ (err not_found, gone)
      | some v ↦ if expired v.expires_at now then (err not_found, gone) else (ok v.value, s)
    ]

unfoldable pub delete_trace : String → MemoryStore → MemoryStore
delete_trace trace_id s = record s { trace_results = delete trace_id s.trace_results }
