-- ===== src/Stock/App.antt =====
-- services/stock-service/internal/application: the commands and the service that runs them over a
-- repository and an event bus. The repository and the bus are parameters with a state of their own.
pub mod Publishing
use seckill_go.Prelude.{
  if◌then◌else◌, ℤ, pos, le_ℤ, Result, ok, err, String, Bool, true, false, Option, none, some, List,
  [], ◌∷◌, ◌++◌, str_eq,
}
use seckill_go.Stock.Entity.{StockError, Stock, new_stock_from_state}

pub record ReserveStockCommand : Type 0 where
  pub activity_no : String
  pub sku_no : String
  pub user_id : ℤ
  pub quantity : ℤ
  pub purchase_limit : ℤ
  pub order_no : String

pub record ReleaseStockCommand : Type 0 where
  pub activity_no : String
  pub sku_no : String
  pub user_id : ℤ
  pub quantity : ℤ
  pub order_no : String

-- `errors.New` of `Validate`.
pub data Invalid : Type 0 where
  activity_no_required : Invalid
  sku_no_required : Invalid
  user_id_not_positive : Invalid
  quantity_not_positive : Invalid
  order_no_required : Invalid

-- A nil error is `none`.
pub validate_reserve : ReserveStockCommand → Option Invalid
validate_reserve c =
    if str_eq c.activity_no ""
    then some activity_no_required
    else if str_eq c.sku_no ""
    then some sku_no_required
    else if le_ℤ c.user_id (pos 0)
    then some user_id_not_positive
    else if le_ℤ c.quantity (pos 0)
    then some quantity_not_positive
    else if str_eq c.order_no ""
    then some order_no_required
    else none

pub validate_release : ReleaseStockCommand → Option Invalid
validate_release c =
    if str_eq c.activity_no ""
    then some activity_no_required
    else if str_eq c.sku_no ""
    then some sku_no_required
    else if le_ℤ c.quantity (pos 0)
    then some quantity_not_positive
    else if str_eq c.order_no ""
    then some order_no_required
    else none

-- The two events of internal/domain/event/stock_events.go, without the clock reading.
pub data StockEvent : Type 0 where
  stock_reserved :
      (activity_no sku_no : String) (quantity user_id : ℤ) (order_no : String) → StockEvent
  stock_released :
      (activity_no sku_no : String) (quantity user_id : ℤ) (order_no : String) → StockEvent

-- The aggregate of stock_aggregate.go: a stock, and the events that it has recorded.
pub record StockAggregate : Type 0 where
  pub stock : Stock
  pub events : List StockEvent

unfoldable pub new_stock_aggregate : Stock → StockAggregate
new_stock_aggregate stock = record { stock = stock; events = [] }

unfoldable pub record_reserved : ℤ → ℤ → String → StockAggregate → StockAggregate
record_reserved quantity user_id order_no a = record a {
  events =
      a.events ++ stock_reserved a.stock.activity_no a.stock.sku_no quantity user_id order_no ∷ [];
}

unfoldable pub record_released : ℤ → ℤ → String → StockAggregate → StockAggregate
record_released quantity user_id order_no a = record a {
  events =
      a.events ++ stock_released a.stock.activity_no a.stock.sku_no quantity user_id order_no ∷ [];
}

-- The errors of the service; `failed` carries the text of the `fmt.Errorf` that wraps.
pub data AppError : Type 0 where
  command_validation : Invalid → AppError
  failed : String → StockError → AppError
  insufficient : AppError
  publish_failed : AppError

-- repository.StockRepository, as far as the service calls it, over a state `R`.
pub record StockRepository (R : Type 0) : Type 0 where
  pub peek : String → String → R → Result StockError ℤ
  pub deduct : String → String → ℤ → ℤ → ℤ → String → R → Result StockError Bool × R
  pub release_order : String → String → ℤ → ℤ → String → R → Option StockError × R

-- eventbus.Bus, over a state `B`: `true` is a nil error.
pub record Bus (E B : Type 0) : Type 0 where
  pub publish : E → B → Bool × B

module _ {R B : Type 0} (repo : StockRepository R) (bus : Bus StockEvent B) where
  -- The loop over the aggregate's events.
  unfoldable pub publish_all : List StockEvent → B → Option AppError × B
  publish_all [] b = (none, b)
  publish_all (e ∷ es) b =
      let (sent, b') = bus.publish e b in
      let rest = publish_all es b' in if sent then rest else (some publish_failed, b')

  -- Steps 4 to 6: read the stock back, record the event on an aggregate and publish it.
  announce :
      (StockAggregate → StockAggregate) → String → String → String → R → B → Option AppError × R × B
  unfolding publish_all new_stock_aggregate
  announce note init activity_no sku_no r b = elim (repo.peek activity_no sku_no r) [
    | err e ↦ (some (failed "peek stock failed" e), r, b)
    | ok available ↦ elim (new_stock_from_state activity_no sku_no available available) [
      | err e ↦ (some (failed init e), r, b)
      | ok stock ↦
          let (result, b') = publish_all (note (new_stock_aggregate stock)).events b in
          (result, r, b')
    ]
  ]

  reserve_validated : ReserveStockCommand → R → B → Option AppError × R × B
  unfolding announce record_reserved
  reserve_validated c r b =
      let (result, r') =
        repo.deduct c.activity_no c.sku_no c.user_id c.quantity c.purchase_limit c.order_no r in
      elim result [
        | err e ↦ (some (failed "deduct stock failed" e), r', b)
        | ok false ↦ (some insufficient, r', b)
        | ok true ↦
            announce (record_reserved c.quantity c.user_id c.order_no) "init stock from state"
              c.activity_no c.sku_no r' b
      ]

  unfoldable pub reserve_stock : ReserveStockCommand → R → B → Option AppError × R × B
  unfolding reserve_validated validate_reserve
  reserve_stock c r b = elim (validate_reserve c) [
    | some e ↦ (some (command_validation e), r, b)
    | none ↦ reserve_validated c r b
  ]

  release_validated : ReleaseStockCommand → R → B → Option AppError × R × B
  unfolding announce record_released
  release_validated c r b =
      let (result, r') =
        repo.release_order c.activity_no c.sku_no c.user_id c.quantity c.order_no r in
      elim result [
        | some e ↦ (some (failed "release stock failed" e), r', b)
        | none ↦
            announce (record_released c.quantity c.user_id c.order_no) "restore stock from state"
              c.activity_no c.sku_no r' b
      ]

  unfoldable pub release_stock : ReleaseStockCommand → R → B → Option AppError × R × B
  unfolding release_validated validate_release
  release_stock c r b = elim (validate_release c) [
    | some e ↦ (some (command_validation e), r, b)
    | none ↦ release_validated c r b
  ]
