-- ===== src/Stock/Entity.antt =====
-- services/stock-service/internal/domain/entity/stock.go. Quantities are `int64`; a method that
-- returns `(Stock, error)` returns the pair, with `none` for a nil error.
pub mod Reserving
use seckill_go.Prelude.{
  Bool, true, ◌&&◌, ◌||◌, String, str_eq, ℤ, pos, lt_ℤ, le_ℤ, add64, sub64, Option, none, some,
  Result, ok, err, if◌then◌else◌,
}

-- The sentinel errors, `errors.New` of NewStock, and the sentinels of the repositories.
pub data StockError : Type 0 where
  invalid_quantity : StockError
  empty_activity_no : StockError
  empty_sku_no : StockError
  stock_insufficient : StockError
  negative_stock : ℤ → ℤ → StockError
  stock_not_ready : StockError
  duplicate : StockError

pub record Stock : Type 0 where
  pub activity_no : String
  pub sku_no : String
  pub total : ℤ
  pub available : ℤ

unfoldable pub new_stock : String → String → ℤ → ℤ → Result StockError Stock
new_stock activity_no sku_no total available =
    if str_eq activity_no ""
    then err empty_activity_no
    else if str_eq sku_no ""
    then err empty_sku_no
    else if lt_ℤ total (pos 0) || lt_ℤ available (pos 0)
    then err (negative_stock total available)
    else ok (record {
      activity_no = activity_no;
      sku_no = sku_no;
      total = total;
      available = available;
    })

unfoldable pub new_stock_from_state : String → String → ℤ → ℤ → Result StockError Stock
unfolding new_stock
new_stock_from_state activity_no sku_no total available =
    new_stock activity_no sku_no total available

unfoldable pub can_reserve : Stock → ℤ → Bool
can_reserve s quantity = lt_ℤ (pos 0) quantity && le_ℤ quantity s.available

unfoldable pub reserve : Stock → ℤ → Stock × Option StockError
reserve s quantity =
    if le_ℤ quantity (pos 0)
    then (s, some invalid_quantity)
    else if lt_ℤ s.available quantity
    then (s, some stock_insufficient)
    else (record s { available = sub64 s.available quantity }, none)

unfoldable pub release : Stock → ℤ → Stock × Option StockError
release s quantity =
    if le_ℤ quantity (pos 0)
    then (s, some invalid_quantity)
    else (record s { available = add64 s.available quantity }, none)

pub record StockReservation : Type 0 where
  pub activity_no : String
  pub sku_no : String
  pub order_no : String
  pub user_id : ℤ
  pub quantity : ℤ

unfoldable pub new_stock_reservation :
    String → String → String → ℤ → ℤ → Result StockError StockReservation
new_stock_reservation activity_no sku_no order_no user_id quantity =
    if str_eq activity_no ""
    then err empty_activity_no
    else if str_eq sku_no ""
    then err empty_sku_no
    else if le_ℤ quantity (pos 0)
    then err invalid_quantity
    else ok (record {
      activity_no = activity_no;
      sku_no = sku_no;
      order_no = order_no;
      user_id = user_id;
      quantity = quantity;
    })

unfoldable pub validate_against_purchase_limit : StockReservation → ℤ → ℤ → Bool
validate_against_purchase_limit r current_purchased limit =
    if le_ℤ limit (pos 0) then true else le_ℤ (add64 current_purchased r.quantity) limit
