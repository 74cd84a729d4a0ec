-- ===== src/Tests/Stock.antt =====
-- The stock service's in-memory store on a stock of five units.
use seckill_go.Prelude.{
  ℤ, pos, InInt64, ok, lookup, String, ◌≡◌, refl, true, none, some, List, [], ◌∷◌, arith, ◌+ℤ◌,
  wrap64, add64, insert,
}
use seckill_go.Prelude.Totals.{sum}
use seckill_go.Stock.Memory.{
  MemoryStore, sku_key, user_purchase_key, reserved_key, deduct_stock_with_limit, release_stock,
}
use seckill_go.Stock.Memory.Ledger.{Call, deduct, release, Books, IsBalanced, run, run-IsBalanced}
use seckill_go.Stock.Memory.Limit.{States, IsWithin, run-IsWithin}
use seckill_go.Stock.Memory.Undo.{SameView, release-deduct}

abbrev five_units : MemoryStore
five_units = record { stock = ("A:S", pos 5) ∷ []; purchases = []; reserved = [] }

abbrev books : Books
books = record { store = five_units; ledger = [] }

abbrev sales : List Call
sales =
    deduct (pos 7) 2 (pos 3) "o1"
    ∷ deduct (pos 7) 2 (pos 3) "o2"
    ∷ deduct (pos 8) 3 (pos 3) "o3"
    ∷ deduct (pos 9) 1 (pos 3) "o4"
    ∷ release (pos 7) "o1"
    ∷ []

books-IsBalanced : IsBalanced "A" "S" 5 books
unfolding lookup sku_key sum
books-IsBalanced = record {
  in_stock = 5;
  stocked = refl;
  balance = refl;
  unique = tt;
  held = λ j. refl;
}

run-IsBalanced_example : IsBalanced "A" "S" 5 (run "A" "S" sales books)
run-IsBalanced_example = run-IsBalanced "A" "S" 5 (omega arith) sales books books-IsBalanced

five_units-IsWithin : IsWithin 3 five_units
unfolding lookup ◌+ℤ◌
five_units-IsWithin = record { bought = λ j. 0; counts = λ j. refl; within = λ j. omega arith }

sales-States : States 3 sales
sales-States = ground arith

run-IsWithin_example : IsWithin 3 (run "A" "S" sales books).store
run-IsWithin_example =
    run-IsWithin "A" "S" 3 (omega arith) (omega arith) sales books sales-States five_units-IsWithin

deducted_ok : (deduct_stock_with_limit "A" "S" (pos 7) (pos 2) (pos 3) "o1" five_units).0 ≡ ok true
unfolding deduct_stock_with_limit lookup insert reserved_key sku_key user_purchase_key add64 wrap64
    ◌+ℤ◌
deducted_ok = refl

stock_fits : (j : String) (c : ℤ) → lookup j five_units.stock ≡ some c → InInt64 c
unfolding lookup ◌+ℤ◌
stock_fits j c h = ground arith

not_reserved : lookup (reserved_key "A" "S" "o1") five_units.reserved ≡ none
unfolding lookup reserved_key
not_reserved = refl

release-deduct_example :
    SameView
      (release_stock "A" "S"
        (pos 7)
        (pos 2)
        "o1"
        (deduct_stock_with_limit "A" "S" (pos 7) (pos 2) (pos 3) "o1" five_units).1)
      five_units
unfolding lookup ◌+ℤ◌
release-deduct_example =
    release-deduct "A" "S" (pos 7) (pos 2) (pos 3) "o1" five_units stock_fits (ground arith)
      (ground arith) (ground arith) (ground arith) (ground arith) not_reserved deducted_ok
