-- ===== src/Stock/Memory/Ledger.antt =====
-- The stock of one SKU against a ledger of what its orders hold.
use seckill_go.Prelude.{
  if◌then◌else◌, Bool-cases, Option-cases, is_some, get_or, ℤ, pos, add64, sub64, add64_pos,
  sub64_pos, ok, Assoc, lookup, insert, delete, lookup-insert, lookup-delete, ℕ, ◌+◌, ◌-◌, ◌≤◌, ◌<◌,
  String, ◌≡◌, refl, sym, ◌∙◌, inl, inr, Bool, true, false, not, ◌&&◌, Option, none, some, List, [],
  ◌∷◌, arith, eq_iff, eq_refl,
}
use seckill_go.Prelude.Totals.{
  sum, IsUnique, sum-insert, sum-delete_absent, sum-delete, insert-IsUnique, delete-IsUnique,
}
use seckill_go.Stock.Memory.{
  MemoryStore, sku_key, reserved_key, deduct_stock_with_limit, release_stock,
}
use seckill_go.Stock.Memory.Deducting.{
  deducted, deduct-Deducted, deduct_reserved, accepted, deduct_refused, accepted-ok,
}

-- What clients ask of one SKU: a deduction with a quantity that is not negative and any limit, or a
-- release.
pub data Call : Type 0 where
  deduct : ℤ → ℕ → ℤ → String → Call
  release : ℤ → String → Call

-- The ledger holds, for each reservation key, the quantity that its order has deducted.
pub record Books : Type 0 where
  pub store : MemoryStore
  pub ledger : Assoc ℕ

module _ (a k : String) where
  abbrev booked : String → ℕ → Bool → MemoryStore → Assoc ℕ → Assoc ℕ
  booked order q accepted s ledger =
      let known = is_some (lookup (reserved_key a k order) s.reserved) in
      if accepted && not known then insert (reserved_key a k order) q ledger else ledger

  -- A client releases an order with the quantity that the order holds.
  unfoldable pub step : Call → Books → Books
  step (deduct user q limit order) b =
      let (result, s) = deduct_stock_with_limit a k user (pos q) limit order b.store in
      record { store = s; ledger = booked order q (accepted result) b.store b.ledger }
  step (release user order) b = record {
    store =
        release_stock a k user (pos (get_or (lookup (reserved_key a k order) b.ledger) 0)) order
          b.store;
    ledger = delete (reserved_key a k order) b.ledger;
  }

  unfoldable pub run : List Call → Books → Books
  run [] b = b
  run (c ∷ cs) b = run cs (step c b)

  -- `total` units are in stock or held by orders, and the ledger has the orders that are reserved.
  pub record IsBalanced (total : ℕ) (b : Books) : Type 0 where
    pub in_stock : ℕ
    pub stocked : lookup (sku_key a k) b.store.stock ≡ some (pos in_stock)
    pub balance : in_stock + sum b.ledger ≡ total
    pub unique : IsUnique b.ledger
    pub held : (j : String) → is_some (lookup j b.store.reserved) ≡ is_some (lookup j b.ledger)

  none_of-is_some : {A : Type 0} (o : Option A) → is_some o ≡ false → o ≡ none
  none_of-is_some none h = refl
  none_of-is_some (some x) h = cc

  module _ (total : ℕ) (small : total < 9223372036854775808) where
    book-IsBalanced :
        (user : ℤ) (q : ℕ) (limit : ℤ) (order : String) (b : Books) (v : IsBalanced total b)
        → is_some (lookup (reserved_key a k order) b.store.reserved) ≡ false
        → q ≤ v.in_stock
        → IsBalanced total (record {
          store = deducted a k user (pos q) limit order b.store (pos v.in_stock);
          ledger = insert (reserved_key a k order) q b.ledger;
        })
    book-IsBalanced user q limit order b v new enough =
        let rk = reserved_key a k order in
        let unheld = none_of-is_some (lookup rk b.ledger) (sym (v.held rk) ∙ new) in
        record {
          in_stock = v.in_stock - q;
          stocked =
              lookup-insert (sku_key a k) (sku_key a k) (sub64 (pos v.in_stock) (pos q))
                b.store.stock
              ∙ ground (
                arith,
                eq_refl (sku_key a k),
                sub64_pos v.in_stock q enough (omega (arith, small, v.balance)),
              );
          balance = omega (arith, v.balance, sum-insert rk q b.ledger unheld, enough);
          unique = insert-IsUnique rk q b.ledger v.unique;
          held = λ j. ground (
            arith,
            lookup-insert rk j "1" b.store.reserved,
            lookup-insert rk j q b.ledger,
            v.held j,
          );
        }

    first-IsBalanced :
        (user : ℤ) (q : ℕ) (limit : ℤ) (order : String) (b : Books)
        → IsBalanced total b
        → is_some (lookup (reserved_key a k order) b.store.reserved) ≡ false
        → (deduct_stock_with_limit a k user (pos q) limit order b.store).0 ≡ ok true
        → IsBalanced total (record {
          store = (deduct_stock_with_limit a k user (pos q) limit order b.store).1;
          ledger = insert (reserved_key a k order) q b.ledger;
        })
    first-IsBalanced user q limit order b v new done =
        let fresh = none_of-is_some (lookup (reserved_key a k order) b.store.reserved) new in
        let (c, d) = deduct-Deducted a k user (pos q) limit order b.store fresh done in
        let e : c ≡ pos v.in_stock = ground (arith, d.in_stock, v.stocked) in
        rw (d.written, e) (book-IsBalanced user q limit order b v new (ground (arith, d.enough, e)))

    -- A deduction moves its quantity from the stock to the ledger, or changes neither.
    deduct-IsBalanced :
        (user : ℤ) (q : ℕ) (limit : ℤ) (order : String) (b : Books)
        → IsBalanced total b
        → IsBalanced total (step (deduct user q limit order) b)
    unfolding step
    deduct-IsBalanced user q limit order b v =
        let result = (deduct_stock_with_limit a k user (pos q) limit order b.store).0 in
        elim (Bool-cases (is_some (lookup (reserved_key a k order) b.store.reserved))) [
          | inl old ↦ rw (deduct_reserved a k user (pos q) limit order b.store old, old) v
          | inr new ↦ elim (Bool-cases (accepted result)) [
            | inl done ↦
                rw (done, new)
                  (first-IsBalanced user q limit order b v new (accepted-ok result done))
            | inr refused ↦
                rw (deduct_refused a k user (pos q) limit order b.store refused, refused) v
          ]
        ]

    release_booked :
        (user : ℤ) (order : String) (b : Books) (v : IsBalanced total b) (q : ℕ)
        → lookup (reserved_key a k order) b.ledger ≡ some q
        → IsBalanced total (step (release user order) b)
    unfolding step release_stock
    release_booked user order b v q found =
        let rk = reserved_key a k order in
        let there : is_some (lookup rk b.store.reserved) ≡ true = ground (arith, v.held rk) in
        let gone = sum-delete rk q b.ledger v.unique found in
        rw (found, there)
          (record {
            in_stock = v.in_stock + q;
            stocked =
                lookup-insert (sku_key a k) (sku_key a k)
                  (add64 (get_or (lookup (sku_key a k) b.store.stock) (pos 0)) (pos q))
                  b.store.stock
                ∙ ground (
                  arith,
                  eq_refl (sku_key a k),
                  v.stocked,
                  add64_pos v.in_stock q (omega (arith, small, v.balance, gone)),
                );
            balance = omega (arith, v.balance, gone);
            unique = delete-IsUnique rk b.ledger v.unique;
            held = λ j.
                ground (
                  arith,
                  lookup-delete rk j b.store.reserved,
                  lookup-delete rk j b.ledger,
                  v.held j,
                );
          })

    release_unbooked :
        (user : ℤ) (order : String) (b : Books) (v : IsBalanced total b)
        → lookup (reserved_key a k order) b.ledger ≡ none
        → IsBalanced total (step (release user order) b)
    unfolding step release_stock
    release_unbooked user order b v absent =
        let rk = reserved_key a k order in
        let missing : is_some (lookup rk b.store.reserved) ≡ false = ground (arith, v.held rk) in
        rw missing (record {
          in_stock = v.in_stock;
          stocked = v.stocked;
          balance = omega (arith, v.balance, sum-delete_absent rk b.ledger absent);
          unique = delete-IsUnique rk b.ledger v.unique;
          held = λ j. ground (arith, lookup-delete rk j b.ledger, v.held j, absent, eq_iff rk j);
        })

    step-IsBalanced : (c : Call) (b : Books) → IsBalanced total b → IsBalanced total (step c b)
    step-IsBalanced (deduct user q limit order) b v = deduct-IsBalanced user q limit order b v
    step-IsBalanced (release user order) b v =
        elim (Option-cases (lookup (reserved_key a k order) b.ledger)) [
          | inl absent ↦ release_unbooked user order b v absent
          | inr (q, found) ↦ release_booked user order b v q found
        ]

    -- Nothing is oversold. From a balanced store, after any calls for the SKU, with any users and
    -- limits and any quantities that are not negative, repeated and refused ones included, the
    -- units in stock and the units that the orders hold still add up to the total, where an order
    -- is released with the quantity that it holds. The total is below 2 ^ 63.
    pub run-IsBalanced :
        (calls : List Call) (b : Books) → IsBalanced total b → IsBalanced total (run calls b)
    unfolding run
    run-IsBalanced [] b v = v
    run-IsBalanced (c ∷ cs) b v = run-IsBalanced cs (step c b) (step-IsBalanced c b v)
