-- ===== src/Stock/Memory/Limit.antt =====
-- The purchase limit of one SKU, whoever buys.
use seckill_go.Prelude.{
  if◌then◌else◌, Bool-cases, Option-cases, is_some, get_or, ℤ, pos, lt_ℤ, add64, sub64, add64_pos,
  sub64_pos, lookup, lookup-insert, lookup-delete, ℕ, ◌+◌, ◌-◌, ◌≤◌, ◌<◌, String, ◌≡◌, ap, inl, inr,
  false, ◌&&◌, List, [], ◌∷◌, arith, str_eq,
}
use seckill_go.Stock.Memory.{
  MemoryStore, user_purchase_key, reserved_key, deduct_stock_with_limit, release_stock,
}
use seckill_go.Stock.Memory.Deducting.{
  purchased_in, deducted, deduct-Deducted, deduct_reserved, accepted, deduct_refused, accepted-ok,
}
use seckill_go.Stock.Memory.Ledger.{Call, deduct, release, Books, step, run}

-- Every deduction states the SKU's limit, and no quantity overflows when it is added to the limit; no
-- quantity of a `Call` is negative.
abbrev pub States : ℕ → List Call → Type 0
States limit [] = Unit
States limit (deduct user q l order ∷ cs) =
    (l ≡ pos limit) × (limit + q < 9223372036854775808) × States limit cs
States limit (release user order ∷ cs) = States limit cs

-- No number bought is negative or above the limit.
pub record IsWithin (limit : ℕ) (s : MemoryStore) : Type 0 where
  pub bought : String → ℕ
  pub counts : (j : String) → purchased_in s.purchases j ≡ pos (bought j)
  pub within : (j : String) → bought j ≤ limit

module _ (a k : String) (limit : ℕ) (some_limit : 0 < limit) where
  bought_more :
      (user : ℤ) (q : ℕ) (order : String) (s : MemoryStore) (c : ℤ)
      → limit + q < 9223372036854775808
      → (w : IsWithin limit s)
      → lt_ℤ (pos limit) (add64 (purchased_in s.purchases (user_purchase_key user a k)) (pos q))
        ≡ false
      → IsWithin limit (deducted a k user (pos q) (pos limit) order s c)
  bought_more user q order s c small w allowed =
      let key = user_purchase_key user a k in
      let exact = add64_pos (w.bought key) q (omega (arith, small, w.within key)) in
      record {
        bought = λ j. if str_eq key j then w.bought key + q else w.bought j;
        counts = λ j. ground (
          arith,
          some_limit,
          lookup-insert key j (add64 (purchased_in s.purchases key) (pos q)) s.purchases,
          w.counts key,
          w.counts j,
          exact,
        );
        within = λ j. ground (arith, w.counts key, exact, w.within j);
      }

  deduct-IsWithin :
      (user : ℤ) (q : ℕ) (order : String) (s : MemoryStore)
      → limit + q < 9223372036854775808
      → IsWithin limit s
      → IsWithin limit (deduct_stock_with_limit a k user (pos q) (pos limit) order s).1
  deduct-IsWithin user q order s small w =
      let result = (deduct_stock_with_limit a k user (pos q) (pos limit) order s).0 in
      let known = lookup (reserved_key a k order) s.reserved in
      elim (Option-cases known) [
        | inr (v, old) ↦
            rw (deduct_reserved a k user (pos q) (pos limit) order s (ap is_some old)) w
        | inl fresh ↦ elim (Bool-cases (accepted result)) [
          | inr refused ↦ rw (deduct_refused a k user (pos q) (pos limit) order s refused) w
          | inl done ↦
              let (c, d) =
                deduct-Deducted a k user (pos q) (pos limit) order s fresh
                  (accepted-ok result done) in
              rw (d.written)
                (bought_more user q order s c small w (d.allowed (ground (arith, some_limit))))
        ]
      ]

  release-IsWithin :
      (user : ℤ) (q : ℕ) (order : String) (s : MemoryStore)
      → limit < 9223372036854775808
      → (w : IsWithin limit s) → IsWithin limit (release_stock a k user (pos q) order s)
  unfolding release_stock
  release-IsWithin user q order s small w =
      let key = user_purchase_key user a k in
      let there = is_some (lookup (reserved_key a k order) s.reserved) in
      record {
        bought = λ j. if there && str_eq key j then w.bought key - q else w.bought j;
        counts = λ j. ground (
          arith,
          lookup-delete key j s.purchases,
          lookup-insert key j (sub64 (purchased_in s.purchases key) (pos q)) s.purchases,
          w.counts key,
          w.counts j,
          w.within key,
          sub64_pos (w.bought key) q,
        );
        within = λ j. ground (arith, w.within j, w.within key);
      }

  -- Where every deduction for the SKU states the same positive limit and a quantity that is not
  -- negative and whose sum with the limit is below 2 ^ 63, and where every order is released with
  -- the quantity that it holds: from a store in which every number bought is at least zero and at
  -- most the limit, this is so after any deductions, repeated and refused ones included, and
  -- releases.
  pub run-IsWithin :
      limit < 9223372036854775808
      → (calls : List Call) (b : Books) → States limit calls
      → IsWithin limit b.store
      → IsWithin limit (run a k calls b).store
  unfolding run step
  run-IsWithin small [] b h w = w
  run-IsWithin small (deduct user q l order ∷ cs) b h w =
      run-IsWithin small cs (step a k (deduct user q l order) b) h.2
        (rw (h.0) (deduct-IsWithin user q order b.store h.1 w))
  run-IsWithin small (release user order ∷ cs) b h w =
      run-IsWithin small cs (step a k (release user order) b) h (
        release-IsWithin user (get_or (lookup (reserved_key a k order) b.ledger) 0) order b.store
          small w)
