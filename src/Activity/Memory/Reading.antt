-- ===== src/Activity/Memory/Reading.antt =====
-- What a read of an activity does to the store.
use seckill_go.Prelude.{
  get_or, ℤ, pos, Result, ok, err, Assoc, lookup, lookup-insert, String, ◌≡◌, refl, none, some,
  List, [], ◌∷◌, arith, eq_refl,
}
use seckill_go.Activity.Status.{Sku, Activity}
use seckill_go.Activity.Memory.{
  StoreError, MemoryStore, sku_key, with_stock, attach_runtime_stock, get_activity,
}

attached_twice :
    (a : String) (stock : Assoc ℤ) (ks : List Sku)
    → with_stock a stock (with_stock a stock ks) ≡ with_stock a stock ks
unfolding with_stock
attached_twice a stock [] = refl
attached_twice a stock (k ∷ rest) = rw (attached_twice a stock rest) refl

-- The totals of the products of the activity that the store itself keeps.
abbrev pub totals : List Sku → List ℤ
totals [] = []
totals (k ∷ rest) = k.total_stock ∷ totals rest

abbrev pub stored_skus : String → MemoryStore → List Sku
stored_skus a s = elim (lookup a s.activities) [ none ↦ [] | some act ↦ act.skus ]

-- What the stock holds for the listed products, 0 where it holds nothing.
pub remaining : String → List Sku → MemoryStore → List ℤ
remaining a [] s = []
remaining a (k ∷ rest) s = get_or (lookup (sku_key a k.sku_no) s.stock) (pos 0) ∷ remaining a rest s

totals-with_stock :
    (a : String) (ks : List Sku) (s : MemoryStore)
    → totals (with_stock a s.stock ks) ≡ remaining a ks s
unfolding with_stock remaining
totals-with_stock a [] s = refl
totals-with_stock a (k ∷ rest) s = rw (totals-with_stock a rest s) refl

-- The products but for their totals.
abbrev pub untotalled : List Sku → List Sku
untotalled [] = []
untotalled (k ∷ rest) = record k { total_stock = pos 0 } ∷ untotalled rest

untotalled-with_stock :
    (a : String) (ks : List Sku) (s : MemoryStore)
    → untotalled (with_stock a s.stock ks) ≡ untotalled ks
unfolding with_stock
untotalled-with_stock a [] s = refl
untotalled-with_stock a (k ∷ rest) s = rw (untotalled-with_stock a rest s) refl

-- An answer with the activity, its products in their order and the remaining stock as their totals.
abbrev pub Shows : Activity → MemoryStore → Result StoreError Activity → Type 0
Shows act s (err e) = ⊥
Shows act s (ok shown) =
    (shown ≡ record act { skus = shown.skus })
    × (untotalled shown.skus ≡ untotalled act.skus)
    × (totals shown.skus ≡ remaining act.activity_no act.skus s)

reads :
    (a : String) (act : Activity) (s : MemoryStore)
    → lookup a s.activities ≡ some act
    → act.activity_no ≡ a
    → let shown = record act { skus = with_stock a s.stock act.skus } in
      ((get_activity a s).0 ≡ ok shown)
      × (lookup a (get_activity a s).1.activities ≡ some shown)
      × ((get_activity a s).1.stock ≡ s.stock)
unfolding get_activity attach_runtime_stock
reads a act s there own = ground (
  arith,
  lookup-insert a a (record act { skus = with_stock a s.stock act.skus }) s.activities,
  eq_refl a,
)

-- Reading an activity of the store gives it with its products, in their order, and the remaining
-- stock as the only change, in their totals; it writes these totals over the ones that the store
-- kept; reading again gives the same answer and leaves the same products in the store.
pub read_overwrites_totals :
    (a : String) (act : Activity) (s : MemoryStore)
    → lookup a s.activities ≡ some act
    → act.activity_no ≡ a
    → let (read, s') = get_activity a s in
      Shows act s read
      × (totals (stored_skus a s') ≡ remaining a act.skus s)
      × ((get_activity a s').0 ≡ read)
      × (stored_skus a (get_activity a s').1 ≡ stored_skus a s')
read_overwrites_totals a act s there own =
    let shown = record act { skus = with_stock a s.stock act.skus } in
    let (first, kept, stock) = reads a act s there own in
    let (second, again, still) = reads a shown (get_activity a s).1 kept own in
    ground (
      arith,
      first,
      kept,
      second,
      again,
      stock,
      own,
      attached_twice a s.stock act.skus,
      totals-with_stock a act.skus s,
      untotalled-with_stock a act.skus s,
    )
