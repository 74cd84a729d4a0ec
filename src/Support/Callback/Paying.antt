-- ===== src/Support/Callback/Paying.antt =====
-- Asking to pay twice.
use mathlib.Core.Path.{subst}
use seckill_go.Prelude.{
  ℤ, eq_ℤ, Result, ok, err, trim_space, String, ◌≡◌, sym, true, false, some, arith, str_eq,
}
use seckill_go.Support.Callback.{
  GatewayError, pending_pay, PayableOrder, CreatePayRequest, PayResult, Collaborators, AppConfig,
  prepay,
}

-- What a repeated request relies on: the payment channel and the cache leave the orders as they
-- are, and the cache finds what was put under an order's number.
pub record CacheWorks {W : Type 0} (c : Collaborators W) : Type 0 where
  pub create_keeps :
      (n : String) (q : CreatePayRequest) (w : W)
      → c.get_order n (c.create_payment q w).1 ≡ c.get_order n w
  pub set_keeps :
      (n m : String) (r : PayResult) (w : W) → c.get_order n (c.set_prepay m r w) ≡ c.get_order n w
  pub get-set : (n : String) (r : PayResult) (w : W) → c.get_prepay n (c.set_prepay n r w) ≡ some r

-- Which order lets a user pay.
abbrev pub Payable : ℤ → Result GatewayError PayableOrder → Type 0
Payable user_id (ok o) = (eq_ℤ o.user_id user_id ≡ true) × (o.status ≡ pending_pay)
Payable user_id (err e) = ⊥

paid_order :
    {W : Type 0} (c : Collaborators W) (app : AppConfig) (user_id : ℤ) (n channel : String)
    (w w' : W) (r : PayResult)
    → prepay c app user_id n channel w ≡ (ok r, w')
    → (str_eq (trim_space n) "" ≡ false) × Payable user_id (c.get_order (trim_space n) w)
unfolding prepay
paid_order c app user_id n channel w w' r run = ground arith

-- A world in which a request is answered from the cache.
cached :
    {W : Type 0} (c : Collaborators W) (app : AppConfig) (user_id : ℤ) (n channel : String) (w : W)
    (r : PayResult)
    → app.has_prepay_cache ≡ true
    → str_eq (trim_space n) "" ≡ false
    → Payable user_id (c.get_order (trim_space n) w)
    → c.get_prepay (trim_space n) w ≡ some r
    → prepay c app user_id n channel w ≡ (ok r, w)
unfolding prepay
cached c app user_id n channel w r has some_text payable hit = ground arith

-- After a request that was answered, where the answer came from and what stands in the cache.
origin :
    {W : Type 0} (c : Collaborators W) (app : AppConfig) (works : CacheWorks c) (user_id : ℤ)
    (n channel : String) (w w' : W) (r : PayResult)
    → app.has_prepay_cache ≡ true
    → prepay c app user_id n channel w ≡ (ok r, w')
    → (c.get_order (trim_space n) w' ≡ c.get_order (trim_space n) w)
      × (c.get_prepay (trim_space n) w' ≡ some r)
unfolding prepay
origin c app works user_id n channel w w' r has run =
    grind (arith, works.create_keeps, works.set_keeps, works.get-set)

-- With a cache that works, a request to pay that was answered was made by the order's owner for a
-- pending order, and a second request of that user for the order, over any channel, gets the same
-- answer and creates no payment.
pub prepay_twice :
    {W : Type 0} (c : Collaborators W) (app : AppConfig) (works : CacheWorks c) (user_id : ℤ)
    (n channel channel' : String) (w w' : W) (r : PayResult)
    → app.has_prepay_cache ≡ true
    → prepay c app user_id n channel w ≡ (ok r, w')
    → Payable user_id (c.get_order (trim_space n) w)
      × (prepay c app user_id n channel' w' ≡ (ok r, w'))
prepay_twice c app works user_id n channel channel' w w' r has run =
    let (some_text, payable) = paid_order c app user_id n channel w w' r run in
    let (same, hit) = origin c app works user_id n channel w w' r has run in
    (
      payable,
      cached c app user_id n channel' w' r has some_text
          (subst (Payable user_id) (sym same) payable) hit,
    )
