-- ===== src/Gateway/Degrade/Routes.antt =====
-- The breakers of different routes, and the middleware.
use seckill_go.Prelude.{
  ℤ, lt_ℤ, lookup-empty, lookup-insert, sub_time, String, ◌≡◌, ◌∙◌, ◌≢◌, Bool, true, false, none,
  arith, eq_iff, if◌then◌else◌, Bool-cases, insert, refl, inl, inr, str_eq, eq_refl,
}
use seckill_go.Gateway.Degrade.{
  opened, half_open, RouteBreaker, allow, observe, DegradeController, route_key, breaker,
  controller_allow, controller_observe, Handler, panics, degraded, handled, degrade_middleware,
  DegradeSettings, dynamic_degrade_middleware,
}

breaker-insert :
    (r r' : String) (b : RouteBreaker) (c : DegradeController)
    → breaker r' (record c { breakers = insert (route_key r) b c.breakers })
      ≡ (if str_eq (route_key r) (route_key r') then b else breaker r' c)
breaker-insert r r' b c =
    let key = route_key r in
    let key' = route_key r' in
    let e = lookup-insert key key' b c.breakers in
    elim (Bool-cases (str_eq key key')) [
      | inl same ↦ rw e (rw same)
      | inr differs ↦ rw e (rw differs)
    ]

breaker-insert_self :
    (r : String) (b : RouteBreaker) (c : DegradeController)
    → breaker r (record c { breakers = insert (route_key r) b c.breakers }) ≡ b
breaker-insert_self r b c = breaker-insert r r b c ∙ rw (eq_refl (route_key r))

breaker-insert_ne :
    (r r' : String) (b : RouteBreaker) (c : DegradeController)
    → route_key r ≢ route_key r'
    → breaker r' (record c { breakers = insert (route_key r) b c.breakers }) ≡ breaker r' c
breaker-insert_ne r r' b c different = elim (Bool-cases (str_eq (route_key r) (route_key r'))) [
  | inl same ↦ absurd (different ((eq_iff (route_key r) (route_key r')).0 same))
  | inr differs ↦ breaker-insert r r' b c ∙ rw differs
]

-- What happens on one route leaves what another route's breaker will do as it was.
pub routes_independent :
    (r r' : String) (now : ℤ) (failed : Bool) (c : DegradeController)
    → route_key r ≢ route_key r'
    → (breaker r' (controller_allow r now c).1 ≡ breaker r' c)
      × (breaker r' (controller_observe r failed now c) ≡ breaker r' c)
unfolding controller_allow controller_observe
routes_independent r r' now failed c different = (
  breaker-insert_ne r r' (allow now c.timeout (breaker r c)).1 c different,
  breaker-insert_ne r r' (observe failed now c.failure_threshold (breaker r c)) c different,
)

-- Without a shared controller no request is ever degraded, whatever its route's handlers did
-- before and whatever the settings are.
pub unshared_never_degrades :
    (settings : DegradeSettings) (r : String) (now later : ℤ) (handler : Handler)
    → dynamic_degrade_middleware settings r now later handler none ≡ (handled handler, none)
unfolding dynamic_degrade_middleware allow
unshared_never_degrades settings r now later handler =
    ground (arith, lookup-empty {0} {V = RouteBreaker} (route_key r))

-- The route's breaker is half open and its probe is not answered.
abbrev pub IsProbing : String → DegradeController → Type 0
IsProbing r c = ((breaker r c).state ≡ half_open) × ((breaker r c).half_open_in_flight ≡ true)

late_probe :
    (timeout now : ℤ) (b : RouteBreaker)
    → b.state ≡ opened
    → lt_ℤ (sub_time now b.opened_at) timeout ≡ false
    → ((allow now timeout b).0 ≡ true)
      × ((allow now timeout b).1.state ≡ half_open)
      × ((allow now timeout b).1.half_open_in_flight ≡ true)
unfolding allow
late_probe timeout now b s late = (ground arith, ground arith, ground arith)

refused_probe :
    (timeout now : ℤ) (b : RouteBreaker)
    → b.state ≡ half_open
    → b.half_open_in_flight ≡ true
    → allow now timeout b ≡ (false, b)
unfolding allow
refused_probe timeout now b s p = ground arith

degraded-IsProbing :
    (r : String) (now later : ℤ) (handler : Handler) (c : DegradeController)
    → IsProbing r c
    → ((degrade_middleware r now later handler c).0 ≡ degraded)
      × IsProbing r (degrade_middleware r now later handler c).1
unfolding degrade_middleware controller_allow
degraded-IsProbing r now later handler c p =
    rw (refused_probe c.timeout now (breaker r c) p.0 p.1)
      (refl, rw (breaker-insert_self r (breaker r c) c) p)

panicked-IsProbing :
    (r : String) (now end : ℤ) (c : DegradeController)
    → (breaker r c).state ≡ opened
    → lt_ℤ (sub_time now (breaker r c).opened_at) c.timeout ≡ false
    → ((degrade_middleware r now end panics c).0 ≡ handled panics)
      × IsProbing r (degrade_middleware r now end panics c).1
unfolding degrade_middleware controller_allow
panicked-IsProbing r now end c s late =
    let b = (allow now c.timeout (breaker r c)).1 in
    let (passed, half, marked) = late_probe c.timeout now (breaker r c) s late in
    rw passed (refl, rw (breaker-insert_self r b c) (half, marked))

-- A probe whose handler panics is never answered: its breaker stays half open with the probe
-- marked, and the next request on the route, however late, gets the 503 and leaves it so.
pub panicked_probe_blocks :
    (r : String) (now end now' end' : ℤ) (handler : Handler) (c : DegradeController)
    → (breaker r c).state ≡ opened
    → lt_ℤ (sub_time now (breaker r c).opened_at) c.timeout ≡ false
    → let (outcome, c') = degrade_middleware r now end panics c in
      (outcome ≡ handled panics)
      × IsProbing r c'
      × (((degrade_middleware r now' end' handler c').0 ≡ degraded)
          × IsProbing r (degrade_middleware r now' end' handler c').1)
panicked_probe_blocks r now end now' end' handler c s late =
    let (passed, probing) = panicked-IsProbing r now end c s late in
    (
      passed,
      probing,
      degraded-IsProbing r now' end' handler (degrade_middleware r now end panics c).1 probing,
    )
