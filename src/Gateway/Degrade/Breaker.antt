-- ===== src/Gateway/Degrade/Breaker.antt =====
-- What one route's breaker guarantees.
use seckill_go.Prelude.{
  ℤ, ℕ, suc, ◌+◌, ◌<◌, ◌≡◌, Bool, true, false, List, [], ◌∷◌, arith, pos, ◌-ℤ◌, ◌≤ℤ◌, ◌<ℤ◌, InInt64,
  lt-sub_time, refl,
}
use seckill_go.Gateway.Degrade.{
  BreakerState, closed, opened, half_open, RouteBreaker, allow, observe,
}

-- What can happen to a breaker: a request asks, or an answer is observed.
pub data Event : Type 0 where
  ask : (now : ℤ) → Event
  answer : (failed : Bool) (now : ℤ) → Event

pub run : ℤ → ℕ → List Event → RouteBreaker → RouteBreaker
run timeout threshold [] b = b
run timeout threshold (ask now ∷ es) b = run timeout threshold es (allow now timeout b).1
run timeout threshold (answer failed now ∷ es) b =
    run timeout threshold es (observe failed now threshold b)

-- A closed breaker has fewer failures than the threshold; a breaker that is not closed has none;
-- there is a probe exactly while the breaker is half open.
abbrev pub SoundIn : BreakerState → ℕ → Bool → ℕ → Type 0
SoundIn closed failures probing threshold = (failures < threshold) × (probing ≡ false)
SoundIn opened failures probing threshold = (failures ≡ 0) × (probing ≡ false)
SoundIn half_open failures probing threshold = (failures ≡ 0) × (probing ≡ true)

abbrev pub IsSound : ℕ → RouteBreaker → Type 0
IsSound threshold b = SoundIn b.state b.failures b.half_open_in_flight threshold

allow-IsSound :
    (threshold : ℕ) (now timeout : ℤ) (b : RouteBreaker)
    → IsSound threshold b
    → IsSound threshold (allow now timeout b).1
unfolding allow
allow-IsSound threshold now timeout b h = ground arith

observe-IsSound :
    (threshold : ℕ) (failed : Bool) (now : ℤ) (b : RouteBreaker)
    → 0 < threshold
    → IsSound threshold b
    → IsSound threshold (observe failed now threshold b)
unfolding observe
observe-IsSound threshold failed now b p h = ground arith

-- Whatever requests ask and answers come in, in any order, the breaker stays sound: the failures
-- of a closed one are below the threshold, and the probe mark stands exactly in the half-open state.
pub run-IsSound :
    (timeout : ℤ) (threshold : ℕ) (es : List Event) (b : RouteBreaker)
    → 0 < threshold
    → IsSound threshold b
    → IsSound threshold (run timeout threshold es b)
unfolding run
run-IsSound timeout threshold [] b p h = h
run-IsSound timeout threshold (ask now ∷ es) b p h =
    run-IsSound timeout threshold es (allow now timeout b).1 p
      (allow-IsSound threshold now timeout b h)
run-IsSound timeout threshold (answer failed now ∷ es) b p h =
    run-IsSound timeout threshold es (observe failed now threshold b) p
      (observe-IsSound threshold failed now b p h)

-- `k` failed answers at the times that a list gives.
abbrev pub failures_at : List ℤ → List Event
failures_at [] = []
failures_at (now ∷ times) = answer true now ∷ failures_at times

abbrev pub length : List ℤ → ℕ
length [] = 0
length (x ∷ xs) = suc (length xs)

count_failures :
    (timeout : ℤ) (threshold : ℕ) (times : List ℤ) (b : RouteBreaker)
    → b.state ≡ closed
    → b.failures + length times < threshold
    → (run timeout threshold (failures_at times) b).state ≡ closed
      × ((run timeout threshold (failures_at times) b).failures ≡ b.failures + length times)
unfolding run observe
count_failures timeout threshold [] b s h = (s, omega arith)
count_failures timeout threshold (now ∷ times) b s h =
    let b' = observe true now threshold b in
    let s' : b'.state ≡ closed = ground arith in
    let f' : b'.failures ≡ b.failures + 1 = ground arith in
    let (still, counted) = count_failures timeout threshold times b' s' (omega (arith, f', h)) in
    (still, omega (arith, counted, f'))

-- From a closed breaker without failures, one failed answer fewer than the threshold leaves it
-- closed, so that it lets every request pass; the next failed answer opens it at its time.
pub opens_at_threshold :
    (timeout : ℤ) (threshold : ℕ) (times : List ℤ) (last now : ℤ) (b : RouteBreaker)
    → b.state ≡ closed
    → b.failures ≡ 0
    → length times + 1 ≡ threshold
    → let before = run timeout threshold (failures_at times) b in
      let after = observe true last threshold before in
      (allow now timeout before ≡ (true, before))
      × (after.state ≡ opened)
      × (after.opened_at ≡ last)
unfolding allow observe
opens_at_threshold timeout threshold times last now b s f h =
    let (still, counted) = count_failures timeout threshold times b s (omega (arith, f, h)) in
    (ground (arith, still), ground (arith, still, counted, f), ground (arith, still, counted, f))

abbrev pub asks_at : List ℤ → List Event
asks_at [] = []
asks_at (now ∷ times) = ask now ∷ asks_at times

refused_probing :
    (now timeout : ℤ) (b : RouteBreaker)
    → b.state ≡ half_open
    → b.half_open_in_flight ≡ true
    → allow now timeout b ≡ (false, b)
unfolding allow
refused_probing now timeout b s p = ground (arith, s, p)

waits_for_answer :
    (timeout : ℤ) (threshold : ℕ) (times : List ℤ) (b : RouteBreaker)
    → b.state ≡ half_open
    → b.half_open_in_flight ≡ true
    → run timeout threshold (asks_at times) b ≡ b
unfolding run
waits_for_answer timeout threshold [] b s p = refl
waits_for_answer timeout threshold (now ∷ times) b s p =
    rw (refused_probing now timeout b s p, run) (waits_for_answer timeout threshold times b s p)

-- An open breaker refuses a request that comes before the timeout has passed, and stays as it is.
-- The first request after that is let through as a probe, and until an answer comes every other one
-- is refused, however late. A good answer closes the breaker without failures, and a failed one
-- opens it again at its time. The timeout is a positive duration.
pub probe_cycle :
    (timeout : ℤ) (threshold : ℕ) (early now later answered : ℤ) (times : List ℤ) (b : RouteBreaker)
    → InInt64 timeout
    → pos 0 <ℤ timeout
    → b.state ≡ opened
    → early -ℤ b.opened_at <ℤ timeout
    → timeout ≤ℤ now -ℤ b.opened_at
    → let probing = (allow now timeout b).1 in
      let waiting = run timeout threshold (asks_at times) probing in
      (allow early timeout b ≡ (false, b))
      × ((allow now timeout b).0 ≡ true)
      × (allow later timeout waiting ≡ (false, waiting))
      × ((observe false answered threshold waiting).state ≡ closed)
      × ((observe false answered threshold waiting).failures ≡ 0)
      × ((observe true answered threshold waiting).state ≡ opened)
      × ((observe true answered threshold waiting).opened_at ≡ answered)
unfolding allow observe
probe_cycle timeout threshold early now later answered times b fits positive s soon late =
    let e = lt-sub_time now b.opened_at timeout fits positive in
    let e' = lt-sub_time early b.opened_at timeout fits positive in
    let probing = (allow now timeout b).1 in
    let half : probing.state ≡ half_open = ground (arith, e) in
    let marked : probing.half_open_in_flight ≡ true = ground (arith, e) in
    let still = waits_for_answer timeout threshold times probing half marked in
    rw still (
      ground (arith, e'),
      ground (arith, e),
      ground (arith, half, marked),
      ground (arith, half),
      ground (arith, half),
      ground (arith, half),
      ground (arith, half),
    )
