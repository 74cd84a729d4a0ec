-- ===== src/Support/Breaker/Cycle.antt =====
-- From closed to open and back.
use seckill_go.Prelude.{
  ℤ, pos, lt_ℤ, sub_time, ℕ, suc, ◌+◌, ◌<◌, ◌≡◌, true, false, List, [], ◌∷◌, arith, ap, ◌∙◌,
}
use seckill_go.Support.Breaker.{cb_closed, cb_open, CircuitBreaker, circuit_open, ran, execute_call}

-- Calls that fail, each with its begin and end.
pub fail_all : List (ℤ × ℤ) → CircuitBreaker → CircuitBreaker
fail_all [] cb = cb
fail_all ((now, later) ∷ spans) cb = fail_all spans (execute_call false now later cb).1

abbrev pub calls_in : List (ℤ × ℤ) → ℕ
calls_in [] = 0
calls_in (span ∷ spans) = suc (calls_in spans)

-- A closed breaker with fewer failures than its maximum counts the failures.
fails_count :
    (spans : List (ℤ × ℤ)) (cb : CircuitBreaker) (n : ℕ)
    → cb.state ≡ cb_closed
    → cb.max_failures ≡ pos n
    → cb.failures + calls_in spans < n
    → ((fail_all spans cb).state ≡ cb_closed)
      × ((fail_all spans cb).failures ≡ cb.failures + calls_in spans)
      × ((fail_all spans cb).max_failures ≡ pos n)
      × ((fail_all spans cb).reset_timeout ≡ cb.reset_timeout)
unfolding fail_all execute_call
fails_count [] cb n s m few = ground arith
fails_count ((now, later) ∷ spans) cb n s m few =
    let next = (execute_call false now later cb).1 in
    let s' : next.state ≡ cb_closed = ground arith in
    let m' : next.max_failures ≡ pos n = ground arith in
    let f' : next.failures ≡ cb.failures + 1 = ground arith in
    let t' : next.reset_timeout ≡ cb.reset_timeout = ground arith in
    ground (arith, t', f', fails_count spans next n s' m' (ground (arith, f')))

tripped_by :
    (cb : CircuitBreaker) (n : ℕ) (now later : ℤ)
    → cb.state ≡ cb_closed
    → cb.max_failures ≡ pos n
    → cb.failures + 1 ≡ n
    → let opened = (execute_call false now later cb).1 in
      (opened.state ≡ cb_open)
      × (opened.last_failure ≡ later)
      × (opened.reset_timeout ≡ cb.reset_timeout)
unfolding execute_call
tripped_by cb n now later s m f = ground arith

after_opening :
    (soon late end limit last : ℤ) (cb : CircuitBreaker)
    → cb.state ≡ cb_open
    → cb.reset_timeout ≡ limit
    → cb.last_failure ≡ last
    → lt_ℤ limit (sub_time soon last) ≡ false
    → lt_ℤ limit (sub_time late last) ≡ true
    → (execute_call true soon end cb ≡ (circuit_open, cb))
      × ((execute_call true late end cb).0 ≡ ran true)
      × ((execute_call true late end cb).1.state ≡ cb_closed)
      × ((execute_call true late end cb).1.failures ≡ 0)
      × ((execute_call false late end cb).1.state ≡ cb_open)
      × ((execute_call false late end cb).1.last_failure ≡ end)
unfolding execute_call
after_opening soon late end limit last cb s t l not_yet over =
    ground (arith, ap (sub_time soon) l, ap (sub_time late) l)

-- From a closed breaker without failures and with a maximum of `n`: it stays closed while fewer
-- than `n` calls fail in a row, and the `n`th failure opens it at the time it is noted. A call that
-- begins no later than the timeout after that is not run and leaves the breaker as it is. The first
-- later one is run: if it succeeds, the breaker closes without failures, and if it fails, the
-- breaker is open again from the time that is noted.
pub circuit_cycle :
    (spans : List (ℤ × ℤ)) (now later soon late end : ℤ) (cb : CircuitBreaker) (n : ℕ)
    → cb.state ≡ cb_closed
    → cb.failures ≡ 0
    → cb.max_failures ≡ pos n
    → calls_in spans + 1 ≡ n
    → lt_ℤ cb.reset_timeout (sub_time soon later) ≡ false
    → lt_ℤ cb.reset_timeout (sub_time late later) ≡ true
    → let before = fail_all spans cb in
      let opened = (execute_call false now later before).1 in
      (before.state ≡ cb_closed)
      × (opened.state ≡ cb_open)
      × ((execute_call true soon end opened ≡ (circuit_open, opened))
          × ((execute_call true late end opened).0 ≡ ran true)
          × ((execute_call true late end opened).1.state ≡ cb_closed)
          × ((execute_call true late end opened).1.failures ≡ 0)
          × ((execute_call false late end opened).1.state ≡ cb_open)
          × ((execute_call false late end opened).1.last_failure ≡ end))
circuit_cycle spans now later soon late end cb n s f m few not_yet over =
    let before = fail_all spans cb in
    let (s', f', m', t') = fails_count spans cb n s m (ground (arith, f)) in
    let opened = (execute_call false now later before).1 in
    let (s'', l'', t'') = tripped_by before n now later s' m' (ground (arith, f')) in
    (
      s',
      s'',
      after_opening soon late end cb.reset_timeout later opened s'' (t'' ∙ t') l'' not_yet over,
    )
