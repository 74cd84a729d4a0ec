-- ===== src/Tests/SupportUsers.antt =====
-- Users who share a phone number, and a breaker that opens after three failures.
use seckill_go.Prelude.{
  ℤ, pos, ◌-ℤ◌, lt_ℤ, sub_time, String, ◌≡◌, refl, true, false, none, some, [], ◌∷◌, arith, eq_iff,
}
use seckill_go.Support.Ledger.{User, new_support_ledger, get_user_by_phone, get_user_by_id}
use seckill_go.Support.Ledger.Users.{upserts, Found, upserts_find_current, shared_phone_is_lost}
use seckill_go.Support.Breaker.{cb_closed, cb_open, CircuitBreaker, circuit_open, ran, execute_call}
use seckill_go.Support.Breaker.Cycle.{fail_all, circuit_cycle}

abbrev new_user : ℤ → String → User
new_user id phone = record {
  id = id;
  username = "u";
  phone = phone;
  nickname = "";
  avatar = "";
  member_level = pos 1;
  status = pos 1;
}

upserts_find_current_example :
    Found "138"
      (upserts
        (new_user (pos 1) "138" ∷ new_user (pos 2) "139" ∷ new_user (pos 1) "137" ∷ [])
        new_support_ledger)
      (get_user_by_phone "138" (
        upserts
          (new_user (pos 1) "138" ∷ new_user (pos 2) "139" ∷ new_user (pos 1) "137" ∷ [])
          new_support_ledger))
upserts_find_current_example =
    upserts_find_current
      (new_user (pos 1) "138" ∷ new_user (pos 2) "139" ∷ new_user (pos 1) "137" ∷ []) "138"

shared_phone_is_lost_example :
    let after =
      upserts
        (new_user (pos 1) "138" ∷ new_user (pos 2) "138" ∷ new_user (pos 1) "137" ∷ [])
        new_support_ledger in
    (get_user_by_id (pos 2) after ≡ some (new_user (pos 2) "138"))
    × (get_user_by_phone "138" after ≡ none)
shared_phone_is_lost_example =
    shared_phone_is_lost (new_user (pos 1) "138") (new_user (pos 2) "138") (new_user (pos 1) "137")
      new_support_ledger (λ h. ground arith) (λ h. ground arith) refl (λ h. ground arith) refl
      (λ h. ground (arith, eq_iff "138" "")) (λ h. ground (arith, eq_iff "137" "138"))

abbrev guarded : CircuitBreaker
guarded = record {
  state = cb_closed;
  failures = 0;
  max_failures = pos 3;
  reset_timeout = pos 10;
  last_failure = pos 0;
}

soon_is_early : lt_ℤ (pos 10) (sub_time (pos 40) (pos 31)) ≡ false
unfolding sub_time ◌-ℤ◌
soon_is_early = refl

late_is_over : lt_ℤ (pos 10) (sub_time (pos 42) (pos 31)) ≡ true
unfolding sub_time ◌-ℤ◌
late_is_over = refl

circuit_cycle_example :
    let before = fail_all ((pos 10, pos 11) ∷ (pos 20, pos 21) ∷ []) guarded in
    let opened = (execute_call false (pos 30) (pos 31) before).1 in
    (before.state ≡ cb_closed)
    × (opened.state ≡ cb_open)
    × ((execute_call true (pos 40) (pos 50) opened ≡ (circuit_open, opened))
        × ((execute_call true (pos 42) (pos 50) opened).0 ≡ ran true)
        × ((execute_call true (pos 42) (pos 50) opened).1.state ≡ cb_closed)
        × ((execute_call true (pos 42) (pos 50) opened).1.failures ≡ 0)
        × ((execute_call false (pos 42) (pos 50) opened).1.state ≡ cb_open)
        × ((execute_call false (pos 42) (pos 50) opened).1.last_failure ≡ pos 50))
circuit_cycle_example =
    circuit_cycle ((pos 10, pos 11) ∷ (pos 20, pos 21) ∷ []) (pos 30) (pos 31) (pos 40) (pos 42)
      (pos 50) guarded 3 refl refl refl refl soon_is_early late_is_over
