-- ===== src/Activity/Memory/Steps/Runs.antt =====
-- The status of an activity of the store over a run of operations.
use mathlib.Core.Path.{subst}
use seckill_go.Prelude.{
  ℤ, pos, lookup, String, ◌≡◌, refl, ap, inl, inr, true, false, Option, none, some, List, [], ◌∷◌,
  arith,
}
use seckill_go.Activity.Status.{can_activity_transition_to}
use seckill_go.Activity.Memory.{MemoryStore}
use seckill_go.Activity.Memory.Steps.{Operation, apply, status_of, Follows, apply-Follows}

pub run : List Operation → MemoryStore → MemoryStore
run [] s = s
run (op ∷ ops) s = run ops (apply op s)

-- The statuses that the table allows to come after a status, in any number of steps.
pub data Reaches (from : ℤ) : ℤ → Type 0 where
  start : Reaches from from
  further : {s t : ℤ} → Reaches from s → can_activity_transition_to s t ≡ true → Reaches from t

abbrev pub MovedOn : Option ℤ → Option ℤ → Type 0
MovedOn (some s) (some t) = Reaches s t
MovedOn none none = Unit
MovedOn _ _ = ⊥

MovedOn-then : (o p q : Option ℤ) → MovedOn o p → Follows p q → MovedOn o q
MovedOn-then none none none m f = tt
MovedOn-then none none (some t) m f = absurd f
MovedOn-then none (some s) q m f = absurd m
MovedOn-then (some r) none q m f = absurd m
MovedOn-then (some r) (some s) none m f = absurd f
MovedOn-then (some r) (some s) (some t) m (inl same) = subst (Reaches r) same m
MovedOn-then (some r) (some s) (some t) m (inr allowed) = further m allowed

from_here :
    (ops : List Operation) (n : String) (o : Option ℤ) (s : MemoryStore)
    → MovedOn o (status_of (lookup n s.activities))
    → MovedOn o (status_of (lookup n (run ops s).activities))
unfolding run
from_here [] n o s m = m
from_here (op ∷ ops) n o s m =
    from_here ops n o (apply op s) (MovedOn-then o _ _ m (apply-Follows op n s))

not_moved : (o : Option ℤ) → MovedOn o o
not_moved none = tt
not_moved (some s) = start

-- Over any updates, status changes, product changes, reads, deductions, releases and cleanups, in any
-- order and with whatever arguments, no activity comes into the store or leaves it, and the status of
-- each is reached from the one it had by steps of the table of allowed transitions.
pub run-MovedOn :
    (ops : List Operation) (n : String) (s : MemoryStore)
    → MovedOn (status_of (lookup n s.activities)) (status_of (lookup n (run ops s).activities))
run-MovedOn ops n s = from_here ops n _ s (not_moved _)

dead_end : (t : ℤ) → can_activity_transition_to (pos 3) t ≡ false
unfolding can_activity_transition_to
dead_end t = refl

no_way_on : (s t : ℤ) → can_activity_transition_to s t ≡ true → s ≡ pos 3 → ⊥
no_way_on s t may ended = ground (arith, dead_end t)

stays_ended : (t : ℤ) → Reaches (pos 3) t → t ≡ pos 3
stays_ended _ (start) = refl
stays_ended _ (further {s} {t} r allowed) = absurd (no_way_on s t allowed (stays_ended s r))

-- An activity that has ended has ended for good, whatever the operations of a run.
pub ended_for_good :
    (ops : List Operation) (n : String) (s : MemoryStore)
    → status_of (lookup n s.activities) ≡ some (pos 3)
    → status_of (lookup n (run ops s).activities) ≡ some (pos 3)
ended_for_good ops n s ended = at_end _ (
    subst (λ o. MovedOn o (status_of (lookup n (run ops s).activities))) ended
      (run-MovedOn ops n s))
  where
    at_end : (o : Option ℤ) → MovedOn (some (pos 3)) o → o ≡ some (pos 3)
    at_end none m = absurd m
    at_end (some t) m = ap some (stays_ended t m)
