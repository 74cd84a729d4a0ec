-- ===== src/Job/Model/Transition.antt =====
-- The job's choice of a next status against the status machine of the activity service.
use seckill_go.Prelude.{ℤ, ◌≡◌, true, false, Option, none, some, arith}
use seckill_go.Activity.Status.{can_activity_transition_to}
use seckill_go.Job.Model.{
  Activity, next_activity_status, is_ended_activity, is_active_activity, is_upcoming_activity,
}

-- A chosen status may follow, and nothing is chosen after it at the same time.
abbrev pub IsStep : Activity → ℤ → Option ℤ → Type 0
IsStep a now none = Unit
IsStep a now (some t) =
    (can_activity_transition_to a.status t ≡ true)
    × (next_activity_status (record a { status = t }) now ≡ none)

-- The status that the job chooses for an activity is one that the table of the activity service
-- allows to follow, and once the activity has it, the job chooses none at the same time.
pub next_activity_status-IsStep :
    (a : Activity) (now : ℤ) → IsStep a now (next_activity_status a now)
unfolding next_activity_status can_activity_transition_to
next_activity_status-IsStep a now = ground arith

-- The jobs' selections: an activity that the status job opens is active, one that it ends has ended,
-- and no activity that is active has ended or is still to come.
pub selections_agree :
    (a : Activity) (now deadline : ℤ)
    → is_active_activity a now ≡ true
    → (is_ended_activity a now ≡ false)
      × (is_upcoming_activity a now deadline ≡ false)
      × (next_activity_status a now ≡ none)
unfolding is_active_activity is_ended_activity is_upcoming_activity next_activity_status
selections_agree a now deadline active = ground arith
