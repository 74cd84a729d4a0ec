-- ===== src/Job/Activities.antt =====
-- services/seckill-job/internal/application/job/job.go: the job that opens and ends activities. The
-- gateways are functions on a world; a collaborator that was not given is a flag.
pub mod Settled
use seckill_go.Prelude.{
  if◌then◌else◌, ℤ, pos, eq_ℤ, Result, ok, err, decimal, ℕ, suc, String, append, Bool, not, Option,
  none, some, List, [], ◌∷◌,
}
use seckill_go.Job.Model.{Activity, JobError, wrap, next_activity_status}

-- The activity gateway, the cache and the clock.
pub record ActivityServices (W : Type 0) : Type 0 where
  pub has_activity : Bool
  pub has_cache : Bool
  pub list_activities : W → Result JobError (List Activity) × W
  pub update_activity_status : String → ℤ → W → Option JobError × W
  pub evict : String → W → Option JobError × W
  pub now : W → ℤ × W

pub record ActivityStatusResult : Type 0 where
  pub activated : ℕ
  pub ended : ℕ

abbrev pub no_status_changes : ActivityStatusResult
no_status_changes = record { activated = 0; ended = 0 }

-- The `switch target` after an update.
abbrev pub count_target : ℤ → ActivityStatusResult → ActivityStatusResult
count_target target r =
    if eq_ℤ target (pos 1)
    then record r { activated = suc r.activated }
    else if eq_ℤ target (pos 3)
    then record r { ended = suc r.ended }
    else r

abbrev pub update_failed : Activity → ℤ → JobError → JobError
update_failed a target e =
    wrap (append "update activity " (append a.activity_no (append " status to " (decimal target))))
      e

module _ {W : Type 0} (g : ActivityServices W) where
  -- An error of the cache is only logged.
  unfoldable pub evict_activity : String → W → W
  evict_activity activity_no w = if g.has_cache then (g.evict activity_no w).1 else w

  unfoldable pub update_statuses :
      List Activity → ℤ → ActivityStatusResult → W → ActivityStatusResult × (Option JobError × W)
  unfolding evict_activity
  update_statuses [] now r w = (r, (none, w))
  update_statuses (a ∷ rest) now r w = elim (next_activity_status a now) [
    | none ↦ update_statuses rest now r w
    | some target ↦
        let (error, w') = g.update_activity_status a.activity_no target w in
        elim error [
          | some e ↦ (r, (some (update_failed a target e), w'))
          | none ↦
              update_statuses rest now (count_target target r) (evict_activity a.activity_no w')
        ]
  ]

  unfoldable pub update_activity_statuses : W → ActivityStatusResult × (Option JobError × W)
  unfolding update_statuses
  update_activity_statuses w =
      let (listed, w1) = g.list_activities w in
      let (now, w2) = g.now w1 in
      if not g.has_activity then (no_status_changes, (none, w)) else elim listed [
        | err e ↦ (no_status_changes, (some (wrap "list activities for status update" e), w1))
        | ok activities ↦ update_statuses activities now no_status_changes w2
      ]
