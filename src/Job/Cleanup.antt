-- ===== src/Job/Cleanup.antt =====
-- services/seckill-job/internal/application/job/job.go: the jobs that clean up after activities have
-- ended, and the daily statistics. The gateways are functions on a world.
use seckill_go.Prelude.{
  if◌then◌else◌, ℤ, pos, ◌-ℤ◌, eq_ℤ, add64, Result, ok, err, ℕ, suc, ◌+◌, String, append, Bool, not,
  ◌&&◌, Option, none, some, List, [], ◌∷◌, ◌++◌,
}
use seckill_go.Job.Model.{
  total_init_stock, Activity, JobError, wrap, is_ended_activity, should_cleanup_activity_data,
  sku_nos,
}
use seckill_go.Job.Config.{Config}

pub record CleanupServices (W : Type 0) : Type 0 where
  pub has_activity : Bool
  pub has_stock : Bool
  pub has_cache : Bool
  pub has_risk : Bool
  pub list_activities : W → Result JobError (List Activity) × W
  pub cleanup_activity_stock : String → List String → W → Result JobError ℤ × W
  pub cleanup_activity_purchases : String → W → Result JobError ℤ × W
  pub cleanup_expired_risk_users : W → Result JobError ℤ × W
  pub evict : String → W → Option JobError × W
  pub now : W → ℤ × W

-- `StockReleaseResult` and `ActivityDataCleanupResult`
pub record CleanupResult : Type 0 where
  pub activities : ℕ
  pub deleted : ℤ

abbrev pub nothing_cleaned : CleanupResult
nothing_cleaned = record { activities = 0; deleted = pos 0 }

abbrev pub one_cleaned : ℤ → CleanupResult → CleanupResult
one_cleaned deleted r = record { activities = suc r.activities; deleted = add64 r.deleted deleted }

pub record ActivityStatistics : Type 0 where
  pub activity_no : String
  pub activity_name : String
  pub total_init_stock : ℤ
  pub start_time : ℤ
  pub end_time : ℤ

pub record DailyStatisticsResult : Type 0 where
  pub active_count : ℕ
  pub ended_count : ℕ
  pub total_count : ℕ
  pub activities : List ActivityStatistics

abbrev pub statistics_of : Activity → ActivityStatistics
statistics_of a = record {
  activity_no = a.activity_no;
  activity_name = a.name;
  total_init_stock = total_init_stock a.skus (pos 0);
  start_time = a.start_time;
  end_time = a.end_time;
}

-- The loop over the activities.
unfoldable pub count_statuses : List Activity → DailyStatisticsResult → DailyStatisticsResult
count_statuses [] r = r
count_statuses (a ∷ rest) r = count_statuses rest (
    if eq_ℤ a.status (pos 1)
    then record r { active_count = suc r.active_count }
    else if eq_ℤ a.status (pos 3)
    then record r {
      ended_count = suc r.ended_count;
      activities = r.activities ++ (statistics_of a ∷ []);
    }
    else r)

abbrev pub no_statistics : DailyStatisticsResult
no_statistics = record { active_count = 0; ended_count = 0; total_count = 0; activities = [] }

module _ {W : Type 0} (g : CleanupServices W) where
  unfoldable pub evict_activity : String → W → W
  evict_activity activity_no w = if g.has_cache then (g.evict activity_no w).1 else w

  unfoldable pub release_keys :
      List Activity → ℤ → CleanupResult → W → CleanupResult × (Option JobError × W)
  unfolding evict_activity
  release_keys [] now r w = (r, (none, w))
  release_keys (a ∷ rest) now r w =
      let (cleaned, w') =
        g.cleanup_activity_stock a.activity_no (sku_nos a.skus) (evict_activity a.activity_no w) in
      let skipped = release_keys rest now r w in
      if not (is_ended_activity a now) then skipped else elim cleaned [
        | err e ↦
            (r, (some (wrap (append "cleanup activity " (append a.activity_no " stock")) e), w'))
        | ok deleted ↦ release_keys rest now (one_cleaned deleted r) w'
      ]

  unfoldable pub release_ended_activity_keys : W → CleanupResult × (Option JobError × W)
  unfolding release_keys
  release_ended_activity_keys w =
      let (listed, w1) = g.list_activities w in
      let (now, w2) = g.now w1 in
      if not (g.has_activity && g.has_stock) then (nothing_cleaned, (none, w)) else elim listed [
        | err e ↦ (nothing_cleaned, (some (wrap "list activities for stock release" e), w1))
        | ok activities ↦ release_keys activities now nothing_cleaned w2
      ]

  unfoldable pub cleanup_data :
      List Activity → ℤ → CleanupResult → W → CleanupResult × (Option JobError × W)
  cleanup_data [] threshold r w = (r, (none, w))
  cleanup_data (a ∷ rest) threshold r w =
      let (cleaned, w') = g.cleanup_activity_purchases a.activity_no w in
      let skipped = cleanup_data rest threshold r w in
      if not (should_cleanup_activity_data a threshold) then skipped else elim cleaned [
        | err e ↦ (
          r,
          (some (wrap (append "cleanup activity " (append a.activity_no " purchases")) e), w'),
        )
        | ok deleted ↦ cleanup_data rest threshold (one_cleaned deleted r) w'
      ]

  -- The threshold is the time less the retention.
  unfoldable pub cleanup_expired_activity_data : Config → W → CleanupResult × (Option JobError × W)
  unfolding cleanup_data
  cleanup_expired_activity_data cfg w =
      let (listed, w1) = g.list_activities w in
      let (now, w2) = g.now w1 in
      if not (g.has_activity && g.has_stock) then (nothing_cleaned, (none, w)) else elim listed [
        | err e ↦ (nothing_cleaned, (some (wrap "list activities for data cleanup" e), w1))
        | ok activities ↦
            cleanup_data activities (now -ℤ cfg.activity_data_retention) nothing_cleaned w2
      ]

  -- The number of deleted users.
  unfoldable pub cleanup_expired_risk_users : W → ℤ × (Option JobError × W)
  cleanup_expired_risk_users w =
      let (cleaned, w') = g.cleanup_expired_risk_users w in
      if not g.has_risk then (pos 0, (none, w)) else elim cleaned [
        | err e ↦ (pos 0, (some (wrap "cleanup expired risk users" e), w'))
        | ok deleted ↦ (deleted, (none, w'))
      ]

  unfoldable pub daily_statistics : W → DailyStatisticsResult × (Option JobError × W)
  unfolding count_statuses
  daily_statistics w =
      let (listed, w1) = g.list_activities w in
      if not g.has_activity then (no_statistics, (none, w)) else elim listed [
        | err e ↦ (no_statistics, (some (wrap "list activities for daily statistics" e), w1))
        | ok activities ↦
            let r = count_statuses activities no_statistics in
            (record r { total_count = r.active_count + r.ended_count }, (none, w1))
      ]
