-- ===== src/Job/Cache.antt =====
-- services/seckill-job/internal/application/job/job.go: the jobs that fill the cache of activities.
-- The gateways are functions on a world.
use seckill_go.Prelude.{
  if◌then◌else◌, ℤ, ◌+ℤ◌, Result, ok, err, ℕ, suc, append, Bool, not, ◌&&◌, Option, none, some,
  List, [], ◌∷◌, ◌++◌,
}
use seckill_go.Job.Model.{Activity, JobError, wrap, is_active_activity, is_upcoming_activity}
use seckill_go.Job.Config.{Config}

pub record CacheServices (W : Type 0) : Type 0 where
  pub has_activity : Bool
  pub has_cache_writer : Bool
  pub list_activities : W → Result JobError (List Activity) × W
  pub warmup_activity : Activity → W → Option JobError × W
  pub refresh_activity : Activity → W → Option JobError × W
  pub refresh_active_activities : List Activity → W → Option JobError × W
  pub now : W → ℤ × W

pub record ActivityCacheWarmupResult : Type 0 where
  pub warmed : ℕ
  pub active : ℕ
  pub upcoming : ℕ

abbrev pub nothing_warmed : ActivityCacheWarmupResult
nothing_warmed = record { warmed = 0; active = 0; upcoming = 0 }

pub record ActivityCacheRefreshResult : Type 0 where
  pub refreshed : ℕ
  pub active : ℕ

abbrev pub nothing_refreshed : ActivityCacheRefreshResult
nothing_refreshed = record { refreshed = 0; active = 0 }

-- `len`
abbrev pub number_of_activities : List Activity → ℕ
number_of_activities [] = 0
number_of_activities (a ∷ rest) = suc (number_of_activities rest)

module _ {W : Type 0} (g : CacheServices W) where
  unfoldable pub warmup :
      List Activity
      → ℤ
      → ℤ
      → ActivityCacheWarmupResult
      → W
      → ActivityCacheWarmupResult × (Option JobError × W)
  warmup [] now deadline r w = (r, (none, w))
  warmup (a ∷ rest) now deadline r w =
      let (error, w') = g.warmup_activity a w in
      let skipped = warmup rest now deadline r w in
      if is_active_activity a now
      then elim error [
        | some e ↦
            (r, (some (wrap (append "warmup activity " (append a.activity_no " cache")) e), w'))
        | none ↦
            warmup rest now deadline (record r { warmed = suc r.warmed; active = suc r.active }) w'
      ]
      else if is_upcoming_activity a now deadline
      then elim error [
        | some e ↦ (
          r,
          (some (wrap (append "warmup upcoming activity " (append a.activity_no " cache")) e), w'),
        )
        | none ↦
            warmup rest now deadline (record r { warmed = suc r.warmed; upcoming = suc r.upcoming })
              w'
      ]
      else skipped

  unfoldable pub warmup_activity_cache :
      Config → W → ActivityCacheWarmupResult × (Option JobError × W)
  unfolding warmup
  warmup_activity_cache cfg w =
      let (listed, w1) = g.list_activities w in
      let (now, w2) = g.now w1 in
      if not (g.has_activity && g.has_cache_writer)
      then (nothing_warmed, (none, w))
      else elim listed [
        | err e ↦ (nothing_warmed, (some (wrap "list activities for cache warmup" e), w1))
        | ok activities ↦ warmup activities now (now +ℤ cfg.cache_warmup_ahead) nothing_warmed w2
      ]

  -- The loop, then the list of the active ones; `active` are those so far.
  unfoldable pub refresh :
      List Activity
      → ℤ
      → List Activity
      → ActivityCacheRefreshResult
      → W
      → ActivityCacheRefreshResult × (Option JobError × W)
  refresh [] now active r w =
      let (error, w') = g.refresh_active_activities active w in
      elim error [
        | some e ↦ (r, (some (wrap "refresh active activities list" e), w'))
        | none ↦ (record r { active = number_of_activities active }, (none, w'))
      ]
  refresh (a ∷ rest) now active r w =
      let (error, w') = g.refresh_activity a w in
      let skipped = refresh rest now active r w in
      if not (is_active_activity a now) then skipped else elim error [
        | some e ↦
            (r, (some (wrap (append "refresh activity " (append a.activity_no " cache")) e), w'))
        | none ↦ refresh rest now (active ++ (a ∷ [])) (record r { refreshed = suc r.refreshed }) w'
      ]

  unfoldable pub refresh_activity_cache : W → ActivityCacheRefreshResult × (Option JobError × W)
  unfolding refresh
  refresh_activity_cache w =
      let (listed, w1) = g.list_activities w in
      let (now, w2) = g.now w1 in
      if not (g.has_activity && g.has_cache_writer)
      then (nothing_refreshed, (none, w))
      else elim listed [
        | err e ↦ (nothing_refreshed, (some (wrap "list activities for cache refresh" e), w1))
        | ok activities ↦ refresh activities now [] nothing_refreshed w2
      ]
