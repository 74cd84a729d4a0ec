-- ===== src/Job/Activities/Settled.antt =====
-- Which changes of status the job asks for.
use seckill_go.Prelude.{
  if◌then◌else◌, Option-cases, ℤ, pos, eq_ℤ, ok, ℕ, suc, ◌+◌, String, ◌≡◌, inl, inr, Bool, true,
  ◌&&◌, ◌||◌, Option, none, some, List, [], ◌∷◌, arith, str_eq, eq_refl,
}
use seckill_go.Job.Model.{Activity, JobError, next_activity_status}
use seckill_go.Job.Activities.{
  ActivityServices, ActivityStatusResult, no_status_changes, count_target, evict_activity,
  update_statuses, update_activity_statuses,
}

-- The changes that are due: for each activity in turn the status that is chosen for it.
pub due : ℤ → List Activity → List (String × ℤ)
due now [] = []
due now (a ∷ rest) = elim (next_activity_status a now) [
  | none ↦ due now rest
  | some t ↦ (a.activity_no, t) ∷ due now rest
]

pub count : ℤ → List (String × ℤ) → ℕ
count t [] = 0
count t ((n, s) ∷ rest) = let more = count t rest in if eq_ℤ s t then suc more else more

-- A watch over the calls: the changes still to be asked for, or `broken` after another one.
pub data Watch : Type 0 where
  expecting : List (String × ℤ) → Watch
  broken : Watch

abbrev pub seen : String → ℤ → Watch → Watch
seen n t (expecting ((m, s) ∷ rest)) = if str_eq n m && eq_ℤ t s then expecting rest else broken
seen n t _ = broken

abbrev pub watched : {W : Type 0} → ActivityServices W → ActivityServices (Watch × W)
watched g = record {
  has_activity = g.has_activity;
  has_cache = g.has_cache;
  list_activities = λ (v, w). let (r, w') = g.list_activities w in (r, (v, w'));
  update_activity_status =
      λ n t (v, w). let (r, w') = g.update_activity_status n t w in (r, (seen n t v, w'));
  evict = λ n (v, w). let (r, w') = g.evict n w in (r, (v, w'));
  now = λ (v, w). let (t, w') = g.now w in (t, (v, w'));
}

abbrev pub size : List (String × ℤ) → ℕ
size [] = 0
size (x ∷ rest) = suc (size rest)

-- How a run ends that started with the counters `r`: without an error all due changes were asked
-- for, and are counted by their kind; with one, those counted and the one that failed are those that
-- were asked for.
abbrev pub IsSettled :
    ActivityStatusResult
    → List (String × ℤ)
    → Option JobError
    → ActivityStatusResult
    → Watch
    → Type 0
IsSettled r changes none r' (expecting []) =
    (r'.activated ≡ r.activated + count (pos 1) changes)
    × (r'.ended ≡ r.ended + count (pos 3) changes)
IsSettled r changes (some e) r' (expecting rest) =
    suc (r'.activated + r'.ended + size rest) ≡ r.activated + r.ended + size changes
IsSettled r changes _ r' _ = ⊥

abbrev is_target : ℤ → Bool
is_target t = eq_ℤ t (pos 1) || eq_ℤ t (pos 3)

IsSettled-before :
    (n : String) (t : ℤ) (changes : List (String × ℤ)) (r : ActivityStatusResult)
    (error : Option JobError) (r' : ActivityStatusResult) (v : Watch)
    → is_target t ≡ true
    → IsSettled (count_target t r) changes error r' v
    → IsSettled r ((n, t) ∷ changes) error r' v
unfolding count
IsSettled-before n t changes r none r' (expecting []) kind h = ground arith
IsSettled-before n t changes r none r' (expecting (c ∷ cs)) kind h = h
IsSettled-before n t changes r none r' (broken) kind h = h
IsSettled-before n t changes r (some e) r' (broken) kind h = h
IsSettled-before n t changes r (some e) r' (expecting cs) kind h = ground arith

chosen_target :
    (a : Activity) (now t : ℤ) → next_activity_status a now ≡ some t → is_target t ≡ true
unfolding next_activity_status
chosen_target a now t chosen = ground arith

watched-evict :
    {W : Type 0} (g : ActivityServices W) (n : String) (v : Watch) (w : W)
    → evict_activity (watched g) n (v, w) ≡ (v, evict_activity g n w)
unfolding evict_activity
watched-evict g n v w = ground arith

seen_head :
    (n : String) (t : ℤ) (cs : List (String × ℤ))
    → seen n t (expecting ((n, t) ∷ cs)) ≡ expecting cs
seen_head n t cs = ground (arith, eq_refl n)

due_skips :
    (now : ℤ) (a : Activity) (rest : List Activity)
    → next_activity_status a now ≡ none
    → due now (a ∷ rest) ≡ due now rest
unfolding due
due_skips now a rest stays = ground (arith, stays)

due_takes :
    (now t : ℤ) (a : Activity) (rest : List Activity)
    → next_activity_status a now ≡ some t
    → due now (a ∷ rest) ≡ (a.activity_no, t) ∷ due now rest
unfolding due
due_takes now t a rest chosen = ground (arith, chosen)

nothing_due :
    (now : ℤ) (r : ActivityStatusResult) → IsSettled r (due now []) none r (expecting (due now []))
unfolding due count
nothing_due now r = ground arith

update_statuses-IsSettled :
    {W : Type 0} (g : ActivityServices W) (xs : List Activity) (now : ℤ) (r : ActivityStatusResult)
    (w : W)
    → let (r', (error, (v, w'))) =
        update_statuses (watched g) xs now r (expecting (due now xs), w) in
      IsSettled r (due now xs) error r' v
unfolding update_statuses
update_statuses-IsSettled g [] now r w = nothing_due now r
update_statuses-IsSettled g (a ∷ rest) now r w = elim (Option-cases (next_activity_status a now)) [
  | inl stays ↦
      rw (due_skips now a rest stays)
        (rw (stays, update_statuses) (update_statuses-IsSettled g rest now r w))
  | inr (t, chosen) ↦
      let w' = (g.update_activity_status a.activity_no t w).1 in
      rw (due_takes now t a rest chosen)
        (elim (Option-cases (g.update_activity_status a.activity_no t w).0) [
          | inl done ↦
              rw
                (
                  chosen,
                  done,
                  seen_head a.activity_no t (due now rest),
                  watched-evict g a.activity_no (expecting (due now rest)) w',
                  update_statuses,
                )
                (IsSettled-before a.activity_no t (due now rest) r _ _ _
                  (chosen_target a now t chosen)
                  (update_statuses-IsSettled g rest now (count_target t r)
                    (evict_activity g a.activity_no w')))
          | inr (e, failed) ↦
              rw (chosen, failed, seen_head a.activity_no t (due now rest), update_statuses)
                (ground arith)
        ])
]

-- Where the activities are listed, a run of the status job asks for the changes that are due, one
-- for each activity whose status is to change, in the order of the list and nothing else. Without an
-- error it has asked for all of them and its counters are the numbers of activities opened and
-- ended; with one it stopped at the update that failed and has counted those before it.
pub update_activity_statuses_settles :
    {W : Type 0} (g : ActivityServices W) (xs : List Activity) (w : W)
    → g.has_activity ≡ true
    → (g.list_activities w).0 ≡ ok xs
    → let changes = due (g.now (g.list_activities w).1).0 xs in
      let (r, (error, (v, w'))) = update_activity_statuses (watched g) (expecting changes, w) in
      IsSettled no_status_changes changes error r v
unfolding update_activity_statuses
update_activity_statuses_settles g xs w has listed =
    let now = (g.now (g.list_activities w).1).0 in
    let w2 = (g.now (g.list_activities w).1).1 in
    rw (has, listed, update_activity_statuses)
      (update_statuses-IsSettled g xs now no_status_changes w2)
