-- ===== src/Schedule/Tick.antt =====
-- PipelineScheduler.tick and _due_schedule_snapshots. `now` is the moment that the tick is about,
-- and `clock` what `datetime.utcnow()` gives; `fresh` is the id that a schedule's new job gets.
use tiktok_b2b_bot_mirror.Prelude.{
  ℕ, suc, String, ◌==◌, nat_eq, string_eq, Bool, true, false, ◌&&◌, Option, none, some, List, [],
  ◌∷◌, map, rowcount, update, Result, ok, err, map_err, ◌>>=◌, ◌>>◌, if◌then◌else◌, ltb,
}
use tiktok_b2b_bot_mirror.JobStore.Create.{JobRequest}
use tiktok_b2b_bot_mirror.JobService.Rows.{Account, Availability, Tables, ServiceError}
use tiktok_b2b_bot_mirror.JobService.Preflight.{preflight_job}
use tiktok_b2b_bot_mirror.JobService.Calls.{create_job}
use tiktok_b2b_bot_mirror.Schedule.Text.{Text}
use tiktok_b2b_bot_mirror.Schedule.Field.{CronError}
use tiktok_b2b_bot_mirror.Schedule.Cron.{LocalTime, next_cron_run, previous_cron_run}

-- PipelineSchedule
pub record Schedule : Type 0 where
  pub id : ℕ
  pub platform : String
  pub account_mode : String
  pub account_id : Option ℕ
  pub stages_json : List String
  pub cron_expression : Text
  pub timezone : String
  pub enabled : Bool
  pub config_json : String
  pub next_run_at : Option ℕ
  pub last_run_at : Option ℕ
  pub updated_at : ℕ

pub record World : Type 0 where
  pub schedules : List Schedule
  pub tables : Tables

-- A copy of a due schedule, with the run that made it due.
pub record Snapshot : Type 0 where
  pub id : ℕ
  pub platform : String
  pub account_mode : String
  pub account_id : Option ℕ
  pub stages : List String
  pub cron_expression : Text
  pub timezone : String
  pub config : String
  pub observed_next_run_at : ℕ

pub data TickError : Type 0 where
  in_cron : CronError → TickError
  in_service : ServiceError → TickError

unfoldable pub snapshot_of : Schedule → ℕ → Snapshot
snapshot_of s run = record {
  id = s.id;
  platform = s.platform;
  account_mode = s.account_mode;
  account_id = s.account_id;
  stages = s.stages_json;
  cron_expression = s.cron_expression;
  timezone = s.timezone;
  config = s.config_json;
  observed_next_run_at = run;
}

-- A column is equal to a value; NULL is equal to none.
unfoldable pub holds_value : Option ℕ → ℕ → Bool
holds_value none value = false
holds_value (some x) value = x == value

-- Whether the row is still the one that the snapshot saw.
unfoldable pub is_unclaimed : Snapshot → Schedule → Bool
unfolding holds_value
is_unclaimed snapshot s =
    s.id == snapshot.id && s.enabled && holds_value s.next_run_at snapshot.observed_next_run_at

unfoldable pub schedule_request : Snapshot → JobRequest
schedule_request snapshot = record {
  platform = snapshot.platform;
  account_mode = snapshot.account_mode;
  account_id = snapshot.account_id;
  stages = snapshot.stages;
  trigger_type = "schedule";
  schedule_id = some snapshot.id;
  priority = 100;
  config_snapshot = some snapshot.config;
  retry_of_job_id = none;
}

-- The snapshots are of the rows as they were before; the table is in the order of its keys.
unfoldable pub due_snapshots : ℕ → List Schedule → List Snapshot
unfolding snapshot_of
due_snapshots now [] = []
due_snapshots now (s ∷ rest) = elim s.enabled [
  | false ↦ due_snapshots now rest
  | true ↦ elim s.next_run_at [
    | none ↦ due_snapshots now rest
    | some run ↦ elim (ltb now run) [
      | true ↦ due_snapshots now rest
      | false ↦ snapshot_of s run ∷ due_snapshots now rest
    ]
  ]
]

-- What the claim writes.
unfoldable pub advanced : ℕ → ℕ → ℕ → Schedule → Schedule
advanced clock latest following s = record s {
  last_run_at = some latest;
  next_run_at = some following;
  updated_at = clock;
}

module _ (strip lower : String → String) (providers : String → Option (Account → Availability))
    (fresh : ℕ → ℕ) where
  -- The session of one snapshot: the claim of its run, and the job.
  unfoldable pub claim_and_create : ℕ → ℕ → ℕ → Snapshot → World → Result TickError (Bool × World)
  unfolding is_unclaimed advanced schedule_request create_job
  claim_and_create clock latest following snapshot w =
      let schedules =
        update (is_unclaimed snapshot) (advanced clock latest following) w.schedules in
      if rowcount (is_unclaimed snapshot) w.schedules == 1
      then (do
        (_, tables) ← map_err in_service (
            create_job strip lower providers (fresh snapshot.id) clock true
              (schedule_request snapshot) w.tables)
        ok (true, record { schedules = schedules; tables = tables }))
      else ok (false, record w { schedules = schedules })

module _ (zone_info : String → Option (ℕ → LocalTime)) where
  -- A schedule that has no next run gets one, where its expression has any.
  unfoldable pub with_next_run : ℕ → ℕ → Schedule → Schedule
  unfolding next_cron_run
  with_next_run clock now s = elim s.enabled [
    | false ↦ s
    | true ↦ elim s.next_run_at [
      | some _ ↦ s
      | none ↦ elim (next_cron_run zone_info s.cron_expression s.timezone now) [
        | err _ ↦ s
        | ok run ↦ record s { next_run_at = some run; updated_at = clock }
      ]
    ]
  ]

  unfoldable pub due_schedule_snapshots : ℕ → ℕ → World → List Snapshot × World
  unfolding with_next_run due_snapshots
  due_schedule_snapshots clock now w = (
    due_snapshots now w.schedules,
    record w { schedules = map (with_next_run clock now) w.schedules },
  )

  module _ (strip lower : String → String) (providers : String → Option (Account → Availability))
      (fresh : ℕ → ℕ) where
    -- The body of the loop of `tick`: whether a job was created.
    unfoldable pub process : ℕ → ℕ → Snapshot → World → Result TickError (Bool × World)
    unfolding previous_cron_run next_cron_run preflight_job claim_and_create
    process clock now snapshot w = do
      latest ←
          map_err in_cron
            (previous_cron_run zone_info snapshot.cron_expression snapshot.timezone now)
      following ←
          map_err in_cron (next_cron_run zone_info snapshot.cron_expression snapshot.timezone now)
      map_err in_service (
          preflight_job strip lower providers snapshot.platform snapshot.account_mode
            snapshot.account_id w.tables.accounts)
      claim_and_create strip lower providers fresh clock latest following snapshot w

    -- An exception is logged, and rolls the session back.
    unfoldable pub process_all : ℕ → ℕ → List Snapshot → World → ℕ × World
    unfolding process
    process_all clock now [] w = (0, w)
    process_all clock now (snapshot ∷ rest) w = elim (process clock now snapshot w) [
      | err _ ↦ process_all clock now rest w
      | ok (false, w') ↦ process_all clock now rest w'
      | ok (true, w') ↦ let (created, w'') = process_all clock now rest w' in (suc created, w'')
    ]

    unfoldable pub tick : ℕ → ℕ → World → ℕ × World
    unfolding due_schedule_snapshots process_all
    tick clock now w =
        let (snapshots, w') = due_schedule_snapshots clock now w in
        process_all clock now snapshots w'
