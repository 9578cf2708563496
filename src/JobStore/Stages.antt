-- ===== src/JobStore/Stages.antt =====
-- PipelineJobStore.start_stage, finish_stage, cancel_pending_stages and skip_pending_stages.
use tiktok_b2b_bot_mirror.Prelude.{
  ℕ, ◌+◌, String, ◌==◌, nat_eq, string_eq, Bool, ◌&&◌, Option, none, some, List, [], ◌∷◌, not,
  contains, exists_row, first, select, update, map, Result, ok, raise_if, ◌>>=◌, ◌>>◌,
  if◌then◌else◌, ltb,
}
use tiktok_b2b_bot_mirror.States.JobStatus
use tiktok_b2b_bot_mirror.States.JobStatus.{JobStatus, job_status_eq}
use tiktok_b2b_bot_mirror.States.StageStatus
use tiktok_b2b_bot_mirror.States.StageStatus.{StageStatus, stage_status_eq}
use tiktok_b2b_bot_mirror.States.Stage
use tiktok_b2b_bot_mirror.States.Stage.{Stage, stage_eq}
use tiktok_b2b_bot_mirror.JobStore.Rows.{
  Job, JobStage, checkpoint_status_eq, Db, StoreError, stage_check, name_check, finish_not_terminal,
}

unfoldable pub is_running_job : ℕ → Job → Bool
unfolding JobStatus.JobStatus-discrete
is_running_job job_id j = j.id == job_id && j.status == JobStatus.running

unfoldable pub has_running_job : ℕ → List Job → Bool
unfolding is_running_job
has_running_job job_id jobs = exists_row (is_running_job job_id) jobs

unfoldable pub is_startable : ℕ → Stage → JobStage → Bool
unfolding StageStatus.StageStatus-discrete Stage.Stage-discrete
is_startable job_id stage s =
    s.job_id == job_id
    && s.stage == stage
    && contains s.status (StageStatus.pending ∷ StageStatus.failed ∷ [])

unfoldable pub get_stage : ℕ → Db → Option JobStage
get_stage stage_id db = first (λ s. s.id == stage_id) db.stages

-- The two `UPDATE`s of `start_stage`, once a row is there to be started.
unfoldable pub write_start : ℕ → ℕ → Stage → Db → Db
unfolding is_startable is_running_job
write_start now job_id stage db = record db {
  stages =
      update (is_startable job_id stage)
        (λ s. record s {
          status = StageStatus.running;
          attempt = s.attempt + 1;
          started_at = some now;
          finished_at = none;
          error_message = "";
        })
        db.stages;
  jobs =
      update (is_running_job job_id)
        (λ j. record j { current_stage = some stage; updated_at = now }) db.jobs;
}

unfoldable pub start_stage : ℕ → ℕ → String → Db → Result StoreError (Option JobStage × Db)
unfolding write_start has_running_job get_stage
start_stage now job_id text db = do
  stage ← name_check (Stage.validate_pipeline_stage text)
  stage_check (StageStatus.validate_known_transition StageStatus.pending StageStatus.running)
  stage_check (StageStatus.validate_known_transition StageStatus.failed StageStatus.running)
  elim (first (λ s. is_startable job_id stage s && has_running_job job_id db.jobs) db.stages) [
    | none ↦ ok (none, db)
    | some s ↦ let db' = write_start now job_id stage db in ok (get_stage s.id db', db')
  ]

unfoldable pub is_running_stage : ℕ → Stage → JobStage → Bool
unfolding StageStatus.StageStatus-discrete Stage.Stage-discrete
is_running_stage job_id stage s =
    s.job_id == job_id && s.stage == stage && s.status == StageStatus.running

unfoldable pub write_finish : ℕ → ℕ → Stage → StageStatus → Option String → String → Db → Db
unfolding is_running_stage
write_finish now job_id stage status result error db = record db {
  stages =
      update (is_running_stage job_id stage)
        (λ s. record s {
          status = status;
          result_json = elim result [ none ↦ "{}" | some text ↦ text ];
          error_message = error;
          finished_at = some now;
        })
        db.stages;
}

unfoldable pub finish_stage :
    ℕ → ℕ → String → String → Option String → String → Db → Result StoreError (Option JobStage × Db)
unfolding write_finish get_stage StageStatus.is_terminal
finish_stage now job_id text status result error db = do
  stage ← name_check (Stage.validate_pipeline_stage text)
  target ← stage_check (StageStatus.validate_stage_status status)
  stage_check (StageStatus.validate_known_transition StageStatus.running target)
  raise_if (not (StageStatus.is_terminal target)) (finish_not_terminal status)
  elim (first (is_running_stage job_id stage) db.stages) [
    | none ↦ ok (none, db)
    | some s ↦
        let db' = write_finish now job_id stage target result error db in
        ok (get_stage s.id db', db')
  ]

unfoldable pub is_pending_stage : ℕ → JobStage → Bool
unfolding StageStatus.StageStatus-discrete
is_pending_stage job_id s = s.job_id == job_id && s.status == StageStatus.pending

-- `sorted(rows, key=stage_order)`
unfoldable pub insert_by_order : JobStage → List JobStage → List JobStage
insert_by_order s [] = s ∷ []
insert_by_order s (t ∷ rest) =
    if ltb t.stage_order s.stage_order then t ∷ insert_by_order s rest else s ∷ t ∷ rest

unfoldable pub sort_by_order : List JobStage → List JobStage
unfolding insert_by_order
sort_by_order [] = []
sort_by_order (s ∷ rest) = insert_by_order s (sort_by_order rest)

-- What `cancel_pending_stages` and `skip_pending_stages` share.
unfoldable pub end_pending_stages : ℕ → ℕ → StageStatus → Db → List Stage × Db
unfolding is_pending_stage sort_by_order
end_pending_stages now job_id status db = (
  map (λ s. s.stage) (sort_by_order (select (is_pending_stage job_id) db.stages)),
  record db {
    stages =
        update (is_pending_stage job_id) (λ s. record s { status = status; finished_at = some now })
          db.stages;
  },
)

unfoldable pub cancel_pending_stages : ℕ → ℕ → Db → Result StoreError (List Stage × Db)
unfolding end_pending_stages
cancel_pending_stages now job_id db = do
  stage_check (StageStatus.validate_known_transition StageStatus.pending StageStatus.cancelled)
  ok (end_pending_stages now job_id StageStatus.cancelled db)

unfoldable pub skip_pending_stages : ℕ → ℕ → Db → Result StoreError (List Stage × Db)
unfolding end_pending_stages
skip_pending_stages now job_id db = do
  stage_check (StageStatus.validate_known_transition StageStatus.pending StageStatus.skipped)
  ok (end_pending_stages now job_id StageStatus.skipped db)
