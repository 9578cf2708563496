-- ===== src/JobStore/Decisions.antt =====
-- PipelineJobStore.pause_for_decision, resume_from_decision and interrupt_waiting_decision: two
-- rows are written together or not at all.
use tiktok_b2b_bot_mirror.Prelude.{
  ℕ, String, ◌==◌, nat_eq, string_eq, Bool, true, false, ◌&&◌, Option, none, some, exists_row,
  update, Result, ok, ◌>>=◌, ◌>>◌, if◌then◌else◌,
}
use tiktok_b2b_bot_mirror.States.JobStatus
use tiktok_b2b_bot_mirror.States.JobStatus.{JobStatus, job_status_eq}
use tiktok_b2b_bot_mirror.States.StageStatus
use tiktok_b2b_bot_mirror.States.StageStatus.{StageStatus, stage_status_eq}
use tiktok_b2b_bot_mirror.States.Stage
use tiktok_b2b_bot_mirror.States.Stage.{Stage, stage_eq}
use tiktok_b2b_bot_mirror.JobStore.Rows.{
  Job, JobStage, checkpoint_status_eq, Db, StoreError, job_check, stage_check, name_check,
}

unfoldable pub is_stage : Option Stage → Stage → Bool
unfolding Stage.Stage-discrete
is_stage none stage = false
is_stage (some current) stage = current == stage

-- `WHERE id = job_id AND status = current AND current_stage = stage`
unfoldable pub is_at_stage : ℕ → Stage → JobStatus → Job → Bool
unfolding JobStatus.JobStatus-discrete is_stage
is_at_stage job_id stage status j =
    j.id == job_id && j.status == status && is_stage j.current_stage stage

unfoldable pub has_stage_status : ℕ → Stage → StageStatus → JobStage → Bool
unfolding StageStatus.StageStatus-discrete Stage.Stage-discrete
has_stage_status job_id stage status s =
    s.job_id == job_id && s.stage == stage && s.status == status

-- The savepoint: the first `UPDATE` is rolled back where the second finds no row.
unfoldable pub update_both :
    (Job → Bool) → (Job → Job) → (JobStage → Bool) → (JobStage → JobStage) → Db → Bool × Db
update_both p f q g db =
    if exists_row p db.jobs && exists_row q db.stages
    then (true, record db { jobs = update p f db.jobs; stages = update q g db.stages })
    else (false, db)

unfoldable pub transition_decision_state :
    ℕ → ℕ → Stage → JobStatus → JobStatus → StageStatus → StageStatus → Db → Bool × Db
unfolding update_both is_at_stage has_stage_status
transition_decision_state now job_id stage current_job target_job current_stage target_stage =
    update_both (is_at_stage job_id stage current_job)
      (λ j. record j { status = target_job; updated_at = now })
      (has_stage_status job_id stage current_stage) (λ s. record s { status = target_stage })

unfoldable pub pause_for_decision : ℕ → ℕ → String → Db → Result StoreError (Bool × Db)
unfolding transition_decision_state
pause_for_decision now job_id text db = do
  stage ← name_check (Stage.validate_pipeline_stage text)
  job_check (JobStatus.validate_known_transition JobStatus.running JobStatus.waiting_decision)
  stage_check
      (StageStatus.validate_known_transition StageStatus.running StageStatus.waiting_decision)
  ok (
      transition_decision_state now job_id stage JobStatus.running JobStatus.waiting_decision
        StageStatus.running StageStatus.waiting_decision db)

unfoldable pub resume_from_decision : ℕ → ℕ → String → Db → Result StoreError (Bool × Db)
unfolding transition_decision_state
resume_from_decision now job_id text db = do
  stage ← name_check (Stage.validate_pipeline_stage text)
  job_check (JobStatus.validate_known_transition JobStatus.waiting_decision JobStatus.running)
  stage_check
      (StageStatus.validate_known_transition StageStatus.waiting_decision StageStatus.running)
  ok (
      transition_decision_state now job_id stage JobStatus.waiting_decision JobStatus.running
        StageStatus.waiting_decision StageStatus.running db)

unfoldable pub interrupt_waiting_decision : ℕ → ℕ → String → Db → Result StoreError (Bool × Db)
unfolding update_both is_at_stage has_stage_status
interrupt_waiting_decision now job_id text db = do
  stage ← name_check (Stage.validate_pipeline_stage text)
  job_check (JobStatus.validate_known_transition JobStatus.waiting_decision JobStatus.interrupted)
  stage_check
      (StageStatus.validate_known_transition StageStatus.waiting_decision StageStatus.failed)
  ok (
      update_both (is_at_stage job_id stage JobStatus.waiting_decision)
        (λ j. record j {
          status = JobStatus.interrupted;
          error_summary = "decision gate interrupted";
          finished_at = some now;
          updated_at = now;
        })
        (has_stage_status job_id stage StageStatus.waiting_decision)
        (λ s. record s {
          status = StageStatus.failed;
          error_message = "decision gate interrupted";
          finished_at = some now;
        })
        db)
