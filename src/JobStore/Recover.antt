-- ===== src/JobStore/Recover.antt =====
-- PipelineJobStore.recover_interrupted, run when the service starts again.
use tiktok_b2b_bot_mirror.Prelude.{
  ℕ, ◌==◌, nat_eq, string_eq, Bool, ◌&&◌, some, List, [], ◌∷◌, contains, exists_row, update,
  rowcount, Result, ok, ◌>>◌,
}
use tiktok_b2b_bot_mirror.States.JobStatus
use tiktok_b2b_bot_mirror.States.JobStatus.{JobStatus, job_status_eq}
use tiktok_b2b_bot_mirror.States.StageStatus
use tiktok_b2b_bot_mirror.States.StageStatus.{StageStatus, stage_status_eq}
use tiktok_b2b_bot_mirror.States.Stage.{stage_eq}
use tiktok_b2b_bot_mirror.JobStore.Rows.{
  Job, JobStage, Checkpoint, CheckpointStatus, CheckpointStatus-discrete, checkpoint_status_eq, Db,
  StoreError, job_check, stage_check,
}
use tiktok_b2b_bot_mirror.JobStore.Cancel.{cancelled_checkpoint}

abbrev pub recoverable_statuses : List JobStatus
recoverable_statuses = JobStatus.running ∷ JobStatus.cancelling ∷ JobStatus.waiting_decision ∷ []

unfoldable pub is_recoverable : Job → Bool
unfolding JobStatus.JobStatus-discrete
is_recoverable j = contains j.status recoverable_statuses

-- `job_id IN (SELECT id FROM pipeline_jobs WHERE ...)`
unfoldable pub has_recoverable_job : ℕ → List Job → Bool
unfolding is_recoverable
has_recoverable_job job_id jobs = exists_row (λ j. j.id == job_id && is_recoverable j) jobs

unfoldable pub is_lost_stage : List Job → JobStage → Bool
unfolding has_recoverable_job StageStatus.StageStatus-discrete
is_lost_stage jobs s =
    has_recoverable_job s.job_id jobs
    && contains s.status (StageStatus.running ∷ StageStatus.waiting_decision ∷ [])

unfoldable pub is_lost_checkpoint : List Job → Checkpoint → Bool
unfolding has_recoverable_job CheckpointStatus-discrete
is_lost_checkpoint jobs c =
    has_recoverable_job c.job_id jobs && c.status == CheckpointStatus.pending

unfoldable pub write_recovery : ℕ → Db → Db
unfolding is_recoverable is_lost_stage is_lost_checkpoint cancelled_checkpoint
write_recovery now db = record db {
  stages =
      update (is_lost_stage db.jobs)
        (λ s. record s {
          status = StageStatus.failed;
          error_message = "service interrupted";
          finished_at = some now;
        })
        db.stages;
  checkpoints =
      update (is_lost_checkpoint db.jobs) (cancelled_checkpoint now "service_interrupted")
        db.checkpoints;
  jobs =
      update is_recoverable
        (λ j. record j { status = JobStatus.interrupted; finished_at = some now; updated_at = now })
        db.jobs;
}

unfoldable pub recover_interrupted : ℕ → Db → Result StoreError (ℕ × Db)
unfolding write_recovery is_recoverable
recover_interrupted now db = do
  stage_check (StageStatus.validate_known_transition StageStatus.running StageStatus.failed)
  stage_check
      (StageStatus.validate_known_transition StageStatus.waiting_decision StageStatus.failed)
  job_check (JobStatus.validate_known_transition JobStatus.running JobStatus.interrupted)
  job_check (JobStatus.validate_known_transition JobStatus.cancelling JobStatus.interrupted)
  job_check (JobStatus.validate_known_transition JobStatus.waiting_decision JobStatus.interrupted)
  ok (rowcount is_recoverable db.jobs, write_recovery now db)
