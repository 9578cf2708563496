-- ===== src/JobStore/Cancel.antt =====
-- PipelineJobStore.request_cancel, with PipelineLiveStore.cancel_checkpoint as it calls it.
use tiktok_b2b_bot_mirror.Prelude.{
  ℕ, String, ◌==◌, nat_eq, string_eq, Bool, ◌&&◌, Option, none, some, [], ◌∷◌, contains, first,
  update, Result, ok, ◌>>=◌, ◌>>◌, if◌then◌else◌,
}
use tiktok_b2b_bot_mirror.States.JobStatus.{job_status_eq}
use tiktok_b2b_bot_mirror.States.StageStatus
use tiktok_b2b_bot_mirror.States.StageStatus.{StageStatus, stage_status_eq}
use tiktok_b2b_bot_mirror.States.Stage.{stage_eq}
use tiktok_b2b_bot_mirror.JobStore.Rows.{
  Job, JobStage, Checkpoint, CheckpointStatus, CheckpointStatus-discrete, checkpoint_status_eq,
  ResolutionSource, Db, StoreError, stage_check,
}
use tiktok_b2b_bot_mirror.JobStore.Claim.{get_job}
use tiktok_b2b_bot_mirror.JobStore.Stages.{end_pending_stages}
use tiktok_b2b_bot_mirror.JobStore.Status.{set_job_status, finished_at}

unfoldable pub is_pending_checkpoint : ℕ → Checkpoint → Bool
unfolding CheckpointStatus-discrete
is_pending_checkpoint job_id c = c.job_id == job_id && c.status == CheckpointStatus.pending

-- The fields that `cancel_checkpoint` and `recover_interrupted` write.
unfoldable pub cancelled_checkpoint : ℕ → String → Checkpoint → Checkpoint
cancelled_checkpoint now reason c = record c {
  status = CheckpointStatus.cancelled;
  resolved_at = some now;
  resolution_key = none;
  resolution_source = some ResolutionSource.system;
  operator = "";
  reason = reason;
  updated_at = now;
}

-- The active checkpoint is cancelled; a job has one pending checkpoint at most.
unfoldable pub cancel_checkpoint : ℕ → ℕ → String → Db → Db
unfolding is_pending_checkpoint cancelled_checkpoint CheckpointStatus-discrete
cancel_checkpoint now job_id reason db =
    elim (first (is_pending_checkpoint job_id) db.checkpoints) [
      | none ↦ db
      | some active ↦ record db {
        checkpoints =
            update (λ c. c.id == active.id && c.status == CheckpointStatus.pending)
              (cancelled_checkpoint now reason) db.checkpoints;
      }
    ]

unfoldable pub is_open_stage : ℕ → JobStage → Bool
unfolding StageStatus.StageStatus-discrete
is_open_stage job_id s =
    s.job_id == job_id
    && contains s.status (StageStatus.waiting_decision ∷ StageStatus.pending ∷ [])

-- What follows once a queued job is cancelled: its pending stages are.
unfoldable pub cancel_queued_stages : ℕ → ℕ → Db → Result StoreError (Option Job × Db)
unfolding end_pending_stages get_job
cancel_queued_stages now job_id db = do
  stage_check (StageStatus.validate_known_transition StageStatus.pending StageStatus.cancelled)
  let (_, db') = end_pending_stages now job_id StageStatus.cancelled db
  ok (get_job job_id db', db')

-- What follows once a waiting job is cancelled: its open stages and its checkpoint are.
unfoldable pub cancel_waiting_stages : ℕ → ℕ → Db → Result StoreError (Option Job × Db)
unfolding is_open_stage cancel_checkpoint get_job
cancel_waiting_stages now job_id db = do
  stage_check
      (StageStatus.validate_known_transition StageStatus.waiting_decision StageStatus.cancelled)
  stage_check (StageStatus.validate_known_transition StageStatus.pending StageStatus.cancelled)
  let stages =
      update (is_open_stage job_id)
        (λ s. record s { status = StageStatus.cancelled; finished_at = some now }) db.stages
  let db' = cancel_checkpoint now job_id "job_cancelled" (record db { stages = stages })
  ok (get_job job_id db', db')

-- The two attempts after the first, on a job that was not queued.
unfoldable pub cancel_started : ℕ → ℕ → Db → Result StoreError (Option Job × Db)
unfolding cancel_waiting_stages get_job
cancel_started now job_id db = do
  (was_waiting, waited) ←
      set_job_status now job_id "cancelled" (some ("waiting_decision" ∷ []))
        (finished_at (some now) ∷ []) db
  if was_waiting then cancel_waiting_stages now job_id waited else (do
    (_, asked) ← set_job_status now job_id "cancelling" (some ("running" ∷ [])) [] waited
    ok (get_job job_id asked, asked))

unfoldable pub request_cancel : ℕ → ℕ → Db → Result StoreError (Option Job × Db)
unfolding cancel_queued_stages cancel_started
request_cancel now job_id db = do
  (was_queued, dropped) ←
      set_job_status now job_id "cancelled" (some ("queued" ∷ [])) (finished_at (some now) ∷ []) db
  if was_queued then cancel_queued_stages now job_id dropped else cancel_started now job_id dropped
