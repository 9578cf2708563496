-- ===== src/JobStore/Guards.antt =====
-- What the `WHERE` clauses of the store say of a row that they let through.
use tiktok_b2b_bot_mirror.Prelude.{ℕ, ◌≡◌, ◌⊎◌, true, some, List, contains, arith}
use tiktok_b2b_bot_mirror.States.JobStatus.{JobStatus, job_status_eq}
use tiktok_b2b_bot_mirror.States.StageStatus.{StageStatus}
use tiktok_b2b_bot_mirror.States.Stage.{Stage}
use tiktok_b2b_bot_mirror.JobStore.Rows.{Job, JobStage}
use tiktok_b2b_bot_mirror.JobStore.Claim.{is_queued_job}
use tiktok_b2b_bot_mirror.JobStore.Stages.{
  is_startable, is_running_stage, is_pending_stage, is_running_job,
}
use tiktok_b2b_bot_mirror.JobStore.Status.{is_expected}
use tiktok_b2b_bot_mirror.JobStore.Decisions.{is_at_stage, has_stage_status}
use tiktok_b2b_bot_mirror.JobStore.Cancel.{is_open_stage}
use tiktok_b2b_bot_mirror.JobStore.Recover.{is_recoverable, is_lost_stage, has_recoverable_job}

pub queued_job :
    (id : ℕ) (j : Job) → is_queued_job id j ≡ true → (j.id ≡ id) × (j.status ≡ JobStatus.queued)
unfolding is_queued_job
queued_job id j h = ground arith

pub running_job :
    (id : ℕ) (j : Job) → is_running_job id j ≡ true → (j.id ≡ id) × (j.status ≡ JobStatus.running)
unfolding is_running_job
running_job id j h = ground arith

pub startable :
    (id : ℕ) (stage : Stage) (s : JobStage)
    → is_startable id stage s ≡ true
    → (s.job_id ≡ id)
      × (s.stage ≡ stage)
      × ((s.status ≡ StageStatus.pending) ⊎ (s.status ≡ StageStatus.failed))
unfolding is_startable
startable id stage s h = ground arith

pub running_stage :
    (id : ℕ) (stage : Stage) (s : JobStage)
    → is_running_stage id stage s ≡ true
    → (s.job_id ≡ id) × (s.stage ≡ stage) × (s.status ≡ StageStatus.running)
unfolding is_running_stage
running_stage id stage s h = ground arith

pub pending_stage :
    (id : ℕ) (s : JobStage)
    → is_pending_stage id s ≡ true
    → (s.job_id ≡ id) × (s.status ≡ StageStatus.pending)
unfolding is_pending_stage
pending_stage id s h = ground arith

pub at_stage :
    (id : ℕ) (stage : Stage) (status : JobStatus) (j : Job)
    → is_at_stage id stage status j ≡ true
    → (j.id ≡ id) × (j.status ≡ status) × (j.current_stage ≡ some stage)
unfolding is_at_stage
at_stage id stage status j h = ground arith

pub stage_status :
    (id : ℕ) (stage : Stage) (status : StageStatus) (s : JobStage)
    → has_stage_status id stage status s ≡ true
    → (s.job_id ≡ id) × (s.stage ≡ stage) × (s.status ≡ status)
unfolding has_stage_status
stage_status id stage status s h = ground arith

pub open_stage :
    (id : ℕ) (s : JobStage)
    → is_open_stage id s ≡ true
    → (s.job_id ≡ id)
      × ((s.status ≡ StageStatus.waiting_decision) ⊎ (s.status ≡ StageStatus.pending))
unfolding is_open_stage
open_stage id s h = ground arith

pub expected_job :
    (id : ℕ) (known : List JobStatus) (j : Job)
    → is_expected id known j ≡ true
    → (j.id ≡ id) × (contains j.status known ≡ true)
unfolding is_expected
expected_job id known j h = ground arith

pub recoverable_job :
    (j : Job)
    → is_recoverable j ≡ true
    → (j.status ≡ JobStatus.running)
      ⊎ (j.status ≡ JobStatus.cancelling)
      ⊎ (j.status ≡ JobStatus.waiting_decision)
unfolding is_recoverable
recoverable_job j h = ground arith

pub lost_stage :
    (jobs : List Job) (s : JobStage)
    → is_lost_stage jobs s ≡ true
    → (has_recoverable_job s.job_id jobs ≡ true)
      × ((s.status ≡ StageStatus.running) ⊎ (s.status ≡ StageStatus.waiting_decision))
unfolding is_lost_stage
lost_stage jobs s h = ground arith
