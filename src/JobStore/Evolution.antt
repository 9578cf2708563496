-- ===== src/JobStore/Evolution.antt =====
-- Every method of the store moves its rows along the life cycles.
use tiktok_b2b_bot_mirror.Prelude.{
  map_err-ok, ◌&&◌, ℕ, ◌≡◌, refl, inl, inr, Yields-ok, ◌⊎◌, Yields-bind, Yields-option, Bool,
  Option, List, [], ◌∷◌, String, Grows-append, arith, Yields, ok, first, select,
}
use tiktok_b2b_bot_mirror.States.JobStatus.{job_status_eq}
use tiktok_b2b_bot_mirror.States.StageStatus
use tiktok_b2b_bot_mirror.States.StageStatus.{StageStatus, stage_status_eq}
use tiktok_b2b_bot_mirror.States.Stage.{Stage}
use tiktok_b2b_bot_mirror.States.Paths
use tiktok_b2b_bot_mirror.States.StagePaths
use tiktok_b2b_bot_mirror.JobStore.Rows.{JobStage, Db, stage_check, stage_state}
use tiktok_b2b_bot_mirror.JobStore.Create.{JobRequest, create_job}
use tiktok_b2b_bot_mirror.JobStore.Claim.{
  is_queued_job, least, is_claimable, claim_next_job, claim_job,
}
use tiktok_b2b_bot_mirror.JobStore.Stages.{
  start_stage, write_start, is_running_job, has_running_job, is_startable, finish_stage,
  write_finish, is_running_stage, is_pending_stage, end_pending_stages, cancel_pending_stages,
  skip_pending_stages,
}
use tiktok_b2b_bot_mirror.JobStore.Moves.{
  JobMove, StageMove, Evolves, Evolves-refl, JobMove-refl, StageMove-refl, update-jobs,
  update-stages, job_moved, stage_moved, same_jobs, same_stages,
}
use tiktok_b2b_bot_mirror.JobStore.Guards.{queued_job, startable, running_stage, pending_stage}

pub create_job-Evolves :
    (id now : ℕ) (r : JobRequest) (db : Db) → Yields (Evolves db) (create_job id now r db)
unfolding create_job
create_job-Evolves id now r db = Yields-bind _ _ λ _ _. Yields-bind _ _ λ _ _.
    Yields-bind _ _ λ _ _. Yields-bind _ _ λ _ _. Yields-ok _ (record {
      jobs = Grows-append JobMove JobMove-refl db.jobs _;
      stages = Grows-append StageMove StageMove-refl db.stages _;
    })

pub claim_job-Evolves :
    (now job_id account : ℕ) (db : Db) → Yields (Evolves db) (claim_job now job_id account db)
unfolding claim_job
claim_job-Evolves now job_id account db = Yields-bind _ _ λ _ _. Yields-ok _ (record {
  jobs =
      update-jobs (is_queued_job job_id) _ db
        λ j h. job_moved refl refl refl (Paths.one_step (queued_job job_id j h).1 Paths.claim);
  stages = same_stages db;
})

pub claim_next_job-Evolves :
    (now : ℕ) (platforms : List String) (db : Db)
    → Yields (Evolves db) (claim_next_job now platforms db)
unfolding claim_next_job
claim_next_job-Evolves now [] db = Yields-ok _ (Evolves-refl db)
claim_next_job-Evolves now (p ∷ ps) db = Yields-bind _ _ λ _ _.
    Yields-option (least (select (is_claimable (p ∷ ps)) db.jobs)) _ _
      (Yields-ok _ (Evolves-refl db))
      λ c _. Yields-ok _ (record {
        jobs =
            update-jobs (is_queued_job c.id) _ db
              λ j h. job_moved refl refl refl (Paths.one_step (queued_job c.id j h).1 Paths.claim);
        stages = same_stages db;
      })

restarted :
    (s : JobStage)
    → (s.status ≡ StageStatus.pending) ⊎ (s.status ≡ StageStatus.failed)
    → StagePaths.◌⟶*◌ s.status StageStatus.running
restarted s (inl e) = StagePaths.one_step e StagePaths.start
restarted s (inr e) = StagePaths.one_step e StagePaths.restart

write_start-Evolves :
    (now job_id : ℕ) (stage : Stage) (db : Db) → Evolves db (write_start now job_id stage db)
unfolding write_start
write_start-Evolves now job_id stage db = record {
  jobs = update-jobs (is_running_job job_id) _ db λ j h. job_moved refl refl refl Paths.here;
  stages = update-stages (is_startable job_id stage) _ db λ s h.
      stage_moved refl refl refl refl (omega arith) (restarted s (startable job_id stage s h).2);
}

pub start_stage-Evolves :
    (now job_id : ℕ) (text : String) (db : Db)
    → Yields (Evolves db) (start_stage now job_id text db)
unfolding start_stage
start_stage-Evolves now job_id text db = Yields-bind _ _ λ stage _. Yields-bind _ _ λ _ _.
    Yields-bind _ _ λ _ _.
      Yields-option
        (first (λ s. is_startable job_id stage s && has_running_job job_id db.jobs) db.stages) _ _
        (Yields-ok _ (Evolves-refl db)) λ s _. Yields-ok _ (write_start-Evolves now job_id stage db)

write_finish-Evolves :
    (now job_id : ℕ) (stage : Stage) (status : StageStatus) (result : Option String)
    (error : String) (db : Db)
    → StagePaths.◌⟶◌ StageStatus.running status
    → Evolves db (write_finish now job_id stage status result error db)
unfolding write_finish
write_finish-Evolves now job_id stage status result error db edge = record {
  jobs = same_jobs db;
  stages = update-stages (is_running_stage job_id stage) _ db λ s h.
      stage_moved refl refl refl refl (omega arith)
        (StagePaths.one_step (running_stage job_id stage s h).2 edge);
}

-- A check that passes is an edge of the life cycle.
checked_edge :
    (c t : StageStatus) (b : Bool)
    → stage_check (StageStatus.validate_known_transition c t) ≡ ok b
    → StagePaths.◌⟶◌ c t
checked_edge c t b h = StagePaths.passed-step c t b (map_err-ok stage_state _ b h)

pub finish_stage-Evolves :
    (now job_id : ℕ) (text status : String) (result : Option String) (error : String) (db : Db)
    → Yields (Evolves db) (finish_stage now job_id text status result error db)
unfolding finish_stage
finish_stage-Evolves now job_id text status result error db = Yields-bind _ _ λ stage _.
    Yields-bind _ _ λ target _. Yields-bind _ _ λ valid known. Yields-bind _ _ λ _ _.
      Yields-option (first (is_running_stage job_id stage) db.stages) _ _
        (Yields-ok _ (Evolves-refl db))
        λ s _. Yields-ok _ (
          write_finish-Evolves now job_id stage target result error db
            (checked_edge StageStatus.running target valid known))

-- Pending stages are ended with a status that an edge leads to.
pub end_pending-Evolves :
    (now job_id : ℕ) (status : StageStatus) (db : Db)
    → StagePaths.◌⟶◌ StageStatus.pending status
    → Evolves db (end_pending_stages now job_id status db).1
unfolding end_pending_stages
end_pending-Evolves now job_id status db edge = record {
  jobs = same_jobs db;
  stages = update-stages (is_pending_stage job_id) _ db λ s h.
      stage_moved refl refl refl refl (omega arith)
        (StagePaths.one_step (pending_stage job_id s h).1 edge);
}

pub cancel_pending_stages-Evolves :
    (now job_id : ℕ) (db : Db) → Yields (Evolves db) (cancel_pending_stages now job_id db)
unfolding cancel_pending_stages
cancel_pending_stages-Evolves now job_id db =
    Yields-bind _ _
      λ _ _. Yields-ok _ (end_pending-Evolves now job_id StageStatus.cancelled db StagePaths.drop)

pub skip_pending_stages-Evolves :
    (now job_id : ℕ) (db : Db) → Yields (Evolves db) (skip_pending_stages now job_id db)
unfolding skip_pending_stages
skip_pending_stages-Evolves now job_id db =
    Yields-bind _ _
      λ _ _. Yields-ok _ (end_pending-Evolves now job_id StageStatus.skipped db StagePaths.skip)
