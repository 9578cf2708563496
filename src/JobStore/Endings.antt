-- ===== src/JobStore/Endings.antt =====
-- Cancelling a job and recovering after a stop move their rows along the life cycles too.
use tiktok_b2b_bot_mirror.Prelude.{
  String, ℕ, ◌≡◌, refl, inl, inr, arith, Yields, Yields-ok, Yields-bind, Yields-if, Yields-then,
  Yields-weaken, ◌⊎◌,
}
use tiktok_b2b_bot_mirror.States.JobStatus.{JobStatus}
use tiktok_b2b_bot_mirror.States.StageStatus.{StageStatus}
use tiktok_b2b_bot_mirror.States.Paths
use tiktok_b2b_bot_mirror.States.StagePaths
use tiktok_b2b_bot_mirror.JobStore.Rows.{Db}
use tiktok_b2b_bot_mirror.JobStore.Guards.{open_stage, recoverable_job, lost_stage}
use tiktok_b2b_bot_mirror.JobStore.Moves.{
  Evolves, Evolves-trans, update-jobs, update-stages, job_moved, stage_moved, same_jobs,
}
use tiktok_b2b_bot_mirror.JobStore.Evolution.{end_pending-Evolves}
use tiktok_b2b_bot_mirror.JobStore.Outcomes.{set_job_status-Evolves}
use tiktok_b2b_bot_mirror.JobStore.Cancel.{
  cancel_checkpoint, cancel_queued_stages, cancel_waiting_stages, cancel_started, request_cancel,
  is_open_stage,
}
use tiktok_b2b_bot_mirror.JobStore.Recover.{
  is_recoverable, is_lost_stage, write_recovery, recover_interrupted,
}

-- The checkpoints are the only rows that `cancel_checkpoint` touches.
pub cancel_checkpoint_keeps :
    (now job_id : ℕ) (reason : String) (db : Db)
    → ((cancel_checkpoint now job_id reason db).jobs ≡ db.jobs)
      × ((cancel_checkpoint now job_id reason db).stages ≡ db.stages)
unfolding cancel_checkpoint
cancel_checkpoint_keeps now job_id reason db = ground arith

opened_moves :
    {s : StageStatus}
    → (s ≡ StageStatus.waiting_decision) ⊎ (s ≡ StageStatus.pending)
    → StagePaths.◌⟶*◌ s StageStatus.cancelled
opened_moves (inl e) = StagePaths.one_step e StagePaths.cancel_waiting
opened_moves (inr e) = StagePaths.one_step e StagePaths.drop

cancel_queued-Evolves :
    (now job_id : ℕ) (db : Db) → Yields (Evolves db) (cancel_queued_stages now job_id db)
unfolding cancel_queued_stages
cancel_queued-Evolves now job_id db =
    Yields-bind _ _
      λ _ _. Yields-ok _ (end_pending-Evolves now job_id StageStatus.cancelled db StagePaths.drop)

cancel_waiting-Evolves :
    (now job_id : ℕ) (db : Db) → Yields (Evolves db) (cancel_waiting_stages now job_id db)
unfolding cancel_waiting_stages
cancel_waiting-Evolves now job_id db = Yields-bind _ _ λ _ _. Yields-bind _ _ λ _ _.
    Yields-ok _ (record {
      jobs = rw (cancel_checkpoint_keeps now job_id "job_cancelled" _).0 (same_jobs db);
      stages = rw (cancel_checkpoint_keeps now job_id "job_cancelled" _).1 (
          update-stages (is_open_stage job_id) _ db λ s h.
            stage_moved refl refl refl refl (omega arith) (opened_moves (open_stage job_id s h).1));
    })

cancel_started-Evolves :
    (now job_id : ℕ) (db : Db) → Yields (Evolves db) (cancel_started now job_id db)
unfolding cancel_started
cancel_started-Evolves now job_id db =
    Yields-then _ _ (set_job_status-Evolves now job_id _ _ _ db) λ was_waiting waited moved.
      Yields-if was_waiting _ _
        (λ _.
          Yields-weaken _ (cancel_waiting-Evolves now job_id waited)
            λ s later. Evolves-trans moved later)
        λ _.
          Yields-then _ _ (set_job_status-Evolves now job_id _ _ _ waited)
            λ _ asked later. Yields-ok _ (Evolves-trans moved later)

pub request_cancel-Evolves :
    (now job_id : ℕ) (db : Db) → Yields (Evolves db) (request_cancel now job_id db)
unfolding request_cancel
request_cancel-Evolves now job_id db =
    Yields-then _ _ (set_job_status-Evolves now job_id _ _ _ db) λ was_queued dropped moved.
      Yields-if was_queued _ _
        (λ _.
          Yields-weaken _ (cancel_queued-Evolves now job_id dropped)
            λ s later. Evolves-trans moved later)
        λ _.
          Yields-weaken _ (cancel_started-Evolves now job_id dropped)
            λ s later. Evolves-trans moved later

lost_job :
    {j : JobStatus}
    → (j ≡ JobStatus.running) ⊎ (j ≡ JobStatus.cancelling) ⊎ (j ≡ JobStatus.waiting_decision)
    → Paths.◌⟶*◌ j JobStatus.interrupted
lost_job (inl e) = Paths.one_step e Paths.lose_running
lost_job (inr (inl e)) = Paths.one_step e Paths.lose_cancelling
lost_job (inr (inr e)) = Paths.one_step e Paths.lose_waiting

lost_moves :
    {s : StageStatus}
    → (s ≡ StageStatus.running) ⊎ (s ≡ StageStatus.waiting_decision)
    → StagePaths.◌⟶*◌ s StageStatus.failed
lost_moves (inl e) = StagePaths.one_step e StagePaths.fail
lost_moves (inr e) = StagePaths.one_step e StagePaths.fail_waiting

pub recover_interrupted-Evolves :
    (now : ℕ) (db : Db) → Yields (Evolves db) (recover_interrupted now db)
unfolding recover_interrupted write_recovery
recover_interrupted-Evolves now db = Yields-bind _ _ λ _ _. Yields-bind _ _ λ _ _.
    Yields-bind _ _ λ _ _. Yields-bind _ _ λ _ _. Yields-bind _ _ λ _ _. Yields-ok _ (record {
      jobs =
          update-jobs is_recoverable _ db
            λ j h. job_moved refl refl refl (lost_job (recoverable_job j h));
      stages = update-stages (is_lost_stage db.jobs) _ db λ s h.
          stage_moved refl refl refl refl (omega arith) (lost_moves (lost_stage db.jobs s h).1);
    })
