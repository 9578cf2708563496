-- ===== src/JobStore/Lifecycle.antt =====
-- What no sequence of calls to the store can undo.
use tiktok_b2b_bot_mirror.Prelude.{
  ◌≡◌, true, List, [], ◌∷◌, Memᴰ, mem-Grows, Result, ok, err, Yields, committed,
}
use tiktok_b2b_bot_mirror.States.JobStatus
use tiktok_b2b_bot_mirror.States.Paths.{terminal_absorbs}
use tiktok_b2b_bot_mirror.States.StagePaths.{IsClosed, closed_absorbs}
use tiktok_b2b_bot_mirror.JobStore.Rows.{Job, JobStage, Db, StoreError}
use tiktok_b2b_bot_mirror.JobStore.Moves.{JobMove, StageMove, Evolves, Evolves-refl, Evolves-trans}
use tiktok_b2b_bot_mirror.JobStore.Evolution.{
  create_job-Evolves, claim_job-Evolves, claim_next_job-Evolves, start_stage-Evolves,
  finish_stage-Evolves, cancel_pending_stages-Evolves, skip_pending_stages-Evolves,
}
use tiktok_b2b_bot_mirror.JobStore.Outcomes.{
  set_job_status-Evolves, pause_for_decision-Evolves, resume_from_decision-Evolves,
  interrupt_waiting_decision-Evolves,
}
use tiktok_b2b_bot_mirror.JobStore.Endings.{request_cancel-Evolves, recover_interrupted-Evolves}
use tiktok_b2b_bot_mirror.JobStore.Session.{Call, apply, run}

committed-Evolves :
    {A : Type 0} (db : Db) (r : Result StoreError (A × Db))
    → Yields (Evolves db) r
    → Evolves db (committed db r)
committed-Evolves db (ok (a, s)) h = h.holds
committed-Evolves db (err e) h = Evolves-refl db

pub apply-Evolves : (c : Call) (db : Db) → Evolves db (apply c db)
unfolding apply
apply-Evolves (Call.create now id r) db = committed-Evolves db _ (create_job-Evolves id now r db)
apply-Evolves (Call.claim_next now platforms) db =
    committed-Evolves db _ (claim_next_job-Evolves now platforms db)
apply-Evolves (Call.claim now id account) db =
    committed-Evolves db _ (claim_job-Evolves now id account db)
apply-Evolves (Call.set_status now id status expected us) db =
    committed-Evolves db _ (set_job_status-Evolves now id status expected us db)
apply-Evolves (Call.start now id stage) db =
    committed-Evolves db _ (start_stage-Evolves now id stage db)
apply-Evolves (Call.finish now id stage status result error) db =
    committed-Evolves db _ (finish_stage-Evolves now id stage status result error db)
apply-Evolves (Call.pause now id stage) db =
    committed-Evolves db _ (pause_for_decision-Evolves now id stage db)
apply-Evolves (Call.resume now id stage) db =
    committed-Evolves db _ (resume_from_decision-Evolves now id stage db)
apply-Evolves (Call.interrupt now id stage) db =
    committed-Evolves db _ (interrupt_waiting_decision-Evolves now id stage db)
apply-Evolves (Call.cancel_pending now id) db =
    committed-Evolves db _ (cancel_pending_stages-Evolves now id db)
apply-Evolves (Call.skip_pending now id) db =
    committed-Evolves db _ (skip_pending_stages-Evolves now id db)
apply-Evolves (Call.cancel now id) db = committed-Evolves db _ (request_cancel-Evolves now id db)
apply-Evolves (Call.recover now) db = committed-Evolves db _ (recover_interrupted-Evolves now db)

-- Whatever calls are made, in whatever order and with whatever arguments, every job and every stage
-- row that was there is still in its place with its id, job and stage; its status has moved along a
-- path of its life cycle, and the attempts of a stage have not fallen.
pub run-Evolves : (calls : List Call) (db : Db) → Evolves db (run calls db)
unfolding run
run-Evolves [] db = Evolves-refl db
run-Evolves (c ∷ rest) db = Evolves-trans (apply-Evolves c db) (run-Evolves rest (apply c db))

-- A job whose status is terminal still has that status after any sequence of calls.
pub run_terminal :
    (calls : List Call) (db : Db) (j : Job)
    → Memᴰ j db.jobs
    → JobStatus.is_terminal j.status ≡ true
    → (k : Job) × Memᴰ k (run calls db).jobs × (k.id ≡ j.id) × (k.status ≡ j.status)
run_terminal calls db j m h =
    let (k, n, move) = mem-Grows JobMove db.jobs _ (run-Evolves calls db).jobs m in
    (k, n, move.same_id, terminal_absorbs move.path h)

-- A stage that was done, skipped or cancelled is never run again, whatever calls are made.
pub run_closed :
    (calls : List Call) (db : Db) (s : JobStage)
    → Memᴰ s db.stages
    → IsClosed s.status
    → (t : JobStage) × Memᴰ t (run calls db).stages
      × (t.job_id ≡ s.job_id)
      × (t.stage ≡ s.stage)
      × (t.status ≡ s.status)
run_closed calls db s m h =
    let (t, n, move) = mem-Grows StageMove db.stages _ (run-Evolves calls db).stages m in
    (t, n, move.same_job, move.same_stage, closed_absorbs move.path h)
