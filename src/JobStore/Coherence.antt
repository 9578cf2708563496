-- ===== src/JobStore/Coherence.antt =====
-- The calls that claim jobs and run stages keep every waiting stage gated by its job.
use tiktok_b2b_bot_mirror.Prelude.{
  ℕ, ◌+◌, ◌≡◌, ◌≢◌, inl, inr, true, not, Option, some, List, [], ◌∷◌, String, Memᴰ, mem-append,
  mem_append_left, first, select, arith, ◌&&◌, Yields, Yields-ok, Yields-bind, Yields-option, ok,
  raise_if,
}
use tiktok_b2b_bot_mirror.States.JobStatus
use tiktok_b2b_bot_mirror.States.StageStatus
use tiktok_b2b_bot_mirror.States.StageStatus.{StageStatus}
use tiktok_b2b_bot_mirror.States.Stage.{Stage}
use tiktok_b2b_bot_mirror.JobStore.Rows.{Job, JobStage, Db, StoreError}
use tiktok_b2b_bot_mirror.JobStore.Create.{JobRequest, create_job, stage_rows}
use tiktok_b2b_bot_mirror.JobStore.Claim.{
  is_queued_job, least, is_claimable, claim_next_job, claim_job,
}
use tiktok_b2b_bot_mirror.JobStore.Stages.{
  start_stage, write_start, is_running_job, has_running_job, is_startable, finish_stage,
  write_finish, is_running_stage, is_pending_stage, end_pending_stages, cancel_pending_stages,
  skip_pending_stages,
}
use tiktok_b2b_bot_mirror.JobStore.Guards.{queued_job, running_job}
use tiktok_b2b_bot_mirror.JobStore.Gates.{
  IsCoherent, update-IsCoherent, update_jobs-IsCoherent, update_stages-IsCoherent, untouched,
}

queued_safe : (id : ℕ) (k : Job) → is_queued_job id k ≡ true → k.status ≢ JobStatus.waiting_decision
queued_safe id k h w = cc ((queued_job id k h).1)

running_safe :
    (id : ℕ) (k : Job) → is_running_job id k ≡ true → k.status ≢ JobStatus.waiting_decision
running_safe id k h w = cc ((running_job id k h).1)

-- The rows of a new job are pending.
new_rows_pending :
    (id job_id order : ℕ) (stages : List Stage) {s : JobStage}
    → Memᴰ s (stage_rows id job_id order stages)
    → s.status ≡ StageStatus.pending
unfolding stage_rows
new_rows_pending id job_id order [] m = elim m [ ]
new_rows_pending id job_id order (x ∷ rest) (Memᴰ.head e) = rw e
new_rows_pending id job_id order (x ∷ rest) (Memᴰ.tail m) =
    new_rows_pending (id + 1) job_id (order + 1) rest m

pub create_job-IsCoherent :
    (id now : ℕ) (r : JobRequest) (db : Db)
    → IsCoherent db
    → Yields IsCoherent (create_job id now r db)
unfolding create_job
create_job-IsCoherent id now r db c = Yields-bind _ _ λ _ _. Yields-bind _ _ λ _ _.
    Yields-bind _ _ λ _ _. Yields-bind _ _ λ _ _. Yields-ok _ (record {
      gate = λ s m w. elim (mem-append db.stages _ m) [
        | inl old ↦ let (j, n, held) = c.gate s old w in (j, mem_append_left db.jobs _ n, held)
        | inr new ↦ absurd (cc (new_rows_pending _ _ _ _ new))
      ];
    })

pub claim_job-IsCoherent :
    (now job_id account : ℕ) (db : Db)
    → IsCoherent db
    → Yields IsCoherent (claim_job now job_id account db)
unfolding claim_job
claim_job-IsCoherent now job_id account db c =
    Yields-bind _ _
      λ _ _. Yields-ok _ (update_jobs-IsCoherent (is_queued_job job_id) _ db (queued_safe job_id) c)

pub claim_next_job-IsCoherent :
    (now : ℕ) (platforms : List String) (db : Db)
    → IsCoherent db
    → Yields IsCoherent (claim_next_job now platforms db)
unfolding claim_next_job
claim_next_job-IsCoherent now [] db c = Yields-ok _ c
claim_next_job-IsCoherent now (p ∷ ps) db c = Yields-bind _ _ λ _ _.
    Yields-option (least (select (is_claimable (p ∷ ps)) db.jobs)) _ _ (Yields-ok _ c)
      λ k _. Yields-ok _ (update_jobs-IsCoherent (is_queued_job k.id) _ db (queued_safe k.id) c)

write_start-IsCoherent :
    (now job_id : ℕ) (stage : Stage) (db : Db)
    → IsCoherent db
    → IsCoherent (write_start now job_id stage db)
unfolding write_start
write_start-IsCoherent now job_id stage db c =
    update-IsCoherent (is_running_job job_id) _ (is_startable job_id stage) _ db
      (λ s _ w. absurd (cc))
      (λ s j _ _ _ held.
        untouched (is_running_job job_id)
          (λ k. record k { current_stage = some stage; updated_at = now }) s j (running_safe job_id)
          held)
      c

pub start_stage-IsCoherent :
    (now job_id : ℕ) (text : String) (db : Db)
    → IsCoherent db
    → Yields IsCoherent (start_stage now job_id text db)
unfolding start_stage
start_stage-IsCoherent now job_id text db c = Yields-bind _ _ λ stage _. Yields-bind _ _ λ _ _.
    Yields-bind _ _ λ _ _.
      Yields-option
        (first (λ s. is_startable job_id stage s && has_running_job job_id db.jobs) db.stages) _ _
        (Yields-ok _ c) λ s _. Yields-ok _ (write_start-IsCoherent now job_id stage db c)

-- A terminal stage status is not `waiting_decision`.
terminal_no_wait :
    (target : StageStatus) (e : StoreError)
    → raise_if (not (StageStatus.is_terminal target)) e ≡ ok tt
    → target ≢ StageStatus.waiting_decision
unfolding StageStatus.is_terminal
terminal_no_wait target e h w = ground arith

pub finish_stage-IsCoherent :
    (now job_id : ℕ) (text status : String) (result : Option String) (error : String) (db : Db)
    → IsCoherent db
    → Yields IsCoherent (finish_stage now job_id text status result error db)
unfolding finish_stage write_finish
finish_stage-IsCoherent now job_id text status result error db c = Yields-bind _ _ λ stage _.
    Yields-bind _ _ λ target _. Yields-bind _ _ λ _ _. Yields-bind _ _ λ _ terminal.
      Yields-option (first (is_running_stage job_id stage) db.stages) _ _ (Yields-ok _ c) λ s _.
        Yields-ok _ (
          update_stages-IsCoherent (is_running_stage job_id stage) _ db
            (λ s _. terminal_no_wait target _ terminal) c)

pub end_pending-IsCoherent :
    (now job_id : ℕ) (status : StageStatus) (db : Db)
    → status ≢ StageStatus.waiting_decision
    → IsCoherent db
    → IsCoherent (end_pending_stages now job_id status db).1
unfolding end_pending_stages
end_pending-IsCoherent now job_id status db ended c =
    update_stages-IsCoherent (is_pending_stage job_id) _ db (λ s _. ended) c

pub cancel_pending_stages-IsCoherent :
    (now job_id : ℕ) (db : Db)
    → IsCoherent db
    → Yields IsCoherent (cancel_pending_stages now job_id db)
unfolding cancel_pending_stages
cancel_pending_stages-IsCoherent now job_id db c =
    Yields-bind _ _ λ _ _. Yields-ok _ (end_pending-IsCoherent now job_id _ db (λ e. cc) c)

pub skip_pending_stages-IsCoherent :
    (now job_id : ℕ) (db : Db)
    → IsCoherent db
    → Yields IsCoherent (skip_pending_stages now job_id db)
unfolding skip_pending_stages
skip_pending_stages-IsCoherent now job_id db c =
    Yields-bind _ _ λ _ _. Yields-ok _ (end_pending-IsCoherent now job_id _ db (λ e. cc) c)
