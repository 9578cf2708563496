-- ===== src/JobStore/Pauses.antt =====
-- What `pause_for_decision` leaves: the job and its stage wait together, or nothing is written.
use tiktok_b2b_bot_mirror.Prelude.{
  ℕ, ◌≡◌, ◌⊎◌, refl, sym, ap, ◌∙◌, subst, inl, inr, String, Bool, true, false, some, ◌&&◌, Memᴰ,
  update, mem-update, exists_row, exists_row_mem, Bool-cases, ok, bind-ok, ok-injective, arith,
}
use tiktok_b2b_bot_mirror.States.JobStatus
use tiktok_b2b_bot_mirror.States.StageStatus
use tiktok_b2b_bot_mirror.JobStore.Rows.{Job, JobStage, Db}
use tiktok_b2b_bot_mirror.JobStore.Decisions.{
  is_at_stage, has_stage_status, update_both, transition_decision_state, pause_for_decision,
}
use tiktok_b2b_bot_mirror.JobStore.Guards.{at_stage, stage_status}

-- A job and one of its stages that both wait, the job at that stage.
pub record Paused (job_id : ℕ) (db : Db) : Type 0 where
  pub job : Job
  pub stage : JobStage
  pub job_there : Memᴰ job db.jobs
  pub stage_there : Memᴰ stage db.stages
  pub job_named : job.id ≡ job_id
  pub stage_owned : stage.job_id ≡ job_id
  pub at_stage : job.current_stage ≡ some stage.stage
  pub job_waits : job.status ≡ JobStatus.waiting_decision
  pub stage_waits : stage.status ≡ StageStatus.waiting_decision

update_both-cases :
    (p : Job → Bool) (f : Job → Job) (q : JobStage → Bool) (g : JobStage → JobStage) (db : Db)
    → (update_both p f q g db ≡ (false, db))
      ⊎ ((update_both p f q g db
            ≡ (true, record db { jobs = update p f db.jobs; stages = update q g db.stages }))
          × (exists_row p db.jobs ≡ true)
          × (exists_row q db.stages ≡ true))
unfolding update_both
update_both-cases p f q g db = elim (Bool-cases (exists_row p db.jobs && exists_row q db.stages)) [
  | inl both ↦
      let jobs : exists_row p db.jobs ≡ true = ground arith in
      let stages : exists_row q db.stages ≡ true = ground arith in
      inr (rw (jobs, stages) refl, jobs, stages)
  | inr one ↦ inl (rw one refl)
]

-- When `pause_for_decision` returns false, it has changed nothing; when it returns true, the job
-- and a stage of the job wait for a decision, and the job is at that stage.
pub pause_all_or_nothing :
    (now job_id : ℕ) (text : String) (db db' : Db) (paused : Bool)
    → pause_for_decision now job_id text db ≡ ok (paused, db')
    → ((paused ≡ false) × (db' ≡ db)) ⊎ ((paused ≡ true) × Paused job_id db')
unfolding pause_for_decision transition_decision_state
pause_all_or_nothing now job_id text db db' paused h =
    let (stage, _, h1) = bind-ok _ _ (paused, db') h in
    let (_, _, h2) = bind-ok _ _ (paused, db') h1 in
    let (_, _, h3) = bind-ok _ _ (paused, db') h2 in
    let done = ok-injective h3 in
    let p : Job → Bool = is_at_stage job_id stage JobStatus.running in
    let f : Job → Job = λ j. record j { status = JobStatus.waiting_decision; updated_at = now } in
    let q : JobStage → Bool = has_stage_status job_id stage StageStatus.running in
    let g : JobStage → JobStage = λ s. record s { status = StageStatus.waiting_decision } in
    elim (update_both-cases p f q g db) [
      | inl e ↦ inl (ap (λ r. r.0) (sym done ∙ e), ap (λ r. r.1) (sym done ∙ e))
      | inr (e, some_job, some_stage) ↦
          let (j, m, at_j) = exists_row_mem p db.jobs some_job in
          let (s, n, at_s) = exists_row_mem q db.stages some_stage in
          let (named, _, current) = at_stage job_id stage JobStatus.running j at_j in
          let (owned, same_stage, _) = stage_status job_id stage StageStatus.running s at_s in
          let row : Memᴰ (f j) (update p f db.jobs) = rw at_j at (mem-update p f db.jobs m) in
          let stage_row : Memᴰ (g s) (update q g db.stages) =
            rw at_s at (mem-update q g db.stages n) in
          let result : Paused job_id
              (record db { jobs = update p f db.jobs; stages = update q g db.stages }) =
            record {
              job = f j;
              stage = g s;
              job_there = row;
              stage_there = stage_row;
              job_named = named;
              stage_owned = owned;
              at_stage = current ∙ ap some (sym same_stage);
              job_waits = refl;
              stage_waits = refl;
            } in
          inr (
            ap (λ r. r.0) (sym done ∙ e),
            subst (Paused job_id) (sym (ap (λ r. r.1) (sym done ∙ e))) result,
          )
    ]
