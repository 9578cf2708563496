-- ===== src/JobStore/Decided.antt =====
-- The calls that pause, resume and interrupt a job keep every waiting stage gated by its job.
use tiktok_b2b_bot_mirror.Prelude.{
  ℕ, ◌≡◌, ◌≢◌, refl, sym, ap, ◌∙◌, inl, inr, Bool, true, false, some, String, update, update_row,
  mem-update, exists_row, exists_row_mem, arith, ◌&&◌, Yields, Yields-ok, Yields-bind, Bool-cases,
}
use tiktok_b2b_bot_mirror.States.JobStatus.{JobStatus, job_status_eq}
use tiktok_b2b_bot_mirror.States.StageStatus.{StageStatus}
use tiktok_b2b_bot_mirror.States.Stage.{Stage}
use tiktok_b2b_bot_mirror.JobStore.Rows.{Job, JobStage, Db}
use tiktok_b2b_bot_mirror.JobStore.Decisions.{
  update_both, transition_decision_state, pause_for_decision, resume_from_decision,
  interrupt_waiting_decision, is_at_stage, has_stage_status,
}
use tiktok_b2b_bot_mirror.JobStore.Guards.{at_stage, stage_status}
use tiktok_b2b_bot_mirror.JobStore.Gates.{Gate, IsWaiting, IsCoherent, update-IsCoherent, untouched}

-- The tests of the two rows pass for rows with these fields.
passes_stage :
    (id : ℕ) (stage : Stage) (status : StageStatus) (s : JobStage)
    → s.job_id ≡ id
    → s.stage ≡ stage
    → s.status ≡ status
    → has_stage_status id stage status s ≡ true
unfolding has_stage_status
passes_stage id stage status s a b c = ground arith

-- The gate of a stage that waits is not the job that waits at `stage`, unless that is the stage.
other-Gate :
    (id : ℕ) (stage : Stage) (s : JobStage) (j : Job)
    → has_stage_status id stage StageStatus.waiting_decision s ≡ false
    → IsWaiting s
    → Gate s j
    → is_at_stage id stage JobStatus.waiting_decision j ≡ false
other-Gate id stage s j miss w held =
    elim (Bool-cases (is_at_stage id stage JobStatus.waiting_decision j)) [
      | inr no_job ↦ no_job
      | inl hit ↦
          let (a, b, c) = at_stage id stage JobStatus.waiting_decision j hit in
          let same_stage : s.stage ≡ stage = ground (arith, held.at_stage, c) in
          cc (
            passes_stage id stage StageStatus.waiting_decision s (sym held.same_job ∙ a) same_stage
              w)
    ]

pub update_both-IsCoherent :
    (p : Job → Bool) (f : Job → Job) (q : JobStage → Bool) (g : JobStage → JobStage) (db : Db)
    → (exists_row p db.jobs ≡ true
        → IsCoherent (record db { jobs = update p f db.jobs; stages = update q g db.stages }))
    → IsCoherent db
    → IsCoherent (update_both p f q g db).1
unfolding update_both
update_both-IsCoherent p f q g db both c =
    elim (Bool-cases (exists_row p db.jobs && exists_row q db.stages)) [
      | inl e ↦ rw e (both (ground arith))
      | inr e ↦ rw e c
    ]

paused :
    (now job_id : ℕ) (stage : Stage) (db : Db)
    → IsCoherent db
    → IsCoherent
        (transition_decision_state now job_id stage JobStatus.running JobStatus.waiting_decision
          StageStatus.running StageStatus.waiting_decision db).1
unfolding transition_decision_state
paused now job_id stage db c =
    update_both-IsCoherent p f q g db
      (λ found.
        update-IsCoherent p f q g db
          (λ s hit _.
            let (j, m, here) = exists_row_mem p db.jobs found in
            (update_row p f j, mem-update p f db.jobs m, rw here (opened s j hit here)))
          (λ s j _ _ _ held. untouched p f s j running_only held) c)
      c
  where
    p : Job → Bool
    p = is_at_stage job_id stage JobStatus.running

    f : Job → Job
    f = λ j. record j { status = JobStatus.waiting_decision; updated_at = now }

    q : JobStage → Bool
    q = has_stage_status job_id stage StageStatus.running

    g : JobStage → JobStage
    g = λ s. record s { status = StageStatus.waiting_decision }

    opened : (s : JobStage) (j : Job) → q s ≡ true → p j ≡ true → Gate (g s) (f j)
    opened s j hit here =
        let (a, b, d) = at_stage job_id stage JobStatus.running j here in
        let (a', b', d') = stage_status job_id stage StageStatus.running s hit in
        record { same_job = a ∙ sym a'; job_waits = refl; at_stage = d ∙ ap some (sym b') }

    running_only : (k : Job) → p k ≡ true → k.status ≢ JobStatus.waiting_decision
    running_only k h w = cc ((at_stage job_id stage JobStatus.running k h).1)

-- The gates of the stages that still wait are kept when the job at `stage` stops waiting.
module _ (job_id : ℕ) (stage : Stage) (f : Job → Job) (g : JobStage → JobStage)
    (awake : (s : JobStage) → ¬ (IsWaiting (g s))) (db : Db) where
  released :
      IsCoherent db
      → IsCoherent
          (update_both
            (is_at_stage job_id stage JobStatus.waiting_decision)
            f
            (has_stage_status job_id stage StageStatus.waiting_decision)
            g
            db).1
  released c =
      update_both-IsCoherent p f q g db
        (λ _.
          update-IsCoherent p f q g db (λ s _ w. absurd (awake s w))
            (λ s j _ miss w held. rw (other-Gate job_id stage s j miss w held) held) c)
        c
    where
      p : Job → Bool
      p = is_at_stage job_id stage JobStatus.waiting_decision

      q : JobStage → Bool
      q = has_stage_status job_id stage StageStatus.waiting_decision

pub pause_for_decision-IsCoherent :
    (now job_id : ℕ) (text : String) (db : Db)
    → IsCoherent db
    → Yields IsCoherent (pause_for_decision now job_id text db)
unfolding pause_for_decision
pause_for_decision-IsCoherent now job_id text db c = Yields-bind _ _ λ stage _.
    Yields-bind _ _ λ _ _. Yields-bind _ _ λ _ _. Yields-ok _ (paused now job_id stage db c)

pub resume_from_decision-IsCoherent :
    (now job_id : ℕ) (text : String) (db : Db)
    → IsCoherent db
    → Yields IsCoherent (resume_from_decision now job_id text db)
unfolding resume_from_decision
resume_from_decision-IsCoherent now job_id text db c = Yields-bind _ _ λ stage _.
    Yields-bind _ _
      λ _ _. Yields-bind _ _ λ _ _. Yields-ok _ (released job_id stage _ _ (λ s w. cc) db c)

pub interrupt_waiting_decision-IsCoherent :
    (now job_id : ℕ) (text : String) (db : Db)
    → IsCoherent db
    → Yields IsCoherent (interrupt_waiting_decision now job_id text db)
unfolding interrupt_waiting_decision
interrupt_waiting_decision-IsCoherent now job_id text db c = Yields-bind _ _ λ stage _.
    Yields-bind _ _
      λ _ _. Yields-bind _ _ λ _ _. Yields-ok _ (released job_id stage _ _ (λ s w. cc) db c)
