-- ===== src/JobStore/Outcomes.antt =====
-- The methods that set a status and those that wait for decisions move their rows along the life
-- cycles too.
use tiktok_b2b_bot_mirror.Prelude.{
  ok-injective, subst, ℕ, ◌≡◌, refl, ◌∙◌, inl, inr, Bool, true, ◌&&◌, Option, List, [], ◌∷◌, String,
  All, All-mem, contains_mem, arith, Yields, Yields-ok, Yields-bind, Yields-if, bind-ok, map_err-ok,
  ok, exists_row, Bool-cases,
}
use tiktok_b2b_bot_mirror.States.JobStatus.{JobStatus, job_status_eq}
use tiktok_b2b_bot_mirror.States.StageStatus.{StageStatus}
use tiktok_b2b_bot_mirror.States.Stage.{Stage}
use tiktok_b2b_bot_mirror.States.Paths
use tiktok_b2b_bot_mirror.States.StagePaths
use tiktok_b2b_bot_mirror.JobStore.Rows.{Job, JobStage, Db, job_state}
use tiktok_b2b_bot_mirror.JobStore.Guards.{at_stage, stage_status, expected_job}
use tiktok_b2b_bot_mirror.JobStore.Moves.{
  JobMove, StageMove, Evolves, Evolves-refl, update-jobs, update-stages, job_moved, stage_moved,
  same_stages,
}
use tiktok_b2b_bot_mirror.JobStore.Status.{
  FieldUpdate, set_field, set_fields, check_expected, is_expected, write_status, set_job_status,
  expected_texts, account_id,
}
use tiktok_b2b_bot_mirror.JobStore.Create.{is_empty}
use tiktok_b2b_bot_mirror.JobStore.Decisions.{
  update_both, transition_decision_state, pause_for_decision, resume_from_decision,
  interrupt_waiting_decision, is_at_stage, has_stage_status,
}

-- A field update leaves the identity and the status of a job alone.
pub record SameCore (j k : Job) : Type 0 where
  pub id : k.id ≡ j.id
  pub platform : k.platform ≡ j.platform
  pub stages : k.stages_json ≡ j.stages_json
  pub status : k.status ≡ j.status

set_field-SameCore : (u : FieldUpdate) (j : Job) → SameCore j (set_field u j)
unfolding set_field
set_field-SameCore (account_id v) j = ground arith
set_field-SameCore _ j = ground arith

pub set_fields-SameCore : (us : List FieldUpdate) (j : Job) → SameCore j (set_fields us j)
unfolding set_fields
set_fields-SameCore [] j = record { id = refl; platform = refl; stages = refl; status = refl }
set_fields-SameCore (u ∷ us) j =
    let a = set_field-SameCore u j in
    let b = set_fields-SameCore us (set_field u j) in
    record {
      id = b.id ∙ a.id;
      platform = b.platform ∙ a.platform;
      stages = b.stages ∙ a.stages;
      status = b.status ∙ a.status;
    }

-- The loop over the expected statuses lets through only those that an edge joins to the target.
pub check_expected-edges :
    (texts : List String) (target : JobStatus) (known : List JobStatus)
    → check_expected texts target ≡ ok known
    → All (λ c. Paths.◌⟶◌ c target) known
unfolding check_expected
check_expected-edges [] target [] h = tt
check_expected-edges [] target (k ∷ ks) h = absurd (ground arith)
check_expected-edges (text ∷ rest) target known h =
    let (c, _, h1) = bind-ok _ _ known h in
    let (b, passed, h2) = bind-ok _ _ known h1 in
    let (others, sound, h3) = bind-ok _ _ known h2 in
    subst (All (λ k. Paths.◌⟶◌ k target)) (ok-injective h3) (
      Paths.passed-step c target b (map_err-ok job_state _ b passed),
      check_expected-edges rest target others sound,
    )

pub write_status-Evolves :
    (now job_id : ℕ) (target : JobStatus) (known : List JobStatus) (us : List FieldUpdate) (db : Db)
    → All (λ c. Paths.◌⟶◌ c target) known
    → Evolves db (write_status now job_id target known us db).1
unfolding write_status
write_status-Evolves now job_id target known us db edges = record {
  jobs = update-jobs (is_expected job_id known) _ db λ j h.
      let same = set_fields-SameCore us (record j { status = target; updated_at = now }) in
      job_moved same.id same.platform same.stages (
        rw same.status (
          Paths.one_step refl (
            All-mem (λ c. Paths.◌⟶◌ c target) known edges
              (contains_mem j.status known (expected_job job_id known j h).1))));
  stages = same_stages db;
}

pub set_job_status-Evolves :
    (now job_id : ℕ) (status : String) (expected : Option (List String)) (us : List FieldUpdate)
    (db : Db)
    → Yields (Evolves db) (set_job_status now job_id status expected us db)
unfolding set_job_status
set_job_status-Evolves now job_id status expected us db = Yields-bind _ _ λ target _.
    Yields-bind _ _ λ _ _. Yields-bind _ _ λ _ _.
      Yields-if (is_empty (expected_texts job_id expected db)) _ _
        (λ _. Yields-ok _ (Evolves-refl db))
        λ _. Yields-bind _ _ λ _ _. Yields-bind _ _ λ known sound. Yields-ok _ (
          write_status-Evolves now job_id target known us db
            (check_expected-edges (expected_texts job_id expected db) target known sound))

-- Two rows that are written together, each along an edge.
pub update_both-Evolves :
    (p : Job → Bool) (f : Job → Job) (q : JobStage → Bool) (g : JobStage → JobStage) (db : Db)
    → ((j : Job) → p j ≡ true → JobMove j (f j))
    → ((s : JobStage) → q s ≡ true → StageMove s (g s))
    → Evolves db (update_both p f q g db).1
unfolding update_both
update_both-Evolves p f q g db hj hs =
    elim (Bool-cases (exists_row p db.jobs && exists_row q db.stages)) [
      | inl e ↦ rw e (record { jobs = update-jobs p f db hj; stages = update-stages q g db hs })
      | inr e ↦ rw e (Evolves-refl db)
    ]

transition-Evolves :
    (now job_id : ℕ) (stage : Stage) (cj tj : JobStatus) (cs ts : StageStatus) (db : Db)
    → Paths.◌⟶◌ cj tj
    → StagePaths.◌⟶◌ cs ts
    → Evolves db (transition_decision_state now job_id stage cj tj cs ts db).1
unfolding transition_decision_state
transition-Evolves now job_id stage cj tj cs ts db ej es =
    update_both-Evolves (is_at_stage job_id stage cj) _ (has_stage_status job_id stage cs) _ db
      (λ j h. job_moved refl refl refl (Paths.one_step (at_stage job_id stage cj j h).1 ej))
      (λ s h.
        stage_moved refl refl refl refl (omega arith)
          (StagePaths.one_step (stage_status job_id stage cs s h).2 es))

pub pause_for_decision-Evolves :
    (now job_id : ℕ) (text : String) (db : Db)
    → Yields (Evolves db) (pause_for_decision now job_id text db)
unfolding pause_for_decision
pause_for_decision-Evolves now job_id text db = Yields-bind _ _ λ stage _. Yields-bind _ _ λ _ _.
    Yields-bind _ _ λ _ _.
      Yields-ok _ (transition-Evolves now job_id stage _ _ _ _ db Paths.pause StagePaths.pause)

pub resume_from_decision-Evolves :
    (now job_id : ℕ) (text : String) (db : Db)
    → Yields (Evolves db) (resume_from_decision now job_id text db)
unfolding resume_from_decision
resume_from_decision-Evolves now job_id text db = Yields-bind _ _ λ stage _. Yields-bind _ _ λ _ _.
    Yields-bind _ _ λ _ _.
      Yields-ok _ (transition-Evolves now job_id stage _ _ _ _ db Paths.resume StagePaths.resume)

pub interrupt_waiting_decision-Evolves :
    (now job_id : ℕ) (text : String) (db : Db)
    → Yields (Evolves db) (interrupt_waiting_decision now job_id text db)
unfolding interrupt_waiting_decision
interrupt_waiting_decision-Evolves now job_id text db = Yields-bind _ _ λ stage _.
    Yields-bind _ _ λ _ _. Yields-bind _ _ λ _ _. Yields-ok _ (
      update_both-Evolves (is_at_stage job_id stage JobStatus.waiting_decision) _
        (has_stage_status job_id stage StageStatus.waiting_decision) _ db
        (λ j h. job_moved refl refl refl (
          Paths.one_step (at_stage job_id stage JobStatus.waiting_decision j h).1
            Paths.lose_waiting))
        (λ s h. stage_moved refl refl refl refl (omega arith) (
          StagePaths.one_step (stage_status job_id stage StageStatus.waiting_decision s h).2
            StagePaths.fail_waiting)))
