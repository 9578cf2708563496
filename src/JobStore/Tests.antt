-- ===== src/JobStore/Tests.antt =====
-- The theorems on the job store at concrete jobs.
use tiktok_b2b_bot_mirror.Prelude.{
  ◌⊎◌, true, ℕ, ◌≡◌, ◌≢◌, refl, sym, ap, ◌∙◌, inl, inr, false, none, some, List, [], ◌∷◌, Memᴰ,
  mem_cases, ok, ◌>>=◌, arith, map,
}
use tiktok_b2b_bot_mirror.States.JobStatus
use tiktok_b2b_bot_mirror.States.JobStatus.{JobStatus}
use tiktok_b2b_bot_mirror.States.StageStatus
use tiktok_b2b_bot_mirror.States.StageStatus.{StageStatus}
use tiktok_b2b_bot_mirror.States.Stage
use tiktok_b2b_bot_mirror.States.Stage.{Stage}
use tiktok_b2b_bot_mirror.States.StagePaths.{IsClosed}
use tiktok_b2b_bot_mirror.States.StagePaths
use tiktok_b2b_bot_mirror.JobStore.Rows.{Job, JobStage, Db}
use tiktok_b2b_bot_mirror.JobStore.Create.{JobRequest}
use tiktok_b2b_bot_mirror.JobStore.Claim.{claim_next_job}
use tiktok_b2b_bot_mirror.JobStore.Recover.{recover_interrupted}
use tiktok_b2b_bot_mirror.JobStore.Losses.{IsAtWork, Recovered}
use tiktok_b2b_bot_mirror.JobStore.Status.{set_job_status}
use tiktok_b2b_bot_mirror.JobStore.Cancel.{request_cancel}
use tiktok_b2b_bot_mirror.JobStore.Stages.{start_stage}
use tiktok_b2b_bot_mirror.JobStore.Decisions.{pause_for_decision}
use tiktok_b2b_bot_mirror.JobStore.Moves.{Evolves}
use tiktok_b2b_bot_mirror.JobStore.Session.{Call, run}
use tiktok_b2b_bot_mirror.JobStore.Lifecycle.{run-Evolves, run_terminal, run_closed}
use tiktok_b2b_bot_mirror.JobStore.Selection.{
  HasUniqueIds, IsReady, Precedes, claim_next_first, claim_next_none,
}
use tiktok_b2b_bot_mirror.JobStore.Pauses.{Paused, pause_all_or_nothing}
use tiktok_b2b_bot_mirror.JobStore.Gates.{IsCoherent}
use tiktok_b2b_bot_mirror.JobStore.Coherent.{run-IsCoherent}
use tiktok_b2b_bot_mirror.JobStore.Recovery.{recovery_settles}

abbrev sample_job : ℕ → ℕ → JobStatus → Job
sample_job id priority status = record {
  id = id;
  trigger_type = "manual";
  schedule_id = none;
  platform = "tiktok";
  account_mode = "auto";
  account_id = none;
  stages_json = Stage.collect ∷ Stage.filter ∷ [];
  config_snapshot_json = "{}";
  status = status;
  current_stage = none;
  priority = priority;
  retry_of_job_id = none;
  error_summary = "";
  queued_at = 3;
  started_at = none;
  finished_at = none;
  created_at = 3;
  updated_at = 3;
}

abbrev sample_stage : ℕ → ℕ → StageStatus → JobStage
sample_stage id job_id status = record {
  id = id;
  job_id = job_id;
  stage = Stage.collect;
  stage_order = 0;
  status = status;
  attempt = 1;
  result_json = "{}";
  error_message = "";
  started_at = none;
  finished_at = none;
}

abbrev empty_db : Db
empty_db = record { jobs = []; stages = []; checkpoints = []; next_stage_id = 1 }

-- A queued job, a running one and a finished one.
abbrev busy_db : Db
busy_db = record {
  jobs =
      sample_job 1 50 JobStatus.queued
      ∷ sample_job 2 10 JobStatus.running
      ∷ sample_job 3 50 JobStatus.succeeded
      ∷ [];
  stages =
      sample_stage 1 1 StageStatus.pending
      ∷ sample_stage 2 2 StageStatus.running
      ∷ sample_stage 3 3 StageStatus.succeeded
      ∷ [];
  checkpoints = [];
  next_stage_id = 4;
}

abbrev two_queued : Db
two_queued = record {
  jobs = sample_job 1 50 JobStatus.queued ∷ sample_job 2 10 JobStatus.queued ∷ [];
  stages = sample_stage 1 1 StageStatus.pending ∷ sample_stage 2 2 StageStatus.pending ∷ [];
  checkpoints = [];
  next_stage_id = 3;
}

abbrev calls : List Call
calls =
    Call.claim_next 5 ("tiktok" ∷ [])
    ∷ Call.start 6 1 "collect"
    ∷ Call.pause 7 1 "collect"
    ∷ Call.cancel 8 1
    ∷ Call.set_status 9 2 "succeeded" (some ("running" ∷ [])) []
    ∷ Call.recover 10
    ∷ []

abbrev request : JobRequest
request = record {
  platform = "tiktok";
  account_mode = "auto";
  account_id = none;
  stages = "collect" ∷ "outreach" ∷ [];
  trigger_type = "manual";
  schedule_id = none;
  priority = 100;
  config_snapshot = none;
  retry_of_job_id = none;
}

calls-run :
    map (λ (j : Job). j.status) (run calls busy_db).jobs
    ≡ JobStatus.cancelled ∷ JobStatus.succeeded ∷ JobStatus.succeeded ∷ []
unfolding run ◌>>=◌ recover_interrupted StageStatus.validate_known_transition
    JobStatus.validate_known_transition set_job_status JobStatus.validate_job_status request_cancel
    pause_for_decision Stage.validate_pipeline_stage start_stage claim_next_job
calls-run = refl

run-Evolves_example : Evolves busy_db (run calls busy_db)
run-Evolves_example = run-Evolves calls busy_db

run_terminal_example :
    (k : Job) × Memᴰ k (run calls busy_db).jobs × (k.id ≡ 3) × (k.status ≡ JobStatus.succeeded)
unfolding JobStatus.is_terminal
run_terminal_example =
    run_terminal calls busy_db (sample_job 3 50 JobStatus.succeeded)
      (Memᴰ.tail (Memᴰ.tail (Memᴰ.head refl))) refl

run_closed_example :
    (t : JobStage) × Memᴰ t (run calls busy_db).stages
    × (t.job_id ≡ 3)
    × (t.stage ≡ Stage.collect)
    × (t.status ≡ StageStatus.succeeded)
run_closed_example =
    run_closed calls busy_db (sample_stage 3 3 StageStatus.succeeded)
      (Memᴰ.tail (Memᴰ.tail (Memᴰ.head refl))) StagePaths.done

busy-IsCoherent : IsCoherent busy_db
busy-IsCoherent = record {
  gate = λ s m w. elim (mem_cases m) [
    | inl e ↦ absurd (cc)
    | inr m2 ↦ elim (mem_cases m2) [
      | inl e ↦ absurd (cc)
      | inr m3 ↦ elim (mem_cases m3) [ inl e ↦ absurd (cc) | inr m4 ↦ elim m4 [ ] ]
    ]
  ];
}

run-IsCoherent_example : IsCoherent (run calls busy_db)
run-IsCoherent_example =
    run-IsCoherent calls busy_db (tt, (tt, (tt, (tt, (refl, (tt, tt)))))) busy-IsCoherent

unique_ids : (a b : Job) → a.id ≢ b.id → HasUniqueIds (a ∷ b ∷ [])
unique_ids a b apart j k (Memᴰ.head e) (Memᴰ.head e') same = e ∙ sym e'
unique_ids a b apart j k (Memᴰ.head e) (Memᴰ.tail (Memᴰ.head e')) same =
    absurd (apart (sym (ap (λ x. x.id) e) ∙ same ∙ ap (λ x. x.id) e'))
unique_ids a b apart j k (Memᴰ.tail (Memᴰ.head e)) (Memᴰ.head e') same =
    absurd (apart (sym (ap (λ x. x.id) e') ∙ sym same ∙ ap (λ x. x.id) e))
unique_ids a b apart j k (Memᴰ.tail (Memᴰ.head e)) (Memᴰ.tail (Memᴰ.head e')) same = e ∙ sym e'
unique_ids a b apart j k (Memᴰ.head e) (Memᴰ.tail (Memᴰ.tail m)) same = elim m [ ]
unique_ids a b apart j k (Memᴰ.tail (Memᴰ.head e)) (Memᴰ.tail (Memᴰ.tail m)) same = elim m [ ]
unique_ids a b apart j k (Memᴰ.tail (Memᴰ.tail m)) n same = elim m [ ]

abbrev second : Job
second = sample_job 2 10 JobStatus.queued

abbrev second_claimed : Job
second_claimed = record second { status = JobStatus.running; started_at = some 5; updated_at = 5 }

claim_next_first_example :
    (c : Job) × Memᴰ c two_queued.jobs
    × IsReady ("tiktok" ∷ []) c
    × ((k : Job) → Memᴰ k two_queued.jobs → IsReady ("tiktok" ∷ []) k → Precedes c k)
    × (second_claimed
        ≡ record c { status = JobStatus.running; started_at = some 5; updated_at = 5 })
unfolding claim_next_job ◌>>=◌ JobStatus.validate_known_transition
claim_next_first_example =
    claim_next_first 5 ("tiktok" ∷ []) two_queued
      (record two_queued { jobs = sample_job 1 50 JobStatus.queued ∷ second_claimed ∷ [] })
      second_claimed (unique_ids (sample_job 1 50 JobStatus.queued) second λ e. omega arith) refl

claim_next_none_example :
    (two_queued ≡ two_queued)
    × ((k : Job) → Memᴰ k two_queued.jobs → ¬ (IsReady ("instagram" ∷ []) k))
unfolding claim_next_job ◌>>=◌ JobStatus.validate_known_transition
claim_next_none_example = claim_next_none 5 ("instagram" ∷ []) two_queued two_queued refl

-- A job in each status that the recovery interrupts, and one that has ended.
abbrev stopped_db : Db
stopped_db = record busy_db {
  jobs =
      sample_job 1 10 JobStatus.cancelling
      ∷ sample_job 2 10 JobStatus.succeeded
      ∷ sample_job 3 10 JobStatus.waiting_decision
      ∷ sample_job 4 10 JobStatus.running
      ∷ [];
  stages =
      sample_stage 1 2 StageStatus.running
      ∷ sample_stage 2 3 StageStatus.waiting_decision
      ∷ sample_stage 3 4 StageStatus.pending
      ∷ [];
}

recover-run :
    (map (λ (j : Job). j.status) (run (Call.recover 5 ∷ []) stopped_db).jobs
      ≡ JobStatus.interrupted ∷ JobStatus.succeeded ∷ JobStatus.interrupted ∷ JobStatus.interrupted
        ∷ [])
    × (map (λ (s : JobStage). s.status) (run (Call.recover 5 ∷ []) stopped_db).stages
        ≡ StageStatus.running ∷ StageStatus.failed ∷ StageStatus.pending ∷ [])
unfolding run ◌>>=◌ recover_interrupted StageStatus.validate_known_transition
    JobStatus.validate_known_transition
recover-run = (refl, refl)

recovery_settles_example :
    (db' : Db) × (n : ℕ) × (recover_interrupted 5 stopped_db ≡ ok (n, db'))
    × Recovered 5 stopped_db db' n
    × ((j : Job) → Memᴰ j db'.jobs → ¬ (IsAtWork j.status))
    × (recover_interrupted 6 db' ≡ ok (0, db'))
recovery_settles_example = recovery_settles 5 6 stopped_db

abbrev at_collect : JobStatus → StageStatus → ℕ → Db
at_collect status stage_status now = record busy_db {
  jobs =
      record (sample_job 2 10 status) { current_stage = some Stage.collect; updated_at = now } ∷ [];
  stages = sample_stage 2 2 stage_status ∷ [];
}

pause_all_or_nothing_example :
    ((true ≡ false)
      × (at_collect JobStatus.waiting_decision StageStatus.waiting_decision 9
          ≡ at_collect JobStatus.running StageStatus.running 3))
    ⊎ ((true ≡ true)
        × Paused 2 (at_collect JobStatus.waiting_decision StageStatus.waiting_decision 9))
unfolding pause_for_decision ◌>>=◌ JobStatus.validate_known_transition
    StageStatus.validate_known_transition Stage.validate_pipeline_stage
pause_all_or_nothing_example =
    pause_all_or_nothing 9 2 "collect" (at_collect JobStatus.running StageStatus.running 3)
      (at_collect JobStatus.waiting_decision StageStatus.waiting_decision 9) true refl
