-- ===== src/Decision/Tests.antt =====
-- The theorems on decisions at concrete checkpoints.
use tiktok_b2b_bot_mirror.Prelude.{
  ℕ, String, string_eq, true, false, none, some, List, [], ◌∷◌, Memᴰ, ◌≡◌, refl, ok, ◌>>=◌, arith,
}
use tiktok_b2b_bot_mirror.States.JobStatus
use tiktok_b2b_bot_mirror.States.JobStatus.{JobStatus}
use tiktok_b2b_bot_mirror.States.StageStatus
use tiktok_b2b_bot_mirror.States.StageStatus.{StageStatus}
use tiktok_b2b_bot_mirror.States.Stage
use tiktok_b2b_bot_mirror.States.Stage.{Stage}
use tiktok_b2b_bot_mirror.JobStore.Rows.{
  Job, JobStage, Checkpoint, CheckpointStatus, ResolutionSource, Db,
}
use tiktok_b2b_bot_mirror.Decision.Texts.{Texts}
use tiktok_b2b_bot_mirror.Decision.Checkpoints.{Answer, is_pending, resolve_checkpoint}
use tiktok_b2b_bot_mirror.Decision.Definitions.{CheckpointDefinition, define, option_subset}
use tiktok_b2b_bot_mirror.Decision.Gate.{Resolution, resolve, resolution_of, resolve_once}
use tiktok_b2b_bot_mirror.Decision.Calls.{GateCall, serve_all}
use tiktok_b2b_bot_mirror.Decision.History.{settled_stays}
use tiktok_b2b_bot_mirror.Decision.Human.{Accepted, resolve-Accepted}
use tiktok_b2b_bot_mirror.Decision.Options.{IsChoice, option_subset-IsChoice}
use tiktok_b2b_bot_mirror.Decision.Deadline.{
  IsPlain, IsWaitingAt, timeout_resolution, poll_times_out,
}
use tiktok_b2b_bot_mirror.Decision.Gate.{poll}
use tiktok_b2b_bot_mirror.JobStore.Decisions.{is_at_stage, has_stage_status}
use tiktok_b2b_bot_mirror.Decision.Checkpoints.{get_checkpoint, version_in_range}
use tiktok_b2b_bot_mirror.Decision.Texts.{validate_text}

abbrev plain_texts : Texts
plain_texts = record {
  strip = λ s. s;
  lower = λ s. s;
  size = λ s. 0;
  is_option_key = λ s. true;
  is_code = λ s. true;
  is_sensitive = λ s. false;
  safe_context = λ s. some s;
  validate_context = λ s. some s;
}

abbrev waiting_job : Job
waiting_job = record {
  id = 3;
  trigger_type = "manual";
  schedule_id = none;
  platform = "douyin";
  account_mode = "auto";
  account_id = none;
  stages_json = Stage.filter ∷ [];
  config_snapshot_json = "{}";
  status = JobStatus.waiting_decision;
  current_stage = some Stage.filter;
  priority = 50;
  retry_of_job_id = none;
  error_summary = "";
  queued_at = 1;
  started_at = some 2;
  finished_at = none;
  created_at = 1;
  updated_at = 4;
}

abbrev waiting_stage : JobStage
waiting_stage = record {
  id = 1;
  job_id = 3;
  stage = Stage.filter;
  stage_order = 0;
  status = StageStatus.waiting_decision;
  attempt = 1;
  result_json = "{}";
  error_message = "";
  started_at = some 2;
  finished_at = none;
}

abbrev sample_checkpoint : ℕ → CheckpointStatus → Checkpoint
sample_checkpoint id status = record {
  id = id;
  job_id = 3;
  stage = "filter";
  kind = "account_blocked";
  version = 1;
  option_keys_json = "skip_stage" ∷ "stop_job" ∷ [];
  default_option_key = "skip_stage";
  context_json = "{}";
  status = status;
  deadline_at = 20;
  resolved_at = none;
  resolution_key = none;
  resolution_source = none;
  operator = "";
  reason = "";
  created_at = 10;
  updated_at = 10;
}

abbrev waiting_db : Db
waiting_db = record {
  jobs = waiting_job ∷ [];
  stages = waiting_stage ∷ [];
  checkpoints =
      sample_checkpoint 1 CheckpointStatus.expired
      ∷ sample_checkpoint 2 CheckpointStatus.pending
      ∷ [];
  next_stage_id = 2;
}

abbrev stop_answer : Answer
stop_answer = record {
  option_key = "stop_job";
  version = 1;
  source = "";
  operator = "ann";
  reason = "";
}

settled_stays_example :
    Memᴰ
      (sample_checkpoint 1 CheckpointStatus.expired)
      (serve_all plain_texts
        (GateCall.answers 15 3 2 stop_answer ∷ GateCall.cancels 16 3 ∷ [])
        waiting_db).checkpoints
unfolding is_pending
settled_stays_example =
    settled_stays plain_texts (GateCall.answers 15 3 2 stop_answer ∷ GateCall.cancels 16 3 ∷ [])
      waiting_db (sample_checkpoint 1 CheckpointStatus.expired) (Memᴰ.head refl) refl

abbrev stopped : Resolution
stopped = record {
  checkpoint_id = 2;
  job_id = 3;
  stage = "filter";
  kind = "account_blocked";
  option_key = some "stop_job";
  source = ResolutionSource.human;
  status = CheckpointStatus.resolved;
  resolved_at = some 15;
  deadline_at = some 20;
}

resolve-Accepted_example :
    Accepted plain_texts 15 3 2 stop_answer stopped waiting_db
      (resolve plain_texts 15 3 2 stop_answer waiting_db).1
    × (ResolutionSource.human ≡ ResolutionSource.human)
    × (CheckpointStatus.resolved ≡ CheckpointStatus.resolved)
    × (stopped.option_key ≡ some "stop_job")
unfolding resolve ◌>>=◌ resolve_once resolve_checkpoint resolution_of Stage.validate_pipeline_stage
    JobStatus.validate_known_transition StageStatus.validate_known_transition
resolve-Accepted_example =
    resolve-Accepted plain_texts 15 3 2 stop_answer waiting_db stopped refl refl

abbrev blocked : CheckpointDefinition
blocked =
    define "account_blocked" ("open_account_recovery" ∷ "skip_stage" ∷ "stop_job" ∷ []) "skip_stage"

option_subset-IsChoice_example :
    IsChoice blocked ("skip_stage" ∷ "stop_job" ∷ []) "skip_stage"
    × (◌≡◌ {A = List String} ("skip_stage" ∷ "stop_job" ∷ []) ("skip_stage" ∷ "stop_job" ∷ []))
    × (◌≡◌ {A = String} "skip_stage" "skip_stage")
unfolding option_subset ◌>>=◌
option_subset-IsChoice_example =
    option_subset-IsChoice blocked (some ("skip_stage" ∷ "stop_job" ∷ [])) none
      ("skip_stage" ∷ "stop_job" ∷ []) "skip_stage" refl

plain_texts-IsPlain : IsPlain plain_texts
unfolding validate_text ◌>>=◌
plain_texts-IsPlain = record { timeout = refl; operator = refl; reason = refl; short = refl }

at_filter : IsWaitingAt 3 Stage.filter waiting_db
unfolding is_at_stage has_stage_status
at_filter = record {
  job = waiting_job;
  row = waiting_stage;
  job_there = Memᴰ.head refl;
  row_there = Memᴰ.head refl;
  job_waits = refl;
  row_waits = refl;
}

abbrev skipped : Resolution
skipped =
    timeout_resolution plain_texts plain_texts-IsPlain 25 "skip_stage"
      (sample_checkpoint 2 CheckpointStatus.pending)

poll_times_out_example :
    (poll plain_texts 25 3 2 blocked "skip_stage" 1 waiting_db).0 ≡ ok (some skipped)
unfolding get_checkpoint is_pending version_in_range Stage.name
poll_times_out_example =
    poll_times_out plain_texts plain_texts-IsPlain 25 3 2 blocked "skip_stage" Stage.filter
      (sample_checkpoint 2 CheckpointStatus.pending) waiting_db refl refl refl refl refl at_filter
      refl (omega arith)
