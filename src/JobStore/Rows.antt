-- ===== src/JobStore/Rows.antt =====
-- models/entities.py: the rows of pipeline_jobs, pipeline_job_stages and
-- pipeline_decision_checkpoints. Ids are numbers that are compared only, times are numbers, and a
-- JSON column is its text.
use tiktok_b2b_bot_mirror.Prelude.{
  ℕ, String, Comparable, from_discrete, Option, List, Result, map_err,
}
use tiktok_b2b_bot_mirror.States.JobStatus
use tiktok_b2b_bot_mirror.States.JobStatus.{JobStatus}
use tiktok_b2b_bot_mirror.States.StageStatus
use tiktok_b2b_bot_mirror.States.StageStatus.{StageStatus}
use tiktok_b2b_bot_mirror.States.Stage
use tiktok_b2b_bot_mirror.States.Stage.{Stage}

pub record Job : Type 0 where
  pub id : ℕ
  pub trigger_type : String
  pub schedule_id : Option ℕ
  pub platform : String
  pub account_mode : String
  pub account_id : Option ℕ
  pub stages_json : List Stage
  pub config_snapshot_json : String
  pub status : JobStatus
  pub current_stage : Option Stage  -- the empty text is `none`
  pub priority : ℕ
  pub retry_of_job_id : Option ℕ
  pub error_summary : String
  pub queued_at : ℕ
  pub started_at : Option ℕ
  pub finished_at : Option ℕ
  pub created_at : ℕ
  pub updated_at : ℕ

pub record JobStage : Type 0 where
  pub id : ℕ
  pub job_id : ℕ
  pub stage : Stage
  pub stage_order : ℕ
  pub status : StageStatus
  pub attempt : ℕ
  pub result_json : String
  pub error_message : String
  pub started_at : Option ℕ
  pub finished_at : Option ℕ

pub data CheckpointStatus : Type 0 where
  pending resolved expired cancelled : CheckpointStatus

unfoldable pub CheckpointStatus-discrete : Discrete CheckpointStatus
CheckpointStatus-discrete = hlevel

instance abbrev pub checkpoint_status_eq : Comparable CheckpointStatus
unfolding CheckpointStatus-discrete
checkpoint_status_eq = from_discrete CheckpointStatus-discrete

pub data ResolutionSource : Type 0 where
  human timeout system : ResolutionSource

pub record Checkpoint : Type 0 where
  pub id : ℕ
  pub job_id : ℕ
  pub stage : String
  pub kind : String
  pub version : ℕ
  pub option_keys_json : List String
  pub default_option_key : String
  pub context_json : String
  pub status : CheckpointStatus
  pub deadline_at : ℕ
  pub resolved_at : Option ℕ
  pub resolution_key : Option String
  pub resolution_source : Option ResolutionSource
  pub operator : String
  pub reason : String
  pub created_at : ℕ
  pub updated_at : ℕ

pub record Db : Type 0 where
  pub jobs : List Job
  pub stages : List JobStage
  pub checkpoints : List Checkpoint
  pub next_stage_id : ℕ

pub data StoreError : Type 0 where
  no_stages duplicate_stages : StoreError
  unknown_stages : List String → StoreError
  integrity : ℕ → StoreError
  job_state : JobStatus.StateError → StoreError
  stage_state : StageStatus.StateError → StoreError
  stage_name : Stage.StageError → StoreError
  use_pause_for_decision use_resume_from_decision : StoreError
  unsupported_fields : List String → StoreError
  finish_not_terminal : String → StoreError

-- The validators of the states, with their exceptions among the store's.
abbrev pub job_check : {A : Type 0} → Result JobStatus.StateError A → Result StoreError A
job_check = map_err job_state

abbrev pub stage_check : {A : Type 0} → Result StageStatus.StateError A → Result StoreError A
stage_check = map_err stage_state

abbrev pub name_check : {A : Type 0} → Result Stage.StageError A → Result StoreError A
name_check = map_err stage_name
