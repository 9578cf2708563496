-- ===== src/JobStore/Create.antt =====
-- PipelineJobStore.create_job. The new id is what `uuid.uuid4()` gives; the primary key refuses one
-- that is taken.
use tiktok_b2b_bot_mirror.Prelude.{
  ℕ, ◌+◌, String, ◌==◌, nat_eq, string_eq, Bool, true, false, Option, none, some, List, [], ◌∷◌,
  ◌++◌, not, contains, exists_row, Result, ok, raise_if, ◌>>◌, if◌then◌else◌, length,
}
use tiktok_b2b_bot_mirror.States.JobStatus
use tiktok_b2b_bot_mirror.States.StageStatus
use tiktok_b2b_bot_mirror.States.Stage
use tiktok_b2b_bot_mirror.States.Stage.{Stage}
use tiktok_b2b_bot_mirror.JobStore.Rows.{
  Job, JobStage, Db, StoreError, no_stages, duplicate_stages, unknown_stages, integrity,
}

-- The keyword arguments.
pub record JobRequest : Type 0 where
  pub platform : String
  pub account_mode : String
  pub account_id : Option ℕ
  pub stages : List String
  pub trigger_type : String
  pub schedule_id : Option ℕ
  pub priority : ℕ
  pub config_snapshot : Option String
  pub retry_of_job_id : Option ℕ

abbrev pub is_empty {ℓ} : {A : Type ℓ} → List A → Bool
is_empty [] = true
is_empty (_ ∷ _) = false

-- `len(set(stages)) != len(stages)`
unfoldable pub has_duplicates : List String → Bool
has_duplicates [] = false
has_duplicates (x ∷ xs) = if contains x xs then true else has_duplicates xs

-- `set(stages) - KNOWN_PIPELINE_STAGES`
unfoldable pub unknown_of : List String → List String
unknown_of [] = []
unknown_of (x ∷ xs) = elim (Stage.parse x) [ none ↦ x ∷ unknown_of xs | some _ ↦ unknown_of xs ]

unfoldable pub known_of : List String → List Stage
known_of [] = []
known_of (x ∷ xs) = elim (Stage.parse x) [ none ↦ known_of xs | some s ↦ s ∷ known_of xs ]

-- One pending row for each stage, numbered in order.
unfoldable pub stage_rows : ℕ → ℕ → ℕ → List Stage → List JobStage
stage_rows id job_id order [] = []
stage_rows id job_id order (s ∷ rest) =
    record {
      id = id;
      job_id = job_id;
      stage = s;
      stage_order = order;
      status = StageStatus.pending;
      attempt = 0;
      result_json = "{}";
      error_message = "";
      started_at = none;
      finished_at = none;
    }
    ∷ stage_rows (id + 1) job_id (order + 1) rest

unfoldable pub new_job : ℕ → ℕ → JobRequest → Job
unfolding known_of
new_job id now r = record {
  id = id;
  trigger_type = r.trigger_type;
  schedule_id = r.schedule_id;
  platform = r.platform;
  account_mode = r.account_mode;
  account_id = r.account_id;
  stages_json = known_of r.stages;
  config_snapshot_json = elim r.config_snapshot [ none ↦ "{}" | some text ↦ text ];
  status = JobStatus.queued;
  current_stage = none;
  priority = r.priority;
  retry_of_job_id = r.retry_of_job_id;
  error_summary = "";
  queued_at = now;
  started_at = none;
  finished_at = none;
  created_at = now;
  updated_at = now;
}

unfoldable pub create_job : ℕ → ℕ → JobRequest → Db → Result StoreError (Job × Db)
unfolding has_duplicates unknown_of stage_rows new_job
create_job id now r db = do
  raise_if (is_empty r.stages) no_stages
  raise_if (has_duplicates r.stages) duplicate_stages
  raise_if (not (is_empty (unknown_of r.stages))) (unknown_stages (unknown_of r.stages))
  raise_if (exists_row (λ j. j.id == id) db.jobs) (integrity id)
  let job = new_job id now r
  let rows = stage_rows db.next_stage_id id 0 job.stages_json
  ok (
    job,
    record db {
      jobs = db.jobs ++ job ∷ [];
      stages = db.stages ++ rows;
      next_stage_id = db.next_stage_id + length rows;
    },
  )
