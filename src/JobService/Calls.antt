-- ===== src/JobService/Calls.antt =====
-- PipelineJobService.create_job, cancel_job and retry_job. A call gets the id that `uuid.uuid4()`
-- gives to a new job; one that raises leaves the tables as they were.
use tiktok_b2b_bot_mirror.Prelude.{
  ℕ, String, ◌==◌, nat_eq, string_eq, Bool, true, false, not, Option, none, some, List, [], ◌∷◌,
  contains, map, select, sort_by, Result, ok, raise_if, or_raise, ◌>>=◌, ◌>>◌, if◌then◌else◌, leb,
}
use tiktok_b2b_bot_mirror.States.JobStatus
use tiktok_b2b_bot_mirror.States.JobStatus.{JobStatus, job_status_eq}
use tiktok_b2b_bot_mirror.States.StageStatus
use tiktok_b2b_bot_mirror.States.StageStatus.{StageStatus, stage_status_eq}
use tiktok_b2b_bot_mirror.States.Stage
use tiktok_b2b_bot_mirror.States.Stage.{Stage, stage_eq}
use tiktok_b2b_bot_mirror.JobStore.Rows.{Job, JobStage, Db}
use tiktok_b2b_bot_mirror.JobStore.Create.{JobRequest}
use tiktok_b2b_bot_mirror.JobStore.Create
use tiktok_b2b_bot_mirror.JobStore.Claim.{get_job}
use tiktok_b2b_bot_mirror.JobStore.Cancel.{request_cancel}
use tiktok_b2b_bot_mirror.Acquisition.Rows.{Campaign, Keyword, AcquisitionDb, AcquisitionError}
use tiktok_b2b_bot_mirror.Acquisition.Store.{
  get_campaign, list_keywords, create_campaign, create_keyword,
}
use tiktok_b2b_bot_mirror.JobService.Rows.{
  Account, Availability, Tables, ServiceError, job_not_found, job_not_retryable,
  acquisition_retry_collect_required, from_store, from_acquisition,
}
use tiktok_b2b_bot_mirror.JobService.Preflight.{validate_job_request, preflight_job}

-- `sorted(original.stages, key=lambda stage: stage.stage_order)`
unfoldable pub ordered_stages : ℕ → Db → List JobStage
unfolding sort_by
ordered_stages job_id db =
    sort_by (λ s t. leb s.stage_order t.stage_order) (select (λ s. s.job_id == job_id) db.stages)

-- The rows from the first one on that passes the test.
unfoldable pub from_first : (JobStage → Bool) → List JobStage → Option (List JobStage)
from_first p [] = none
from_first p (s ∷ rest) = if p s then some (s ∷ rest) else from_first p rest

unfoldable pub is_failed_stage : JobStage → Bool
unfolding StageStatus.StageStatus-discrete
is_failed_stage s = s.status == StageStatus.failed

unfoldable pub is_collect_stage : JobStage → Bool
unfolding Stage.Stage-discrete
is_collect_stage s = s.stage == Stage.collect

abbrev pub stage_names : List JobStage → List String
stage_names = map (λ s. Stage.name s.stage)

abbrev pub retryable_statuses : List JobStatus
retryable_statuses = JobStatus.failed ∷ JobStatus.partial_failed ∷ JobStatus.interrupted ∷ []

unfoldable pub is_retryable : JobStatus → Bool
unfolding JobStatus.JobStatus-discrete
is_retryable status = contains status retryable_statuses

-- The stages of the retry of a job without a campaign.
unfoldable pub stages_from_failed : List JobStage → List String
unfolding from_first is_failed_stage Stage.name
stages_from_failed rows = elim (from_first is_failed_stage rows) [
  | none ↦ stage_names rows
  | some rest ↦ stage_names rest
]

-- ... and of one with a campaign.
unfoldable pub stages_from_collect : List JobStage → Result ServiceError (List String)
unfolding from_first is_collect_stage Stage.name
stages_from_collect rows = do
  rest ← or_raise (from_first is_collect_stage rows) acquisition_retry_collect_required
  ok (stage_names rest)

unfoldable pub retry_request : Job → List String → JobRequest
retry_request original stages = record {
  platform = original.platform;
  account_mode = original.account_mode;
  account_id = if original.account_mode == "specified" then original.account_id else none;
  stages = stages;
  trigger_type = "retry";
  schedule_id = none;
  priority = original.priority;
  config_snapshot = some original.config_snapshot_json;
  retry_of_job_id = some original.id;
}

module _ (strip lower : String → String) where
  unfoldable pub copy_keywords :
      ℕ → ℕ → List Keyword → AcquisitionDb → Result AcquisitionError (Unit {0} × AcquisitionDb)
  unfolding create_keyword
  copy_keywords now job_id [] db = ok (tt, db)
  copy_keywords now job_id (k ∷ rest) db = do
    (_, db') ← create_keyword strip lower now job_id k.content db
    copy_keywords now job_id rest db'

module _ (strip lower : String → String)
    (providers : String → Option (Account → Availability)) where
  -- `create_args` has the platform as `_validate_job_request` returns it.
  unfoldable pub create_job :
      ℕ → ℕ → Bool → JobRequest → Tables → Result ServiceError (Job × Tables)
  unfolding validate_job_request preflight_job Create.create_job
  create_job id now preflighted r w = do
    platform ← validate_job_request strip lower r.platform r.account_mode r.account_id
    if preflighted
        then ok tt
        else preflight_job strip lower providers platform r.account_mode r.account_id w.accounts
    (job, db) ← from_store (Create.create_job id now (record r { platform = platform }) w.db)
    ok (job, record w { db = db })

  unfoldable pub cancel_job : ℕ → ℕ → Tables → Result ServiceError (Job × Tables)
  unfolding request_cancel
  cancel_job now job_id w = do
    (found, db) ← from_store (request_cancel now job_id w.db)
    job ← or_raise found job_not_found
    ok (job, record w { db = db })

  -- The second half of `retry_job`, for a job with a campaign.
  unfoldable pub retry_acquisition :
      ℕ → ℕ → JobRequest → Campaign → List Keyword → Tables → Result ServiceError (Job × Tables)
  unfolding create_job preflight_job create_campaign copy_keywords
  retry_acquisition id now r campaign keywords w = do
    preflight_job strip lower providers r.platform r.account_mode r.account_id w.accounts
    (retried, w1) ← create_job id now true r w
    (_, a1) ←
        from_acquisition
          (create_campaign strip lower now retried.id campaign.targeting w1.acquisition)
    (_, a2) ← from_acquisition (copy_keywords strip lower now retried.id keywords a1)
    ok (retried, record w1 { acquisition = a2 })

  unfoldable pub retry_job : ℕ → ℕ → ℕ → Tables → Result ServiceError (Job × Tables)
  unfolding get_job is_retryable ordered_stages get_campaign list_keywords stages_from_failed
      stages_from_collect retry_request create_job retry_acquisition
  retry_job id now job_id w = do
    original ← or_raise (get_job job_id w.db) job_not_found
    raise_if (not (is_retryable original.status)) (job_not_retryable original.status)
    let rows = ordered_stages original.id w.db
    elim (get_campaign original.id w.acquisition) [
      | none ↦ create_job id now false (retry_request original (stages_from_failed rows)) w
      | some campaign ↦ (do
        stages ← stages_from_collect rows
        retry_acquisition id now (retry_request original stages) campaign
            (list_keywords original.id w.acquisition) w)
    ]
