-- ===== src/JobService/Tests.antt =====
-- The theorems on the job service at concrete requests.
use tiktok_b2b_bot_mirror.Prelude.{
  ℕ, String, ◌==◌, string_eq, true, false, Option, none, some, List, [], ◌∷◌, ◌≡◌, refl, ◌↔◌, ok,
  err, ◌>>=◌, if◌then◌else◌, sort_by, committed,
}
use tiktok_b2b_bot_mirror.States.JobStatus.{JobStatus}
use tiktok_b2b_bot_mirror.States.StageStatus.{StageStatus}
use tiktok_b2b_bot_mirror.States.Stage
use tiktok_b2b_bot_mirror.States.Stage.{Stage}
use tiktok_b2b_bot_mirror.JobStore.Rows.{Job, JobStage, Db}
use tiktok_b2b_bot_mirror.JobStore.Create.{JobRequest, new_job}
use tiktok_b2b_bot_mirror.Acquisition.Rows.{AcquisitionDb, Campaign, Keyword}
use tiktok_b2b_bot_mirror.JobService.Rows.{Account, Availability, Tables, unavailable}
use tiktok_b2b_bot_mirror.JobService.Preflight.{
  validate_job_request, preflight_job, check_accounts, fingerprint_failure,
}
use tiktok_b2b_bot_mirror.JobService.Calls.{ordered_stages, create_job, retry_job, retry_request}
use tiktok_b2b_bot_mirror.JobService.Validated.{IsMode, IsSupported, validate_iff}
use tiktok_b2b_bot_mirror.JobService.Preflighted.{IsReady, preflight_iff}
use tiktok_b2b_bot_mirror.JobService.Ordered.{IsStageList}
use tiktok_b2b_bot_mirror.JobService.Created.{Created}
use tiktok_b2b_bot_mirror.JobService.Retried.{Retried, Resumes, retry-Resumes}

abbrev same_text : String → String
same_text s = s

abbrev sample_account : ℕ → String → Account
sample_account id platform = record {
  id = id;
  platform = platform;
  status = "logged_in";
  last_login_at = none;
  browser_provider = "";
  browser_profile_id = "";
}

abbrev all_available : Account → Availability
all_available a = record { available = true; code = ""; message = "" }

abbrev douyin_only : String → Option (Account → Availability)
douyin_only name = if name == "douyin" then some all_available else none

abbrev two_accounts : List Account
two_accounts = sample_account 1 "tiktok" ∷ sample_account 2 "douyin" ∷ []

abbrev failed_job : Job
failed_job = record {
  id = 3;
  trigger_type = "manual";
  schedule_id = none;
  platform = "douyin";
  account_mode = "specified";
  account_id = some 2;
  stages_json = Stage.collect ∷ Stage.filter ∷ Stage.report ∷ [];
  config_snapshot_json = "{\"target\": 5}";
  status = JobStatus.failed;
  current_stage = none;
  priority = 50;
  retry_of_job_id = none;
  error_summary = "stopped";
  queued_at = 1;
  started_at = some 2;
  finished_at = some 4;
  created_at = 1;
  updated_at = 4;
}

abbrev sample_stage : ℕ → Stage → ℕ → StageStatus → JobStage
sample_stage id stage order status = record {
  id = id;
  job_id = 3;
  stage = stage;
  stage_order = order;
  status = status;
  attempt = 1;
  result_json = "{}";
  error_message = "";
  started_at = none;
  finished_at = none;
}

-- The job failed in its second stage.
abbrev failed_db : Db
failed_db = record {
  jobs = failed_job ∷ [];
  stages =
      sample_stage 2 Stage.filter 1 StageStatus.failed
      ∷ sample_stage 1 Stage.collect 0 StageStatus.succeeded
      ∷ sample_stage 3 Stage.report 2 StageStatus.skipped
      ∷ [];
  checkpoints = [];
  next_stage_id = 4;
}

abbrev no_acquisition : AcquisitionDb
no_acquisition = record { campaigns = []; keywords = []; next_campaign_id = 1; next_keyword_id = 1 }

abbrev tables : Tables
tables = record { db = failed_db; accounts = two_accounts; acquisition = no_acquisition }

validate_iff_example :
    (validate_job_request same_text same_text "douyin" "specified" (some 2) ≡ ok "douyin")
    ↔ (◌≡◌ {A = String} "douyin" "douyin") × IsSupported "douyin" × IsMode "specified" (some 2)
validate_iff_example = validate_iff same_text same_text "douyin" "specified" (some 2) "douyin"

abbrev every_platform : String → Option (Account → Availability)
every_platform name = some all_available

-- The first account has no profile, the second has half of one; the third is equipped.
abbrev tiktok_accounts : List Account
tiktok_accounts =
    sample_account 1 "tiktok"
    ∷ record (sample_account 2 "tiktok") { browser_provider = "bit" }
    ∷ record (sample_account 3 "tiktok") { browser_provider = "bit"; browser_profile_id = "p3" }
    ∷ []

preflight-refuses :
    preflight_job same_text same_text every_platform "tiktok" "specified" (some 2) tiktok_accounts
    ≡ err (unavailable fingerprint_failure)
unfolding preflight_job ◌>>=◌ check_accounts
preflight-refuses = refl

preflight-finds :
    preflight_job same_text same_text every_platform "tiktok" "auto" none tiktok_accounts ≡ ok tt
unfolding preflight_job ◌>>=◌ check_accounts sort_by
preflight-finds = refl

preflight_iff_example :
    (preflight_job same_text same_text every_platform "tiktok" "auto" none tiktok_accounts ≡ ok tt)
    ↔ IsReady same_text same_text every_platform "tiktok" "auto" none tiktok_accounts
preflight_iff_example =
    preflight_iff same_text same_text every_platform "tiktok" "auto" none tiktok_accounts

abbrev manual_request : JobRequest
manual_request = record {
  platform = "douyin";
  account_mode = "auto";
  account_id = none;
  stages = "collect" ∷ "report" ∷ [];
  trigger_type = "manual";
  schedule_id = none;
  priority = 100;
  config_snapshot = none;
  retry_of_job_id = none;
}

abbrev tables_of : Db → Tables
tables_of db = record tables { db = db }

abbrev after_create : Tables
after_create =
    committed tables (create_job same_text same_text douyin_only 7 9 false manual_request tables)

abbrev after_retry : Tables
after_retry = committed tables (retry_job same_text same_text douyin_only 8 9 3 tables)

abbrev resumed : Job
resumed = new_job 8 9 (retry_request failed_job ("filter" ∷ "report" ∷ []))

retry-Resumes_example :
    (original : Job) × (stages : List String) × Retried same_text same_text douyin_only 8 9 3 false
      stages tables after_retry original resumed
    × IsStageList original.id failed_db (ordered_stages original.id failed_db)
    × Resumes (ordered_stages original.id failed_db) stages
unfolding retry_job ◌>>=◌ new_job Stage.parse retry_request sort_by Stage.name
retry-Resumes_example =
    retry-Resumes same_text same_text douyin_only 8 9 3 tables after_retry resumed
      (λ original e. refl) refl

abbrev sample_campaign : Campaign
sample_campaign = record {
  id = 1;
  job_id = 3;
  targeting = record {
    platform = "douyin";
    countries = "fr" ∷ [];
    languages = [];
    industries = "tools" ∷ [];
    products = [];
    customer_roles = [];
    hard_conditions = "{}";
    preference_conditions = "{}";
    excluded_targets = [];
    search_budget = "{}";
    keyword_mix = "{}";
  };
  created_at = 1;
}

abbrev sample_keyword : Keyword
sample_keyword = record {
  id = 1;
  job_id = 3;
  content = record {
    platform = "douyin";
    text = "drills";
    language = "fr";
    keyword_type = "industry";
    source = "manual";
    status = "new";
  };
  created_at = 1;
}

abbrev acquisition_tables : Tables
acquisition_tables = record tables {
  acquisition = record {
    campaigns = sample_campaign ∷ [];
    keywords = sample_keyword ∷ [];
    next_campaign_id = 2;
    next_keyword_id = 2;
  };
}

abbrev after_copy : Tables
after_copy =
    committed acquisition_tables
      (retry_job same_text same_text douyin_only 8 9 3 acquisition_tables)

abbrev collected : Job
collected = new_job 8 9 (retry_request failed_job ("collect" ∷ "filter" ∷ "report" ∷ []))
