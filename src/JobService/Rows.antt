-- ===== src/JobService/Rows.antt =====
-- What the service works on: the tables of one database, the account rows as far as it reads them,
-- and its errors with the codes of `PipelineJobError`.
use tiktok_b2b_bot_mirror.Prelude.{ℕ, String, Bool, Option, List, Result, map_err}
use tiktok_b2b_bot_mirror.States.JobStatus.{JobStatus}
use tiktok_b2b_bot_mirror.JobStore.Rows.{Db, StoreError}
use tiktok_b2b_bot_mirror.Acquisition.Rows.{AcquisitionDb, AcquisitionError}

-- TikTokAccount
pub record Account : Type 0 where
  pub id : ℕ
  pub platform : String
  pub status : String
  pub last_login_at : Option ℕ
  pub browser_provider : String
  pub browser_profile_id : String

-- BrowserAvailability
pub record Availability : Type 0 where
  pub available : Bool
  pub code : String
  pub message : String

pub record Failure : Type 0 where
  pub code : String
  pub message : String

pub data ServiceError : Type 0 where
  invalid_platform invalid_account_mode unknown_provider no_available_account :
      String → ServiceError
  account_required auto_account_id_forbidden : ServiceError
  account_not_found platform_account_mismatch account_not_logged_in : ServiceError
  unavailable : Failure → ServiceError
  job_not_found acquisition_retry_collect_required : ServiceError
  job_not_retryable : JobStatus → ServiceError
  in_store : StoreError → ServiceError
  in_acquisition : AcquisitionError → ServiceError

pub record Tables : Type 0 where
  pub db : Db
  pub accounts : List Account
  pub acquisition : AcquisitionDb

abbrev pub from_store : {A : Type 0} → Result StoreError A → Result ServiceError A
from_store = map_err in_store

abbrev pub from_acquisition : {A : Type 0} → Result AcquisitionError A → Result ServiceError A
from_acquisition = map_err in_acquisition
