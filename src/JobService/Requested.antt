-- ===== src/JobService/Requested.antt =====
-- What the row of a new job says, field by field, beside what was asked for.
use tiktok_b2b_bot_mirror.Prelude.{
  ℕ, String, ◌==◌, string_eq, Bool-cases, Option, none, some, List, map, ◌≡◌, ◌≢◌, refl, sym, ap,
  subst, inl, inr, ok, ok-injective, raise_if-ok, raise_if-not,
}
use tiktok_b2b_bot_mirror.States.JobStatus.{JobStatus}
use tiktok_b2b_bot_mirror.States.Stage
use tiktok_b2b_bot_mirror.JobStore.Rows.{Job, Db}
use tiktok_b2b_bot_mirror.JobStore.Create.{JobRequest, new_job}
use tiktok_b2b_bot_mirror.JobStore.Create
use tiktok_b2b_bot_mirror.JobStore.Requests.{known_names}
use tiktok_b2b_bot_mirror.JobService.Calls.{retry_request}

-- The snapshot that is asked for, or an empty object.
pub data IsConfigured : Option String → String → Type 0 where
  given : (text : String) → IsConfigured (some text) text
  missing : IsConfigured none "{}"

-- A queued job that has not started.
pub record IsWaiting (now : ℕ) (j : Job) : Type 0 where
  pub queued : j.status ≡ JobStatus.queued
  pub unplaced : j.current_stage ≡ none
  pub unstarted : j.started_at ≡ none
  pub unfinished : j.finished_at ≡ none
  pub faultless : j.error_summary ≡ ""
  pub queued_now : j.queued_at ≡ now
  pub created_now : j.created_at ≡ now
  pub updated_now : j.updated_at ≡ now

-- `j` has every value of the request, under the platform's name.
pub record IsAsked (id now : ℕ) (platform : String) (r : JobRequest) (j : Job) : Type 0 where
  pub identified : j.id ≡ id
  pub on_platform : j.platform ≡ platform
  pub in_mode : j.account_mode ≡ r.account_mode
  pub for_account : j.account_id ≡ r.account_id
  pub triggered : j.trigger_type ≡ r.trigger_type
  pub scheduled : j.schedule_id ≡ r.schedule_id
  pub ranked : j.priority ≡ r.priority
  pub repeating : j.retry_of_job_id ≡ r.retry_of_job_id
  pub configured : IsConfigured r.config_snapshot j.config_snapshot_json
  pub staged : map Stage.name j.stages_json ≡ r.stages
  pub waiting : IsWaiting now j

configured : (o : Option String) → IsConfigured o (elim o [ none ↦ "{}" | some text ↦ text ])
configured none = IsConfigured.missing
configured (some text) = IsConfigured.given text

pub create_job-IsAsked :
    (id now : ℕ) (r : JobRequest) (db db' : Db) (j : Job)
    → Create.create_job id now r db ≡ ok (j, db')
    → IsAsked id now r.platform r j
unfolding Create.create_job new_job
create_job-IsAsked id now r db db' j h =
    let (_, h1) = raise_if-ok _ _ _ (j, db') h in
    let (_, h2) = raise_if-ok _ _ _ (j, db') h1 in
    let (known, h3) = raise_if-not _ _ _ (j, db') h2 in
    let (_, h4) = raise_if-ok _ _ _ (j, db') h3 in
    subst (IsAsked id now r.platform r) (ap (λ p. p.0) (ok-injective h4)) (record {
      identified = refl;
      on_platform = refl;
      in_mode = refl;
      for_account = refl;
      triggered = refl;
      scheduled = refl;
      ranked = refl;
      repeating = refl;
      configured = configured r.config_snapshot;
      staged = known_names r.stages known;
      waiting = record {
        queued = refl;
        unplaced = refl;
        unstarted = refl;
        unfinished = refl;
        faultless = refl;
        queued_now = refl;
        created_now = refl;
        updated_now = refl;
      };
    })

-- A specified account is kept; the account of an automatic job is chosen again.
pub data IsKept (mode : String) (account_id : Option ℕ) : Option ℕ → Type 0 where
  chosen : mode ≡ "specified" → IsKept mode account_id account_id
  free : mode ≢ "specified" → IsKept mode account_id none

-- `j` is a job that runs the stages and otherwise asks for what `original` asked for.
pub record IsRetryOf (id now : ℕ) (platform : String) (original : Job) (stages : List String)
    (j : Job) : Type 0 where
  pub identified : j.id ≡ id
  pub on_platform : j.platform ≡ platform
  pub in_mode : j.account_mode ≡ original.account_mode
  pub for_account : IsKept original.account_mode original.account_id j.account_id
  pub triggered : j.trigger_type ≡ "retry"
  pub unscheduled : j.schedule_id ≡ none
  pub ranked : j.priority ≡ original.priority
  pub repeating : j.retry_of_job_id ≡ some original.id
  pub configured : j.config_snapshot_json ≡ original.config_snapshot_json
  pub staged : map Stage.name j.stages_json ≡ stages
  pub waiting : IsWaiting now j

same_config : (a b : String) → IsConfigured (some a) b → b ≡ a
same_config a _ (IsConfigured.given text) = refl

account-IsKept :
    (original : Job) (stages : List String)
    → IsKept original.account_mode original.account_id (retry_request original stages).account_id
unfolding retry_request
account-IsKept original stages = elim (Bool-cases (original.account_mode == "specified")) [
  | inl e ↦ rw e (IsKept.chosen ((string_eq.equals_iff original.account_mode "specified").0 e))
  | inr e ↦
      rw e (
        IsKept.free λ same. cc (e, (string_eq.equals_iff original.account_mode "specified").1 same))
]

pub IsAsked-IsRetryOf :
    (id now : ℕ) (platform : String) (original : Job) (stages : List String) (j : Job)
    → IsAsked id now platform (retry_request original stages) j
    → IsRetryOf id now platform original stages j
unfolding retry_request
IsAsked-IsRetryOf id now platform original stages j a = record {
  identified = a.identified;
  on_platform = a.on_platform;
  in_mode = a.in_mode;
  for_account =
      subst (IsKept original.account_mode original.account_id) (sym a.for_account)
        (account-IsKept original stages);
  triggered = a.triggered;
  unscheduled = a.scheduled;
  ranked = a.ranked;
  repeating = a.repeating;
  configured = same_config original.config_snapshot_json j.config_snapshot_json a.configured;
  staged = a.staged;
  waiting = a.waiting;
}
