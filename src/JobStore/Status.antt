-- ===== src/JobStore/Status.antt =====
-- PipelineJobStore.set_job_status. The keyword arguments are a list of field updates; a field that
-- is not among `allowed_updates` is `other`.
use tiktok_b2b_bot_mirror.Prelude.{
  ℕ, String, ◌==◌, nat_eq, string_eq, Bool, false, ◌&&◌, Option, none, some, List, [], ◌∷◌, not,
  contains, exists_row, first, update, Result, ok, raise_if, ◌>>=◌, ◌>>◌, if◌then◌else◌,
}
use tiktok_b2b_bot_mirror.States.JobStatus
use tiktok_b2b_bot_mirror.States.JobStatus.{JobStatus, job_status_eq}
use tiktok_b2b_bot_mirror.States.StageStatus.{stage_status_eq}
use tiktok_b2b_bot_mirror.States.Stage.{Stage, stage_eq}
use tiktok_b2b_bot_mirror.JobStore.Create.{is_empty}
use tiktok_b2b_bot_mirror.JobStore.Rows.{
  Job, checkpoint_status_eq, Db, StoreError, job_check, use_pause_for_decision,
  use_resume_from_decision, unsupported_fields,
}

pub data FieldUpdate : Type 0 where
  account_id : Option ℕ → FieldUpdate
  current_stage : Option Stage → FieldUpdate
  error_summary : String → FieldUpdate
  queued_at : ℕ → FieldUpdate
  started_at : Option ℕ → FieldUpdate
  finished_at : Option ℕ → FieldUpdate
  other : String → FieldUpdate

unfoldable pub unsupported : List FieldUpdate → List String
unsupported [] = []
unsupported (other name ∷ rest) = name ∷ unsupported rest
unsupported (_ ∷ rest) = unsupported rest

unfoldable pub set_field : FieldUpdate → Job → Job
set_field (account_id v) j = record j { account_id = v }
set_field (current_stage v) j = record j { current_stage = v }
set_field (error_summary v) j = record j { error_summary = v }
set_field (queued_at v) j = record j { queued_at = v }
set_field (started_at v) j = record j { started_at = v }
set_field (finished_at v) j = record j { finished_at = v }
set_field (other name) j = j

unfoldable pub set_fields : List FieldUpdate → Job → Job
unfolding set_field
set_fields [] j = j
set_fields (u ∷ rest) j = set_fields rest (set_field u j)

-- `for current_status in expected: validate_job_transition(current_status, status)`
unfoldable pub check_expected : List String → JobStatus → Result StoreError (List JobStatus)
check_expected [] target = ok []
check_expected (text ∷ rest) target = do
  current ← job_check (JobStatus.validate_job_status text)
  job_check (JobStatus.validate_known_transition current target)
  others ← check_expected rest target
  ok (current ∷ others)

unfoldable pub is_expected : ℕ → List JobStatus → Job → Bool
unfolding JobStatus.JobStatus-discrete
is_expected job_id expected j = j.id == job_id && contains j.status expected

-- The `UPDATE` at the end of the method.
unfoldable pub write_status : ℕ → ℕ → JobStatus → List JobStatus → List FieldUpdate → Db → Bool × Db
unfolding set_fields is_expected
write_status now job_id target expected updates db = (
  exists_row (is_expected job_id expected) db.jobs,
  record db {
    jobs =
        update (is_expected job_id expected)
          (λ j. set_fields updates (record j { status = target; updated_at = now })) db.jobs;
  },
)

unfoldable pub expected_texts : ℕ → Option (List String) → Db → List String
expected_texts job_id (some texts) db = texts
expected_texts job_id none db = elim (first (λ j. j.id == job_id) db.jobs) [
  | none ↦ []
  | some j ↦ JobStatus.name j.status ∷ []
]

unfoldable pub set_job_status :
    ℕ → ℕ → String → Option (List String) → List FieldUpdate → Db → Result StoreError (Bool × Db)
unfolding check_expected write_status expected_texts unsupported
set_job_status now job_id status expected updates db = do
  target ← job_check (JobStatus.validate_job_status status)
  raise_if (target == JobStatus.waiting_decision) use_pause_for_decision
  raise_if (not (is_empty (unsupported updates))) (unsupported_fields (unsupported updates))
  let texts = expected_texts job_id expected db
  if is_empty texts then ok (false, db) else do
    raise_if (target == JobStatus.running && contains "waiting_decision" texts)
        use_resume_from_decision
    known ← check_expected texts target
    ok (write_status now job_id target known updates db)
