-- ===== src/JobStore/Claim.antt =====
-- PipelineJobStore.claim_next_job, claim_job and get_job.
use tiktok_b2b_bot_mirror.Prelude.{
  ℕ, String, ◌==◌, nat_eq, string_eq, Bool, ◌&&◌, ◌||◌, Option, none, some, List, [], ◌∷◌, contains,
  exists_row, first, select, update, Result, ok, ◌>>◌, if◌then◌else◌, ltb,
}
use tiktok_b2b_bot_mirror.States.JobStatus
use tiktok_b2b_bot_mirror.States.JobStatus.{JobStatus, job_status_eq}
use tiktok_b2b_bot_mirror.States.StageStatus.{stage_status_eq}
use tiktok_b2b_bot_mirror.States.Stage.{stage_eq}
use tiktok_b2b_bot_mirror.JobStore.Rows.{Job, checkpoint_status_eq, Db, StoreError, job_check}

-- ORDER BY priority, queued_at, created_at, id
unfoldable pub is_before : Job → Job → Bool
is_before a b =
    ltb a.priority b.priority
    || a.priority == b.priority
      && (ltb a.queued_at b.queued_at
          || a.queued_at == b.queued_at
            && (ltb a.created_at b.created_at || a.created_at == b.created_at && ltb a.id b.id))

unfoldable pub keep_first : Job → Option Job → Job
unfolding is_before
keep_first j none = j
keep_first j (some k) = if is_before k j then k else j

-- `ORDER BY ... LIMIT 1`
unfoldable pub least : List Job → Option Job
unfolding keep_first
least [] = none
least (j ∷ rest) = some (keep_first j (least rest))

unfoldable pub is_claimable : List String → Job → Bool
unfolding JobStatus.JobStatus-discrete
is_claimable platforms j = j.status == JobStatus.queued && contains j.platform platforms

unfoldable pub get_job : ℕ → Db → Option Job
get_job job_id db = first (λ j. j.id == job_id) db.jobs

unfoldable pub is_queued_job : ℕ → Job → Bool
unfolding JobStatus.JobStatus-discrete
is_queued_job job_id j = j.id == job_id && j.status == JobStatus.queued

unfoldable pub claimed : ℕ → Job → Job
claimed now j = record j { status = JobStatus.running; started_at = some now; updated_at = now }

unfoldable pub claim_next_job : ℕ → List String → Db → Result StoreError (Option Job × Db)
unfolding least is_claimable get_job is_queued_job claimed
claim_next_job now [] db = ok (none, db)
claim_next_job now (p ∷ ps) db = do
  job_check (JobStatus.validate_known_transition JobStatus.queued JobStatus.running)
  elim (least (select (is_claimable (p ∷ ps)) db.jobs)) [
    | none ↦ ok (none, db)
    | some candidate ↦
        let db' = record db { jobs = update (is_queued_job candidate.id) (claimed now) db.jobs } in
        ok (get_job candidate.id db', db')
  ]

unfoldable pub claim_job : ℕ → ℕ → ℕ → Db → Result StoreError (Bool × Db)
unfolding is_queued_job
claim_job now job_id account_id db = do
  job_check (JobStatus.validate_known_transition JobStatus.queued JobStatus.running)
  ok (
    exists_row (is_queued_job job_id) db.jobs,
    record db {
      jobs =
          update (is_queued_job job_id)
            (λ j. record j {
              status = JobStatus.running;
              account_id = some account_id;
              started_at = some now;
              updated_at = now;
            })
            db.jobs;
    },
  )
