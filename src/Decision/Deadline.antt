-- ===== src/Decision/Deadline.antt =====
-- The deadline of a decision: one who waits does not wait for ever.
use tiktok_b2b_bot_mirror.Prelude.{
  ℕ, ◌≤◌, String, ◌==◌, nat_eq, string_eq, true, false, ◌||◌, none, some, Memᴰ, contains,
  exists_row, mem-exists_row, first_mem, update, ltb, leb, ◌≡◌, refl, ok, if◌then◌else◌, arith,
  ◌>>=◌,
}
use tiktok_b2b_bot_mirror.States.JobStatus
use tiktok_b2b_bot_mirror.States.JobStatus.{JobStatus}
use tiktok_b2b_bot_mirror.States.StageStatus
use tiktok_b2b_bot_mirror.States.StageStatus.{StageStatus}
use tiktok_b2b_bot_mirror.States.Stage
use tiktok_b2b_bot_mirror.States.Stage.{Stage}
use tiktok_b2b_bot_mirror.JobStore.Rows.{
  Job, JobStage, Checkpoint, CheckpointStatus, ResolutionSource, Db,
}
use tiktok_b2b_bot_mirror.JobStore.Decisions.{
  is_at_stage, has_stage_status, update_both, transition_decision_state, resume_from_decision,
}
use tiktok_b2b_bot_mirror.Decision.Texts.{Texts, validate_text}
use tiktok_b2b_bot_mirror.Decision.Checkpoints.{
  is_pending, is_answerable, version_in_range, parse_source, terminal_status, answered,
  resolve_checkpoint, get_checkpoint,
}
use tiktok_b2b_bot_mirror.Decision.Definitions.{CheckpointDefinition}
use tiktok_b2b_bot_mirror.Decision.Gate.{
  Resolution, resolve_session, resolve_once, resolution_of, timeout_answer, timed_out, poll,
}

-- The texts that the gate itself writes are accepted.
pub record IsPlain (texts : Texts) : Type 0 where
  pub timeout : texts.lower (texts.strip "timeout") ≡ "timeout"
  pub operator : validate_text texts (texts.strip "") ≡ ok tt
  pub reason : validate_text texts (texts.strip "deadline_elapsed") ≡ ok tt
  pub short :
      (ltb 200 (texts.size (texts.strip ""))
        || ltb 2000 (texts.size (texts.strip "deadline_elapsed")))
      ≡ false

-- The job and one of its stages wait at `stage`.
pub record IsWaitingAt (job_id : ℕ) (stage : Stage) (db : Db) : Type 0 where
  pub job : Job
  pub row : JobStage
  pub job_there : Memᴰ job db.jobs
  pub row_there : Memᴰ row db.stages
  pub job_waits : is_at_stage job_id stage JobStatus.waiting_decision job ≡ true
  pub row_waits : has_stage_status job_id stage StageStatus.waiting_decision row ≡ true

known_stage : (stage : Stage) → Stage.validate_pipeline_stage (Stage.name stage) ≡ ok stage
unfolding Stage.validate_pipeline_stage Stage.name
known_stage Stage.collect = refl
known_stage Stage.filter = refl
known_stage Stage.strategy = refl
known_stage Stage.outreach = refl
known_stage Stage.report = refl
known_stage Stage.iterate = refl

resumes_waiting :
    (now job_id : ℕ) (stage : Stage) (text : String) (db : Db)
    → text ≡ Stage.name stage
    → IsWaitingAt job_id stage db
    → (db' : Db) × (resume_from_decision now job_id text db ≡ ok (true, db'))
unfolding resume_from_decision transition_decision_state update_both ◌>>=◌
    JobStatus.validate_known_transition StageStatus.validate_known_transition
resumes_waiting now job_id stage text db named w =
    let jobs : exists_row (is_at_stage job_id stage JobStatus.waiting_decision) db.jobs ≡ true =
      mem-exists_row _ db.jobs w.job_there w.job_waits in
    let rows : exists_row (has_stage_status job_id stage StageStatus.waiting_decision) db.stages
        ≡ true =
      mem-exists_row _ db.stages w.row_there w.row_waits in
    (
      record db {
        jobs =
            update (is_at_stage job_id stage JobStatus.waiting_decision)
              (λ j. record j { status = JobStatus.running; updated_at = now }) db.jobs;
        stages =
            update (has_stage_status job_id stage StageStatus.waiting_decision)
              (λ s. record s { status = StageStatus.running }) db.stages;
      },
      rw (named, known_stage stage, jobs, rows) refl,
    )

answerable_row :
    (job_id id : ℕ) (c : Checkpoint) (db : Db)
    → get_checkpoint job_id id db ≡ some c
    → is_pending c ≡ true
    → exists_row (is_answerable job_id c.id c.version) db.checkpoints ≡ true
unfolding get_checkpoint is_answerable is_pending
answerable_row job_id id c db found waits =
    let (m, both) = first_mem _ db.checkpoints found in
    let owned : (c.job_id == job_id) ≡ true = ground arith in
    let same_id : (c.id == c.id) ≡ true = ground arith in
    let same_version : (c.version == c.version) ≡ true = ground arith in
    mem-exists_row (is_answerable job_id c.id c.version) db.checkpoints m
      (rw (same_id, owned, waits, same_version) refl)

module _ (texts : Texts) (plain : IsPlain texts) where
  resolves_pending :
      (clock job_id id : ℕ) (default : String) (c : Checkpoint) (db : Db)
      → get_checkpoint job_id id db ≡ some c
      → is_pending c ≡ true
      → version_in_range c.version ≡ true
      → contains (texts.strip default) c.option_keys_json ≡ true
      → resolve_checkpoint texts clock job_id id (timeout_answer texts default c.version) db
        ≡ ok (
          answered texts clock ResolutionSource.timeout (timeout_answer texts default c.version) c,
          record db {
            checkpoints =
                update
                  (is_answerable job_id c.id c.version)
                  (answered texts clock ResolutionSource.timeout
                    (timeout_answer texts default c.version))
                  db.checkpoints;
          },
        )
  unfolding resolve_checkpoint ◌>>=◌ parse_source
  resolves_pending clock job_id id default c db found waits version offered =
      let current : exists_row (is_answerable job_id c.id c.version) db.checkpoints ≡ true =
        answerable_row job_id id c db found waits in
      rw
        (found, version, offered, plain.timeout, plain.operator, plain.reason, plain.short, current)
        refl

  -- The resolution that the deadline brings: the default option.
  abbrev pub timeout_resolution : ℕ → String → Checkpoint → Resolution
  timeout_resolution clock default c = record {
    checkpoint_id = c.id;
    job_id = c.job_id;
    stage = c.stage;
    kind = c.kind;
    option_key = some (texts.strip default);
    source = ResolutionSource.timeout;
    status = CheckpointStatus.expired;
    resolved_at = some clock;
    deadline_at = if c.kind == "manual_review_session" then none else some c.deadline_at;
  }

  session_times_out :
      (clock job_id id : ℕ) (default : String) (stage : Stage) (c : Checkpoint) (db : Db)
      → get_checkpoint job_id id db ≡ some c
      → is_pending c ≡ true
      → version_in_range c.version ≡ true
      → contains (texts.strip default) c.option_keys_json ≡ true
      → c.stage ≡ Stage.name stage
      → IsWaitingAt job_id stage db
      → (db' : Db) × (resolve_session texts clock job_id id
            (timeout_answer texts default c.version)
            db
          ≡ ok (timeout_resolution clock default c, db'))
  unfolding resolve_session ◌>>=◌ resolution_of answered is_pending terminal_status
  session_times_out clock job_id id default stage c db found waits version offered named w =
      let first = resolves_pending clock job_id id default c db found waits version offered in
      let db1 : Db = record db {
        checkpoints =
            update (is_answerable job_id c.id c.version)
              (answered texts clock ResolutionSource.timeout
                (timeout_answer texts default c.version))
              db.checkpoints;
      } in
      let w1 : IsWaitingAt job_id stage db1 = record {
        job = w.job;
        row = w.row;
        job_there = w.job_there;
        row_there = w.row_there;
        job_waits = w.job_waits;
        row_waits = w.row_waits;
      } in
      let (db2, second) = resumes_waiting clock job_id stage c.stage db1 named w1 in
      (db2, rw (first, second) refl)

  -- Once the deadline of a pending checkpoint has come, the next turn of the one who waits for it
  -- ends the wait with the default option: if the option is one that the checkpoint offers, its
  -- version is in range, and the job and its stage wait, and if the texts that the gate itself writes
  -- are accepted.
  pub poll_times_out :
      (clock job_id id : ℕ) (definition : CheckpointDefinition) (default : String) (stage : Stage)
      (c : Checkpoint) (db : Db)
      → get_checkpoint job_id id db ≡ some c
      → is_pending c ≡ true
      → version_in_range c.version ≡ true
      → contains (texts.strip default) c.option_keys_json ≡ true
      → c.stage ≡ Stage.name stage
      → IsWaitingAt job_id stage db
      → definition.auto_timeout ≡ true
      → c.deadline_at ≤ clock
      → (poll texts clock job_id id definition default c.version db).0
        ≡ ok (some (timeout_resolution clock default c))
  unfolding poll resolution_of resolve_once timed_out
  poll_times_out clock job_id id definition default stage c db found waits version offered named w
        auto late =
      let (db', done) =
        session_times_out clock job_id id default stage c db found waits version offered named w in
      let come : leb c.deadline_at clock ≡ true = ground arith in
      rw (found, waits, auto, come, done, poll, resolution_of, resolve_once) refl
