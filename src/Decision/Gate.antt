-- ===== src/Decision/Gate.antt =====
-- DecisionGateService: how a decision is opened, answered, timed out and given up. The waiting between
-- two turns and the notification of waiters change no row. `clock` is what the injected clock gives,
-- and the same value stands for `datetime.utcnow()`.
use tiktok_b2b_bot_mirror.Prelude.{
  ℕ, ◌+◌, String, ◌==◌, string_eq, Bool, true, false, not, ◌&&◌, ◌||◌, List, Option, none, some,
  Result, ok, err, map_err, raise_if, or_raise, ◌>>=◌, ◌>>◌, if◌then◌else◌, leb,
}
use tiktok_b2b_bot_mirror.States.JobStatus
use tiktok_b2b_bot_mirror.States.JobStatus.{JobStatus, job_status_eq}
use tiktok_b2b_bot_mirror.JobStore.Rows.{
  Job, Checkpoint, CheckpointStatus, CheckpointStatus-discrete, checkpoint_status_eq,
  ResolutionSource, Db, StoreError,
}
use tiktok_b2b_bot_mirror.JobStore.Claim.{get_job}
use tiktok_b2b_bot_mirror.JobStore.Decisions.{
  pause_for_decision, resume_from_decision, interrupt_waiting_decision,
}
use tiktok_b2b_bot_mirror.Decision.Texts.{Texts, LiveError, invalid, conflict, taken_id}
use tiktok_b2b_bot_mirror.Decision.Checkpoints.{
  Answer, NewCheckpoint, get_checkpoint, create_checkpoint, resolve_checkpoint, cancel_one,
  is_pending,
}
use tiktok_b2b_bot_mirror.Decision.Definitions.{
  CheckpointDefinition, ChoiceError, invalid_choice, definition_of, option_subset,
}

-- DecisionResolution
pub record Resolution : Type 0 where
  pub checkpoint_id : ℕ
  pub job_id : ℕ
  pub stage : String
  pub kind : String
  pub option_key : Option String
  pub source : ResolutionSource
  pub status : CheckpointStatus
  pub resolved_at : Option ℕ
  pub deadline_at : Option ℕ

-- The exceptions that leave the service, and those that a session of it meets.
pub data GateError : Type 0 where
  validation state : String → GateError
  cancelled cleanup_failed : GateError
  live_conflict : String → GateError
  conflicted : Option Resolution → GateError
  in_store : StoreError → GateError
  taken : ℕ → GateError

pub data SessionError : Type 0 where
  live : LiveError → SessionError
  store : StoreError → SessionError
  gate : GateError → SessionError

-- What a method answers, and the tables that it leaves, also where it raises.
abbrev pub Reply : Type 0 → Type 0
Reply A = Result GateError A × Db

abbrev pub or_system : Option ResolutionSource → ResolutionSource
or_system none = ResolutionSource.system
or_system (some source) = source

-- `_resolution`
unfoldable pub resolution_of : Checkpoint → Option Resolution
unfolding is_pending
resolution_of c =
    if is_pending c
    then none
    else some (record {
      checkpoint_id = c.id;
      job_id = c.job_id;
      stage = c.stage;
      kind = c.kind;
      option_key = c.resolution_key;
      source = or_system c.resolution_source;
      status = c.status;
      resolved_at = c.resolved_at;
      deadline_at = if c.kind == "manual_review_session" then none else some c.deadline_at;
    })

unfoldable pub get_resolution : ℕ → ℕ → Db → Option Resolution
unfolding get_checkpoint resolution_of
get_resolution job_id checkpoint_id db = elim (get_checkpoint job_id checkpoint_id db) [
  | none ↦ none
  | some c ↦ resolution_of c
]

abbrev pub choice_check : {A : Type 0} → Result ChoiceError A → Result GateError A
choice_check = map_err λ e. elim e [ invalid_choice message ↦ validation message ]

module _ (texts : Texts) where
  -- The session of `_resolve_once`: the checkpoint and the job move together.
  unfoldable pub resolve_session : ℕ → ℕ → ℕ → Answer → Db → Result SessionError (Resolution × Db)
  unfolding resolve_checkpoint resume_from_decision resolution_of
  resolve_session clock job_id checkpoint_id answer db = do
    (checkpoint, db1) ← map_err live (resolve_checkpoint texts clock job_id checkpoint_id answer db)
    (resumed, db2) ← map_err store (resume_from_decision clock job_id checkpoint.stage db1)
    raise_if (not resumed) (live (conflict "decision resume conflict"))
    resolution ←
        or_raise (resolution_of checkpoint) (gate (state "decision did not reach a terminal state"))
    ok (resolution, db2)

  -- A conflict tells what the checkpoint says now.
  unfoldable pub session_error : ℕ → ℕ → Db → SessionError → GateError
  unfolding get_resolution
  session_error job_id checkpoint_id db (live (invalid _)) =
      validation "decision option is not registered"
  session_error job_id checkpoint_id db (live (conflict _)) =
      conflicted (get_resolution job_id checkpoint_id db)
  session_error job_id checkpoint_id db (live (taken_id id)) = taken id
  session_error job_id checkpoint_id db (store e) = in_store e
  session_error job_id checkpoint_id db (gate e) = e

  unfoldable pub resolve_once : ℕ → ℕ → ℕ → Answer → Db → Reply Resolution
  unfolding resolve_session session_error
  resolve_once clock job_id checkpoint_id answer db =
      elim (resolve_session clock job_id checkpoint_id answer db) [
        | ok (resolution, db') ↦ (ok resolution, db')
        | err e ↦ (err (session_error job_id checkpoint_id db e), db)
      ]

  abbrev pub timeout_answer : String → ℕ → Answer
  timeout_answer option version = record {
    option_key = option;
    version = version;
    source = "timeout";
    operator = "";
    reason = "deadline_elapsed";
  }

  -- What a human is told whose answer came too late.
  unfoldable pub refused : Result GateError Resolution → GateError
  refused (ok resolution) = conflicted (some resolution)
  refused (err e) = e

  -- Such an answer first lets the deadline win.
  unfoldable pub too_late : ℕ → ℕ → ℕ → Checkpoint → Db → Reply Resolution
  unfolding resolve_once refused
  too_late clock job_id checkpoint_id c db =
      let (result, db') =
        resolve_once clock job_id checkpoint_id (timeout_answer c.default_option_key c.version)
          db in
      (err (refused result), db')

  unfoldable pub resolve_pending : ℕ → ℕ → ℕ → Answer → Checkpoint → Db → Reply Resolution
  unfolding definition_of too_late resolve_once
  resolve_pending clock job_id checkpoint_id answer c db =
      elim (choice_check (definition_of texts.strip c.kind)) [
        | err e ↦ (err e, db)
        | ok definition ↦
            if definition.auto_timeout && leb c.deadline_at clock
            then too_late clock job_id checkpoint_id c db
            else resolve_once clock job_id checkpoint_id (record answer { source = "human" }) db
      ]

  -- `resolve`, the human's answer.
  unfoldable pub resolve : ℕ → ℕ → ℕ → Answer → Db → Reply Resolution
  unfolding get_checkpoint is_pending resolution_of resolve_pending
  resolve clock job_id checkpoint_id answer db = elim (get_checkpoint job_id checkpoint_id db) [
    | none ↦ (err (conflicted none), db)
    | some c ↦
        if is_pending c
        then resolve_pending clock job_id checkpoint_id answer c db
        else (err (conflicted (resolution_of c)), db)
  ]

  -- The session that opens the decision of `await_decision`.
  unfoldable pub open_session :
      ℕ → ℕ → ℕ → NewCheckpoint → Db → Result SessionError (Checkpoint × Db)
  unfolding create_checkpoint pause_for_decision
  open_session clock id job_id new db = do
    (checkpoint, db1) ← map_err live (create_checkpoint texts clock id job_id new db)
    (paused, db2) ← map_err store (pause_for_decision clock job_id new.stage db1)
    raise_if (not paused) (gate (state "job and stage cannot enter decision waiting"))
    ok (checkpoint, db2)

  unfoldable pub open_error : SessionError → GateError
  open_error (live (invalid _)) = validation "decision checkpoint is invalid"
  open_error (live (conflict message)) = live_conflict message
  open_error (live (taken_id id)) = taken id
  open_error (store e) = in_store e
  open_error (gate e) = e

  -- The first half of `await_decision`; `latest` is `datetime.max`.
  unfoldable pub open_decision :
      (clock timeout latest id job_id : ℕ) (stage kind context : String)
      → Option (List String)
      → Option String
      → Db
      → Result GateError (Checkpoint × Db)
  unfolding definition_of option_subset open_session open_error
  open_decision clock timeout latest id job_id stage kind context option_keys default db = do
    definition ← choice_check (definition_of texts.strip kind)
    (options, chosen) ← choice_check (option_subset definition option_keys default)
    safe ←
        or_raise (texts.safe_context context)
          (validation "decision context contains unsupported fields")
    let new : NewCheckpoint = record {
      stage = stage;
      kind = definition.kind;
      option_keys = options;
      default_option_key = chosen;
      context = safe;
      deadline_at = if definition.auto_timeout then clock + timeout else latest;
      version = 1;
    }
    map_err open_error (open_session clock id job_id new db)

  -- A decision that was cancelled is an exception to the one who waits for it.
  unfoldable pub accepted : Resolution → Result GateError (Option Resolution)
  unfolding CheckpointStatus-discrete
  accepted r = if r.status == CheckpointStatus.cancelled then err cancelled else ok (some r)

  -- Where another one has won, its resolution counts.
  unfoldable pub timed_out : Result GateError Resolution → Result GateError (Option Resolution)
  unfolding accepted
  timed_out (ok resolution) = ok (some resolution)
  timed_out (err (conflicted (some resolution))) = accepted resolution
  timed_out (err (conflicted none)) = ok none
  timed_out (err e) = err e

  -- One turn of the loop of `await_decision`: the resolution, if there is one, or another turn.
  unfoldable pub poll :
      ℕ → ℕ → ℕ → CheckpointDefinition → String → ℕ → Db → Reply (Option Resolution)
  unfolding get_checkpoint resolution_of resolve_once accepted timed_out
  poll clock job_id checkpoint_id definition default version db =
      elim (get_checkpoint job_id checkpoint_id db) [
        | none ↦ (err (state "decision checkpoint is unavailable"), db)
        | some c ↦ elim (resolution_of c) [
          | some resolution ↦ (accepted resolution, db)
          | none ↦
              if definition.auto_timeout && leb c.deadline_at clock
              then (let (result, db') =
                    resolve_once clock job_id checkpoint_id (timeout_answer default version) db in
                  (timed_out result, db'))
              else (ok none, db)
        ]
      ]

  unfoldable pub is_waiting_job : Option Job → Bool
  unfolding JobStatus.JobStatus-discrete
  is_waiting_job none = false
  is_waiting_job (some job) = job.status == JobStatus.waiting_decision

  -- One of the two sessions of `_cleanup_waiting_checkpoint`: whether it has cleaned up.
  unfoldable pub cleanup_session :
      (ℕ → ℕ → String → Db → Result StoreError (Bool × Db))
      → ℕ
      → ℕ
      → ℕ
      → String
      → Db
      → Result SessionError (Bool × Db)
  unfolding cancel_one get_job is_waiting_job
  cleanup_session leave clock job_id checkpoint_id stage db = do
    (_, db1) ←
        map_err live (cancel_one texts clock job_id checkpoint_id "decision_waiter_cancelled" db)
    (moved, db2) ← map_err store (leave clock job_id stage db1)
    ok (moved || not (is_waiting_job (get_job job_id db2)), db2)

  unfoldable pub cleanup_by_interrupt : ℕ → ℕ → ℕ → String → Db → Reply (Unit {0})
  unfolding cleanup_session interrupt_waiting_decision
  cleanup_by_interrupt clock job_id checkpoint_id stage db =
      elim (cleanup_session interrupt_waiting_decision clock job_id checkpoint_id stage db) [
        | ok (true, db') ↦ (ok tt, db')
        | ok (false, db') ↦ (err cleanup_failed, db')
        | err _ ↦ (err cleanup_failed, db)
      ]

  -- `_cleanup_waiting_checkpoint`: the job goes on, or is interrupted where it cannot.
  unfoldable pub cleanup : ℕ → ℕ → ℕ → String → Db → Reply (Unit {0})
  unfolding cleanup_session resume_from_decision cleanup_by_interrupt
  cleanup clock job_id checkpoint_id stage db =
      elim (cleanup_session resume_from_decision clock job_id checkpoint_id stage db) [
        | ok (true, db') ↦ (ok tt, db')
        | ok (false, db') ↦ cleanup_by_interrupt clock job_id checkpoint_id stage db'
        | err _ ↦ cleanup_by_interrupt clock job_id checkpoint_id stage db
      ]
