-- ===== src/Decision/Checkpoints.antt =====
-- PipelineLiveStore.create_checkpoint, get_active_checkpoint, get_checkpoint, resolve_checkpoint, and
-- cancel_checkpoint of one checkpoint.
use tiktok_b2b_bot_mirror.Prelude.{
  ℕ, String, ◌==◌, nat_eq, string_eq, Bool, true, false, not, ◌&&◌, ◌||◌, Option, none, some, List,
  [], ◌∷◌, ◌++◌, map, contains, length, exists_row, first, update, find_name, Result, ok, raise_if,
  or_raise, ◌>>=◌, ◌>>◌, if◌then◌else◌, ltb,
}
use tiktok_b2b_bot_mirror.JobStore.Rows.{
  Checkpoint, CheckpointStatus, CheckpointStatus-discrete, checkpoint_status_eq, ResolutionSource,
  Db,
}
use tiktok_b2b_bot_mirror.JobStore.Create.{is_empty, has_duplicates}
use tiktok_b2b_bot_mirror.JobStore.Claim.{get_job}
use tiktok_b2b_bot_mirror.JobStore.Cancel.{is_pending_checkpoint, cancelled_checkpoint}
use tiktok_b2b_bot_mirror.Decision.Texts.{
  Texts, LiveError, invalid, conflict, taken_id, clean_code, validate_text,
}

abbrev pub is_missing {ℓ} : {A : Type ℓ} → Option A → Bool
is_missing none = true
is_missing (some _) = false

-- `_strict_int(version, minimum=1, maximum=2**31 - 1)`
unfoldable pub version_in_range : ℕ → Bool
version_in_range version = ltb 0 version && ltb version 2_147_483_648

unfoldable pub source_name : ResolutionSource → String
source_name ResolutionSource.human = "human"
source_name ResolutionSource.timeout = "timeout"
source_name ResolutionSource.system = "system"

unfoldable pub parse_source : String → Option ResolutionSource
unfolding find_name source_name
parse_source text =
    find_name source_name text
      (ResolutionSource.human ∷ ResolutionSource.timeout ∷ ResolutionSource.system ∷ [])

unfoldable pub terminal_status : ResolutionSource → CheckpointStatus
terminal_status ResolutionSource.timeout = CheckpointStatus.expired
terminal_status ResolutionSource.human = CheckpointStatus.resolved
terminal_status ResolutionSource.system = CheckpointStatus.resolved

-- A job has one pending checkpoint at most.
unfoldable pub get_active_checkpoint : ℕ → Db → Option Checkpoint
unfolding is_pending_checkpoint
get_active_checkpoint job_id db = first (is_pending_checkpoint job_id) db.checkpoints

unfoldable pub get_checkpoint : ℕ → ℕ → Db → Option Checkpoint
get_checkpoint job_id checkpoint_id db =
    first (λ c. c.id == checkpoint_id && c.job_id == job_id) db.checkpoints

-- The arguments of `create_checkpoint` after the job.
pub record NewCheckpoint : Type 0 where
  pub stage : String
  pub kind : String
  pub option_keys : List String
  pub default_option_key : String
  pub context : String
  pub deadline_at : ℕ
  pub version : ℕ

-- The arguments of `resolve_checkpoint` after the checkpoint.
pub record Answer : Type 0 where
  pub option_key : String
  pub version : ℕ
  pub source : String
  pub operator : String
  pub reason : String

-- The row that the resolving UPDATE may write.
unfoldable pub is_answerable : ℕ → ℕ → ℕ → Checkpoint → Bool
unfolding CheckpointStatus-discrete
is_answerable job_id checkpoint_id version c =
    c.id == checkpoint_id
    && c.job_id == job_id
    && c.status == CheckpointStatus.pending
    && c.version == version

unfoldable pub is_pending_row : ℕ → Checkpoint → Bool
unfolding CheckpointStatus-discrete
is_pending_row checkpoint_id c = c.id == checkpoint_id && c.status == CheckpointStatus.pending

unfoldable pub is_pending : Checkpoint → Bool
unfolding CheckpointStatus-discrete
is_pending c = c.status == CheckpointStatus.pending

unfoldable pub all_option_keys : (String → Bool) → List String → Bool
all_option_keys p [] = true
all_option_keys p (x ∷ xs) = p x && all_option_keys p xs

module _ (texts : Texts) where
  unfoldable pub are_options : List String → Bool
  unfolding has_duplicates all_option_keys
  are_options options =
      not (is_empty options)
      && not (ltb 16 (length options))
      && not (has_duplicates options)
      && all_option_keys texts.is_option_key options

  unfoldable pub create_checkpoint :
      ℕ → ℕ → ℕ → NewCheckpoint → Db → Result LiveError (Checkpoint × Db)
  unfolding get_job clean_code version_in_range are_options is_pending_checkpoint
  create_checkpoint now id job_id new db = do
    raise_if (is_missing (get_job job_id db)) (invalid "pipeline job not found")
    stage ← clean_code texts 20 new.stage
    kind ← clean_code texts 64 new.kind
    raise_if (not (version_in_range new.version)) (invalid "version is outside the allowed range")
    let options = map texts.strip new.option_keys
    raise_if (not (are_options options)) (invalid "checkpoint options are invalid")
    let default = texts.strip new.default_option_key
    raise_if (not (contains default options))
        (invalid "checkpoint default option is not registered")
    context ←
        or_raise (texts.validate_context new.context) (invalid "checkpoint context is invalid")
    raise_if (exists_row (λ c. c.id == id) db.checkpoints) (taken_id id)
    raise_if (exists_row (is_pending_checkpoint job_id) db.checkpoints)
        (conflict "an active checkpoint already exists")
    let checkpoint : Checkpoint = record {
      id = id;
      job_id = job_id;
      stage = stage;
      kind = kind;
      version = new.version;
      option_keys_json = options;
      default_option_key = default;
      context_json = context;
      status = CheckpointStatus.pending;
      deadline_at = new.deadline_at;
      resolved_at = none;
      resolution_key = none;
      resolution_source = none;
      operator = "";
      reason = "";
      created_at = now;
      updated_at = now;
    }
    ok (checkpoint, record db { checkpoints = db.checkpoints ++ checkpoint ∷ [] })

  -- What the resolving UPDATE writes.
  unfoldable pub answered : ℕ → ResolutionSource → Answer → Checkpoint → Checkpoint
  unfolding terminal_status
  answered now source answer c = record c {
    status = terminal_status source;
    resolved_at = some now;
    resolution_key = some (texts.strip answer.option_key);
    resolution_source = some source;
    operator = texts.strip answer.operator;
    reason = texts.strip answer.reason;
    updated_at = now;
  }

  unfoldable pub resolve_checkpoint : ℕ → ℕ → ℕ → Answer → Db → Result LiveError (Checkpoint × Db)
  unfolding get_checkpoint version_in_range parse_source validate_text is_answerable answered
  resolve_checkpoint now job_id checkpoint_id answer db = do
    checkpoint ←
        or_raise (get_checkpoint job_id checkpoint_id db)
          (conflict "checkpoint is not active for this job")
    raise_if (not (version_in_range answer.version))
        (invalid "version is outside the allowed range")
    raise_if (not (contains (texts.strip answer.option_key) checkpoint.option_keys_json))
        (invalid "checkpoint option is not registered")
    source ←
        or_raise (parse_source (texts.lower (texts.strip answer.source)))
          (invalid "resolution source is invalid")
    validate_text texts (texts.strip answer.operator)
    validate_text texts (texts.strip answer.reason)
    raise_if
        (ltb 200 (texts.size (texts.strip answer.operator))
          || ltb 2000 (texts.size (texts.strip answer.reason)))
        (invalid "checkpoint resolution text is too long")
    raise_if (not (exists_row (is_answerable job_id checkpoint.id answer.version) db.checkpoints))
        (conflict "checkpoint resolution conflict")
    ok (
      answered now source answer checkpoint,
      record db {
        checkpoints =
            update (is_answerable job_id checkpoint.id answer.version) (answered now source answer)
              db.checkpoints;
      },
    )

  unfoldable pub cancel_one : ℕ → ℕ → ℕ → String → Db → Result LiveError (Option Checkpoint × Db)
  unfolding get_checkpoint validate_text is_pending is_pending_row cancelled_checkpoint
  cancel_one now job_id checkpoint_id reason db = do
    validate_text texts (texts.strip reason)
    elim (get_checkpoint job_id checkpoint_id db) [
      | none ↦ ok (none, db)
      | some c ↦
          if is_pending c
          then ok (
            some (cancelled_checkpoint now (texts.strip reason) c),
            record db {
              checkpoints =
                  update (is_pending_row c.id) (cancelled_checkpoint now (texts.strip reason))
                    db.checkpoints;
            },
          )
          else ok (none, db)
    ]
