-- ===== src/Decision/Sessions.antt =====
-- What a session of the gate does to the checkpoints.
use tiktok_b2b_bot_mirror.Prelude.{
  ℕ, String, nat_eq, true, false, Grows-append, ◌≡◌, refl, Result, ok, err, map_err, committed,
  Yields, Yields-ok, Yields-bind, Yields-if, Yields-then, Yields-option, arith,
}
use tiktok_b2b_bot_mirror.JobStore.Rows.{
  Checkpoint, CheckpointStatus-discrete, checkpoint_status_eq, ResolutionSource, Db,
}
use tiktok_b2b_bot_mirror.Decision.Texts.{Texts}
use tiktok_b2b_bot_mirror.Decision.Checkpoints.{
  Answer, NewCheckpoint, is_pending, is_answerable, is_pending_row, answered, create_checkpoint,
  resolve_checkpoint, cancel_one, get_checkpoint,
}
use tiktok_b2b_bot_mirror.Decision.Gate.{SessionError, resolve_session, open_session}
use tiktok_b2b_bot_mirror.Decision.Settled.{
  SameQuestion, CheckpointMove, Settles, Settles-same, Settles-trans, Settles-update,
  cancelled-SameQuestion, cancelled_done, resume-Settles, pause-Settles,
}

pub Yields-map_err :
    {E F A S : Type 0} (f : E → F) {P : S → Type 0} (r : Result E (A × S))
    → Yields P r
    → Yields P (map_err f r)
Yields-map_err f (ok (a, s)) h = record { holds = h.holds }
Yields-map_err f (err e) h = record { holds = tt }

pub committed-Settles :
    {E A : Type 0} (db : Db) (r : Result E (A × Db))
    → Yields (Settles db) r
    → Settles db (committed db r)
committed-Settles db (ok (a, s)) h = h.holds
committed-Settles db (err e) h = Settles-same db db refl

pub answerable_pending :
    (job_id id version : ℕ) (c : Checkpoint)
    → is_answerable job_id id version c ≡ true
    → is_pending c ≡ true
unfolding is_answerable is_pending
answerable_pending job_id id version c h = ground arith

pending_row : (id : ℕ) (c : Checkpoint) → is_pending_row id c ≡ true → is_pending c ≡ true
unfolding is_pending_row is_pending
pending_row id c h = ground arith

module _ (texts : Texts) where
  pub answered_done :
      (now : ℕ) (source : ResolutionSource) (answer : Answer) (c : Checkpoint)
      → is_pending (answered texts now source answer c) ≡ false
  unfolding answered is_pending CheckpointStatus-discrete
  answered_done now ResolutionSource.human answer c = refl
  answered_done now ResolutionSource.timeout answer c = refl
  answered_done now ResolutionSource.system answer c = refl

  answered-SameQuestion :
      (now : ℕ) (source : ResolutionSource) (answer : Answer) (c : Checkpoint)
      → SameQuestion c (answered texts now source answer c)
  unfolding answered
  answered-SameQuestion now source answer c = record {
    same_id = refl;
    same_job = refl;
    same_stage = refl;
    same_kind = refl;
    same_version = refl;
    same_options = refl;
    same_deadline = refl;
  }

  resolve_checkpoint-Settles :
      (now job_id id : ℕ) (answer : Answer) (db : Db)
      → Yields (Settles db) (resolve_checkpoint texts now job_id id answer db)
  unfolding resolve_checkpoint
  resolve_checkpoint-Settles now job_id id answer db = Yields-bind _ _ λ c _. Yields-bind _ _ λ _ _.
      Yields-bind _ _ λ _ _. Yields-bind _ _ λ source _. Yields-bind _ _ λ _ _.
        Yields-bind _ _ λ _ _. Yields-bind _ _ λ _ _. Yields-bind _ _ λ _ _. Yields-ok _ (
          Settles-update (is_answerable job_id c.id answer.version)
            (answered texts now source answer) db (answerable_pending job_id c.id answer.version)
            (answered_done now source answer) (answered-SameQuestion now source answer))

  create_checkpoint-Settles :
      (now id job_id : ℕ) (new : NewCheckpoint) (db : Db)
      → Yields (Settles db) (create_checkpoint texts now id job_id new db)
  unfolding create_checkpoint
  create_checkpoint-Settles now id job_id new db = Yields-bind _ _ λ _ _. Yields-bind _ _ λ _ _.
      Yields-bind _ _ λ _ _. Yields-bind _ _ λ _ _. Yields-bind _ _ λ _ _. Yields-bind _ _ λ _ _.
        Yields-bind _ _ λ _ _. Yields-bind _ _ λ _ _. Yields-bind _ _ λ _ _.
          Yields-ok _ (record {
            checkpoints = Grows-append CheckpointMove (λ c. CheckpointMove.kept refl) _ _;
          })

  pub cancel_one-Settles :
      (now job_id id : ℕ) (reason : String) (db : Db)
      → Yields (Settles db) (cancel_one texts now job_id id reason db)
  unfolding cancel_one
  cancel_one-Settles now job_id id reason db = Yields-bind _ _ λ _ _.
      Yields-option (get_checkpoint job_id id db) _ _ (Yields-ok _ (Settles-same db db refl)) λ c _.
        Yields-if (is_pending c) _ _
          (λ _. Yields-ok _ (
            Settles-update (is_pending_row c.id) _ db (pending_row c.id)
              (cancelled_done now (texts.strip reason))
              (cancelled-SameQuestion now (texts.strip reason))))
          λ _. Yields-ok _ (Settles-same db db refl)

  pub resolve_session-Settles :
      (clock job_id id : ℕ) (answer : Answer) (db : Db)
      → Yields (Settles db) (resolve_session texts clock job_id id answer db)
  unfolding resolve_session
  resolve_session-Settles clock job_id id answer db =
      Yields-then _ _
        (Yields-map_err SessionError.live _ (resolve_checkpoint-Settles clock job_id id answer db))
        λ c db1 first.
          Yields-then _ _
            (Yields-map_err SessionError.store _ (resume-Settles clock job_id c.stage db1))
            λ _ db2 second.
              Yields-bind _ _
                λ _ _. Yields-bind _ _ λ _ _. Yields-ok _ (Settles-trans db db1 db2 first second)

  pub open_session-Settles :
      (clock id job_id : ℕ) (new : NewCheckpoint) (db : Db)
      → Yields (Settles db) (open_session texts clock id job_id new db)
  unfolding open_session
  open_session-Settles clock id job_id new db =
      Yields-then _ _
        (Yields-map_err SessionError.live _ (create_checkpoint-Settles clock id job_id new db))
        λ _ db1 first.
          Yields-then _ _
            (Yields-map_err SessionError.store _ (pause-Settles clock job_id new.stage db1))
            λ _ db2 second.
              Yields-bind _ _ λ _ _. Yields-ok _ (Settles-trans db db1 db2 first second)
