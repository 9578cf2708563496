-- ===== src/Decision/Settled.antt =====
-- What the statements do to the checkpoints: a pending one is settled once, another one is kept.
use tiktok_b2b_bot_mirror.Prelude.{
  ℕ, String, ◌==◌, nat_eq, Bool, true, false, ◌&&◌, Bool-cases, Option, List, update, Grows,
  Grows-refl, Grows-update, Grows-trans, ◌≡◌, refl, sym, subst, inl, inr, first, exists_row,
  Option-cases, Yields, Yields-ok, Yields-bind, Yields-if, Yields-then, Yields-weaken, arith,
}
use tiktok_b2b_bot_mirror.JobStore.Rows.{
  Job, JobStage, Checkpoint, CheckpointStatus, CheckpointStatus-discrete, checkpoint_status_eq, Db,
}
use tiktok_b2b_bot_mirror.JobStore.Status.{
  FieldUpdate, write_status, expected_texts, set_job_status,
}
use tiktok_b2b_bot_mirror.JobStore.Create.{is_empty}
use tiktok_b2b_bot_mirror.JobStore.Stages.{end_pending_stages}
use tiktok_b2b_bot_mirror.JobStore.Decisions.{
  update_both, transition_decision_state, pause_for_decision, resume_from_decision,
  interrupt_waiting_decision,
}
use tiktok_b2b_bot_mirror.JobStore.Cancel.{
  is_pending_checkpoint, cancelled_checkpoint, cancel_checkpoint, cancel_queued_stages,
  cancel_waiting_stages, cancel_started, request_cancel,
}
use tiktok_b2b_bot_mirror.Decision.Checkpoints.{is_pending}

-- The row still asks the same question.
pub record SameQuestion (c d : Checkpoint) : Type 0 where
  pub same_id : d.id ≡ c.id
  pub same_job : d.job_id ≡ c.job_id
  pub same_stage : d.stage ≡ c.stage
  pub same_kind : d.kind ≡ c.kind
  pub same_version : d.version ≡ c.version
  pub same_options : d.option_keys_json ≡ c.option_keys_json
  pub same_deadline : d.deadline_at ≡ c.deadline_at

pub data CheckpointMove (c d : Checkpoint) : Type 0 where
  kept : d ≡ c → CheckpointMove c d
  settled : is_pending c ≡ true → is_pending d ≡ false → SameQuestion c d → CheckpointMove c d

pub CheckpointMove-trans :
    (c d e : Checkpoint) → CheckpointMove c d → CheckpointMove d e → CheckpointMove c e
CheckpointMove-trans c d e (CheckpointMove.kept p) m = subst (λ x. CheckpointMove x e) p m
CheckpointMove-trans c d e m (CheckpointMove.kept p) = subst (CheckpointMove c) (sym p) m
CheckpointMove-trans c d e (CheckpointMove.settled a b s) (CheckpointMove.settled f g t) = absurd cc

-- What a session does to the checkpoints.
pub record Settles (db db' : Db) : Type 0 where
  pub checkpoints : Grows CheckpointMove db.checkpoints db'.checkpoints

pub Settles-same : (db db' : Db) → db'.checkpoints ≡ db.checkpoints → Settles db db'
Settles-same db db' e = record {
  checkpoints =
      subst (Grows CheckpointMove db.checkpoints) (sym e)
        (Grows-refl CheckpointMove (λ c. CheckpointMove.kept refl) db.checkpoints);
}

pub Settles-trans : (db db1 db2 : Db) → Settles db db1 → Settles db1 db2 → Settles db db2
Settles-trans db db1 db2 a b = record {
  checkpoints = Grows-trans CheckpointMove CheckpointMove-trans a.checkpoints b.checkpoints;
}

-- An UPDATE of pending rows that settles them.
pub Settles-update :
    (p : Checkpoint → Bool) (f : Checkpoint → Checkpoint) (db : Db)
    → ((c : Checkpoint) → p c ≡ true → is_pending c ≡ true)
    → ((c : Checkpoint) → is_pending (f c) ≡ false)
    → ((c : Checkpoint) → SameQuestion c (f c))
    → Settles db (record db { checkpoints = update p f db.checkpoints })
Settles-update p f db pending done same = record {
  checkpoints =
      Grows-update CheckpointMove p f (λ c. CheckpointMove.kept refl)
        (λ c h. CheckpointMove.settled (pending c h) (done c) (same c)) db.checkpoints;
}

pub cancelled-SameQuestion :
    (now : ℕ) (reason : String) (c : Checkpoint)
    → SameQuestion c (cancelled_checkpoint now reason c)
unfolding cancelled_checkpoint
cancelled-SameQuestion now reason c = record {
  same_id = refl;
  same_job = refl;
  same_stage = refl;
  same_kind = refl;
  same_version = refl;
  same_options = refl;
  same_deadline = refl;
}

pub cancelled_done :
    (now : ℕ) (reason : String) (c : Checkpoint)
    → is_pending (cancelled_checkpoint now reason c) ≡ false
unfolding cancelled_checkpoint is_pending CheckpointStatus-discrete
cancelled_done now reason c = refl

-- The updates of two rows leave the checkpoints alone.
update_both-checkpoints :
    (p : Job → Bool) (f : Job → Job) (q : JobStage → Bool) (g : JobStage → JobStage) (db : Db)
    → (update_both p f q g db).1.checkpoints ≡ db.checkpoints
unfolding update_both
update_both-checkpoints p f q g db =
    elim (Bool-cases (exists_row p db.jobs && exists_row q db.stages)) [
      | inl e ↦ rw e refl
      | inr e ↦ rw e refl
    ]

pub resume-Settles :
    (now job_id : ℕ) (text : String) (db : Db)
    → Yields (Settles db) (resume_from_decision now job_id text db)
unfolding resume_from_decision transition_decision_state
resume-Settles now job_id text db = Yields-bind _ _ λ stage _. Yields-bind _ _ λ _ _.
    Yields-bind _ _ λ _ _. Yields-ok _ (Settles-same db _ (update_both-checkpoints _ _ _ _ db))

pub pause-Settles :
    (now job_id : ℕ) (text : String) (db : Db)
    → Yields (Settles db) (pause_for_decision now job_id text db)
unfolding pause_for_decision transition_decision_state
pause-Settles now job_id text db = Yields-bind _ _ λ stage _. Yields-bind _ _ λ _ _.
    Yields-bind _ _ λ _ _. Yields-ok _ (Settles-same db _ (update_both-checkpoints _ _ _ _ db))

pub interrupt-Settles :
    (now job_id : ℕ) (text : String) (db : Db)
    → Yields (Settles db) (interrupt_waiting_decision now job_id text db)
unfolding interrupt_waiting_decision
interrupt-Settles now job_id text db = Yields-bind _ _ λ stage _. Yields-bind _ _ λ _ _.
    Yields-bind _ _ λ _ _. Yields-ok _ (Settles-same db _ (update_both-checkpoints _ _ _ _ db))

set_job_status-Settles :
    (now job_id : ℕ) (status : String) (expected : Option (List String)) (us : List FieldUpdate)
    (db : Db)
    → Yields (Settles db) (set_job_status now job_id status expected us db)
unfolding set_job_status write_status
set_job_status-Settles now job_id status expected us db = Yields-bind _ _ λ _ _.
    Yields-bind _ _ λ _ _. Yields-bind _ _ λ _ _.
      Yields-if (is_empty (expected_texts job_id expected db)) _ _
        (λ _. Yields-ok _ (Settles-same db db refl))
        λ _. Yields-bind _ _ λ _ _. Yields-bind _ _ λ _ _. Yields-ok _ (Settles-same db _ refl)

pending_checkpoint :
    (job_id : ℕ) (id : ℕ) (c : Checkpoint)
    → (c.id == id && c.status == CheckpointStatus.pending) ≡ true
    → is_pending c ≡ true
unfolding is_pending
pending_checkpoint job_id id c h = ground arith

cancel_checkpoint-Settles :
    (now job_id : ℕ) (reason : String) (db : Db)
    → Settles db (cancel_checkpoint now job_id reason db)
unfolding cancel_checkpoint
cancel_checkpoint-Settles now job_id reason db =
    elim (Option-cases (first (is_pending_checkpoint job_id) db.checkpoints)) [
      | inl e ↦ rw (e, cancel_checkpoint) (Settles-same db db refl)
      | inr (active, e) ↦
          rw (e, cancel_checkpoint)
            (Settles-update _ (cancelled_checkpoint now reason) db
              (pending_checkpoint job_id active.id) (cancelled_done now reason)
              (cancelled-SameQuestion now reason))
    ]

cancel_queued-Settles :
    (now job_id : ℕ) (db : Db) → Yields (Settles db) (cancel_queued_stages now job_id db)
unfolding cancel_queued_stages end_pending_stages
cancel_queued-Settles now job_id db = Yields-bind _ _ λ _ _. Yields-ok _ (Settles-same db _ refl)

cancel_waiting-Settles :
    (now job_id : ℕ) (db : Db) → Yields (Settles db) (cancel_waiting_stages now job_id db)
unfolding cancel_waiting_stages
cancel_waiting-Settles now job_id db = Yields-bind _ _ λ _ _. Yields-bind _ _ λ _ _. Yields-ok _ (
    Settles-trans db _ _ (Settles-same db _ refl)
      (cancel_checkpoint-Settles now job_id "job_cancelled" _))

cancel_started-Settles :
    (now job_id : ℕ) (db : Db) → Yields (Settles db) (cancel_started now job_id db)
unfolding cancel_started
cancel_started-Settles now job_id db =
    Yields-then _ _ (set_job_status-Settles now job_id _ _ _ db) λ was_waiting waited moved.
      Yields-if was_waiting _ _
        (λ _.
          Yields-weaken _ (cancel_waiting-Settles now job_id waited)
            λ s later. Settles-trans db waited s moved later)
        λ _.
          Yields-then _ _ (set_job_status-Settles now job_id _ _ _ waited)
            λ _ asked later. Yields-ok _ (Settles-trans db waited asked moved later)

pub request_cancel-Settles :
    (now job_id : ℕ) (db : Db) → Yields (Settles db) (request_cancel now job_id db)
unfolding request_cancel
request_cancel-Settles now job_id db =
    Yields-then _ _ (set_job_status-Settles now job_id _ _ _ db) λ was_queued dropped moved.
      Yields-if was_queued _ _
        (λ _.
          Yields-weaken _ (cancel_queued-Settles now job_id dropped)
            λ s later. Settles-trans db dropped s moved later)
        λ _.
          Yields-weaken _ (cancel_started-Settles now job_id dropped)
            λ s later. Settles-trans db dropped s moved later
