-- ===== src/Decision/History.antt =====
-- What no sequence of calls of the gate can undo.
use tiktok_b2b_bot_mirror.Prelude.{
  ℕ, String, nat_eq, Bool, true, false, ◌&&◌, Bool-cases, Option-cases, List, [], ◌∷◌, Memᴰ,
  mem-Grows, ◌≡◌, refl, subst, inl, inr, Result, Result-cases, leb, Yields, Yields-ok, Yields-then,
}
use tiktok_b2b_bot_mirror.JobStore.Rows.{Checkpoint, checkpoint_status_eq, Db, StoreError}
use tiktok_b2b_bot_mirror.JobStore.Decisions.{resume_from_decision, interrupt_waiting_decision}
use tiktok_b2b_bot_mirror.Decision.Texts.{Texts}
use tiktok_b2b_bot_mirror.Decision.Checkpoints.{Answer, is_pending, get_checkpoint}
use tiktok_b2b_bot_mirror.Decision.Definitions.{CheckpointDefinition, definition_of}
use tiktok_b2b_bot_mirror.Decision.Gate.{
  SessionError, choice_check, resolve_session, resolve_once, too_late, resolve_pending, resolve,
  poll, cleanup_session, cleanup_by_interrupt, cleanup, resolution_of, timeout_answer,
}
use tiktok_b2b_bot_mirror.Decision.Calls.{GateCall, serve, serve_all}
use tiktok_b2b_bot_mirror.Decision.Settled.{
  CheckpointMove, Settles, Settles-same, Settles-trans, resume-Settles, interrupt-Settles,
  request_cancel-Settles,
}
use tiktok_b2b_bot_mirror.Decision.Sessions.{
  Yields-map_err, committed-Settles, resolve_session-Settles, open_session-Settles,
  cancel_one-Settles,
}

module _ (texts : Texts) where
  resolve_once-Settles :
      (clock job_id id : ℕ) (answer : Answer) (db : Db)
      → Settles db (resolve_once texts clock job_id id answer db).1
  unfolding resolve_once
  resolve_once-Settles clock job_id id answer db =
      elim (Result-cases (resolve_session texts clock job_id id answer db)) [
        | inl ((r, db'), e) ↦
            let y =
              subst (Yields (Settles db)) e
                (resolve_session-Settles texts clock job_id id answer db) in
            rw (e, resolve_once) y.holds
        | inr (error, e) ↦ rw (e, resolve_once) (Settles-same db db refl)
      ]

  resolve_pending-Settles :
      (clock job_id id : ℕ) (answer : Answer) (c : Checkpoint) (db : Db)
      → Settles db (resolve_pending texts clock job_id id answer c db).1
  unfolding resolve_pending too_late
  resolve_pending-Settles clock job_id id answer c db =
      elim (Result-cases (choice_check (definition_of texts.strip c.kind))) [
        | inr (error, e) ↦ rw (e, resolve_pending) (Settles-same db db refl)
        | inl (definition, e) ↦
            elim (Bool-cases (definition.auto_timeout && leb c.deadline_at clock)) [
              | inl late ↦
                  rw (e, resolve_pending)
                    (rw late (
                      resolve_once-Settles clock job_id id
                        (timeout_answer texts c.default_option_key c.version) db))
              | inr soon ↦
                  rw (e, resolve_pending)
                    (rw soon (
                      resolve_once-Settles clock job_id id (record answer { source = "human" }) db))
            ]
      ]

  resolve-Settles :
      (clock job_id id : ℕ) (answer : Answer) (db : Db)
      → Settles db (resolve texts clock job_id id answer db).1
  unfolding resolve
  resolve-Settles clock job_id id answer db = elim (Option-cases (get_checkpoint job_id id db)) [
    | inl e ↦ rw (e, resolve) (Settles-same db db refl)
    | inr (c, e) ↦ elim (Bool-cases (is_pending c)) [
      | inl p ↦ rw (e, resolve) (rw p (resolve_pending-Settles clock job_id id answer c db))
      | inr p ↦ rw (e, resolve) (rw p (Settles-same db db refl))
    ]
  ]

  poll-Settles :
      (clock job_id id : ℕ) (definition : CheckpointDefinition) (default : String) (version : ℕ)
      (db : Db)
      → Settles db (poll texts clock job_id id definition default version db).1
  unfolding poll
  poll-Settles clock job_id id definition default version db =
      elim (Option-cases (get_checkpoint job_id id db)) [
        | inl e ↦ rw (e, poll) (Settles-same db db refl)
        | inr (c, e) ↦ elim (Option-cases (resolution_of c)) [
          | inr (r, f) ↦ rw (e, f, poll) (Settles-same db db refl)
          | inl f ↦ elim (Bool-cases (definition.auto_timeout && leb c.deadline_at clock)) [
            | inl late ↦
                rw (e, f, poll)
                  (rw late (
                    resolve_once-Settles clock job_id id (timeout_answer texts default version) db))
            | inr soon ↦ rw (e, f, poll) (rw soon (Settles-same db db refl))
          ]
        ]
      ]

  cleanup_session-Settles :
      (leave : ℕ → ℕ → String → Db → Result StoreError (Bool × Db)) (clock job_id id : ℕ)
      (stage : String) (db : Db)
      → ((d : Db) → Yields (Settles d) (leave clock job_id stage d))
      → Yields (Settles db) (cleanup_session texts leave clock job_id id stage db)
  unfolding cleanup_session
  cleanup_session-Settles leave clock job_id id stage db left =
      Yields-then _ _
        (Yields-map_err SessionError.live _ (cancel_one-Settles texts clock job_id id _ db))
        λ _ db1 first.
          Yields-then _ _ (Yields-map_err SessionError.store _ (left db1))
            λ _ db2 second. Yields-ok _ (Settles-trans db db1 db2 first second)

  by_interrupt-Settles :
      (clock job_id id : ℕ) (stage : String) (db : Db)
      → Settles db (cleanup_by_interrupt texts clock job_id id stage db).1
  unfolding cleanup_by_interrupt
  by_interrupt-Settles clock job_id id stage db =
      let y =
        cleanup_session-Settles interrupt_waiting_decision clock job_id id stage db
          (interrupt-Settles clock job_id stage) in
      elim (Result-cases
        (cleanup_session texts interrupt_waiting_decision clock job_id id stage db)) [
          | inl ((true, db'), e) ↦
              rw (e, cleanup_by_interrupt) (subst (Yields (Settles db)) e y).holds
          | inl ((false, db'), e) ↦
              rw (e, cleanup_by_interrupt) (subst (Yields (Settles db)) e y).holds
          | inr (error, e) ↦ rw (e, cleanup_by_interrupt) (Settles-same db db refl)
        ]

  cleanup-Settles :
      (clock job_id id : ℕ) (stage : String) (db : Db)
      → Settles db (cleanup texts clock job_id id stage db).1
  unfolding cleanup
  cleanup-Settles clock job_id id stage db =
      let y =
        cleanup_session-Settles resume_from_decision clock job_id id stage db
          (resume-Settles clock job_id stage) in
      elim (Result-cases (cleanup_session texts resume_from_decision clock job_id id stage db)) [
        | inl ((true, db'), e) ↦ rw (e, cleanup) (subst (Yields (Settles db)) e y).holds
        | inl ((false, db'), e) ↦
            rw (e, cleanup)
              (Settles-trans db db' _ (subst (Yields (Settles db)) e y).holds
                (by_interrupt-Settles clock job_id id stage db'))
        | inr (error, e) ↦ rw (e, cleanup) (by_interrupt-Settles clock job_id id stage db)
      ]

  serve-Settles : (call : GateCall) (db : Db) → Settles db (serve texts call db)
  unfolding serve
  serve-Settles (GateCall.opens clock id job_id new) db =
      committed-Settles db _ (open_session-Settles texts clock id job_id new db)
  serve-Settles (GateCall.answers clock job_id id answer) db =
      resolve-Settles clock job_id id answer db
  serve-Settles (GateCall.turns clock job_id id definition default version) db =
      poll-Settles clock job_id id definition default version db
  serve-Settles (GateCall.gives_up clock job_id id stage) db =
      cleanup-Settles clock job_id id stage db
  serve-Settles (GateCall.cancels now job_id) db =
      committed-Settles db _ (request_cancel-Settles now job_id db)

  all-Settles : (calls : List GateCall) (db : Db) → Settles db (serve_all texts calls db)
  unfolding serve_all
  all-Settles [] db = Settles-same db db refl
  all-Settles (c ∷ rest) db =
      Settles-trans db _ _ (serve-Settles c db) (all-Settles rest (serve texts c db))

  -- Whatever decisions are opened, answered, timed out, given up and cancelled, and in whatever
  -- order: a checkpoint that is no longer pending stays as it is, with its resolution.
  pub settled_stays :
      (calls : List GateCall) (db : Db) (c : Checkpoint)
      → Memᴰ c db.checkpoints
      → is_pending c ≡ false
      → Memᴰ c (serve_all texts calls db).checkpoints
  settled_stays calls db c m done =
      let (d, n, move) =
        mem-Grows CheckpointMove db.checkpoints _ (all-Settles calls db).checkpoints m in
      same_row d n move
    where
      same_row :
          (d : Checkpoint)
          → Memᴰ d (serve_all texts calls db).checkpoints
          → CheckpointMove c d
          → Memᴰ c (serve_all texts calls db).checkpoints
      same_row d n (CheckpointMove.kept e) =
          subst (λ x. Memᴰ x (serve_all texts calls db).checkpoints) e n
      same_row d n (CheckpointMove.settled p _ _) = absurd cc
