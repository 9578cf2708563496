-- ===== src/JobStore/Session.antt =====
-- The store as its callers use it: a sequence of method calls, each in a session of its own. A call
-- that raises is rolled back (`Database.session` of storage/database.py).
use tiktok_b2b_bot_mirror.Prelude.{ℕ, String, Option, List, [], ◌∷◌, committed}
use tiktok_b2b_bot_mirror.JobStore.Rows.{Db}
use tiktok_b2b_bot_mirror.JobStore.Create.{JobRequest, create_job}
use tiktok_b2b_bot_mirror.JobStore.Claim.{claim_job, claim_next_job}
use tiktok_b2b_bot_mirror.JobStore.Status.{FieldUpdate, set_job_status}
use tiktok_b2b_bot_mirror.JobStore.Stages.{
  start_stage, finish_stage, cancel_pending_stages, skip_pending_stages,
}
use tiktok_b2b_bot_mirror.JobStore.Decisions.{
  pause_for_decision, resume_from_decision, interrupt_waiting_decision,
}
use tiktok_b2b_bot_mirror.JobStore.Cancel.{request_cancel}
use tiktok_b2b_bot_mirror.JobStore.Recover.{recover_interrupted}

-- One call, with the arguments of its method; the first number is the time.
pub data Call : Type 0 where
  create : ℕ → ℕ → JobRequest → Call
  claim_next : ℕ → List String → Call
  claim : ℕ → ℕ → ℕ → Call
  set_status : ℕ → ℕ → String → Option (List String) → List FieldUpdate → Call
  start : ℕ → ℕ → String → Call
  finish : ℕ → ℕ → String → String → Option String → String → Call
  pause : ℕ → ℕ → String → Call
  resume : ℕ → ℕ → String → Call
  interrupt : ℕ → ℕ → String → Call
  cancel_pending : ℕ → ℕ → Call
  skip_pending : ℕ → ℕ → Call
  cancel : ℕ → ℕ → Call
  recover : ℕ → Call

unfoldable pub apply : Call → Db → Db
apply (create now id r) db = committed db (create_job id now r db)
apply (claim_next now platforms) db = committed db (claim_next_job now platforms db)
apply (claim now id account) db = committed db (claim_job now id account db)
apply (set_status now id status expected us) db =
    committed db (set_job_status now id status expected us db)
apply (start now id stage) db = committed db (start_stage now id stage db)
apply (finish now id stage status result error) db =
    committed db (finish_stage now id stage status result error db)
apply (pause now id stage) db = committed db (pause_for_decision now id stage db)
apply (resume now id stage) db = committed db (resume_from_decision now id stage db)
apply (interrupt now id stage) db = committed db (interrupt_waiting_decision now id stage db)
apply (cancel_pending now id) db = committed db (cancel_pending_stages now id db)
apply (skip_pending now id) db = committed db (skip_pending_stages now id db)
apply (cancel now id) db = committed db (request_cancel now id db)
apply (recover now) db = committed db (recover_interrupted now db)

unfoldable pub run : List Call → Db → Db
unfolding apply
run [] db = db
run (c ∷ rest) db = run rest (apply c db)
