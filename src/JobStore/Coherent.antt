-- ===== src/JobStore/Coherent.antt =====
-- What every sequence of calls keeps between the stages and the jobs that wait for decisions.
use tiktok_b2b_bot_mirror.Prelude.{
  ◌≡◌, false, none, some, List, [], ◌∷◌, string_eq, All, contains, Result, ok, err, Yields,
  committed,
}
use tiktok_b2b_bot_mirror.JobStore.Rows.{Db, StoreError}
use tiktok_b2b_bot_mirror.JobStore.Session.{Call, apply, run}
use tiktok_b2b_bot_mirror.JobStore.Gates.{IsCoherent}
use tiktok_b2b_bot_mirror.JobStore.Coherence.{
  create_job-IsCoherent, claim_job-IsCoherent, claim_next_job-IsCoherent, start_stage-IsCoherent,
  finish_stage-IsCoherent, cancel_pending_stages-IsCoherent, skip_pending_stages-IsCoherent,
}
use tiktok_b2b_bot_mirror.JobStore.Decided.{
  pause_for_decision-IsCoherent, resume_from_decision-IsCoherent,
  interrupt_waiting_decision-IsCoherent,
}
use tiktok_b2b_bot_mirror.JobStore.Ended.{set_job_status-IsCoherent, recover_interrupted-IsCoherent}
use tiktok_b2b_bot_mirror.JobStore.Cancelled.{request_cancel-IsCoherent}

-- A call that does not write a status of its own over `waiting_decision`.
abbrev pub IsPlain : Call → Type 0
IsPlain (Call.set_status now id status (some texts) us) = contains "waiting_decision" texts ≡ false
IsPlain (Call.set_status now id status none us) = ⊥
IsPlain _ = Unit

committed-IsCoherent :
    {A : Type 0} (db : Db) (r : Result StoreError (A × Db))
    → IsCoherent db
    → Yields IsCoherent r
    → IsCoherent (committed db r)
committed-IsCoherent db (ok (a, s)) c h = h.holds
committed-IsCoherent db (err e) c h = c

apply-IsCoherent :
    (call : Call) (db : Db) → IsPlain call → IsCoherent db → IsCoherent (apply call db)
unfolding apply
apply-IsCoherent (Call.create now id r) db plain c =
    committed-IsCoherent db _ c (create_job-IsCoherent id now r db c)
apply-IsCoherent (Call.claim_next now platforms) db plain c =
    committed-IsCoherent db _ c (claim_next_job-IsCoherent now platforms db c)
apply-IsCoherent (Call.claim now id account) db plain c =
    committed-IsCoherent db _ c (claim_job-IsCoherent now id account db c)
apply-IsCoherent (Call.set_status now id status (some texts) us) db plain c =
    committed-IsCoherent db _ c (set_job_status-IsCoherent now id status texts us db plain c)
apply-IsCoherent (Call.set_status now id status none us) db plain c = absurd plain
apply-IsCoherent (Call.start now id stage) db plain c =
    committed-IsCoherent db _ c (start_stage-IsCoherent now id stage db c)
apply-IsCoherent (Call.finish now id stage status result error) db plain c =
    committed-IsCoherent db _ c (finish_stage-IsCoherent now id stage status result error db c)
apply-IsCoherent (Call.pause now id stage) db plain c =
    committed-IsCoherent db _ c (pause_for_decision-IsCoherent now id stage db c)
apply-IsCoherent (Call.resume now id stage) db plain c =
    committed-IsCoherent db _ c (resume_from_decision-IsCoherent now id stage db c)
apply-IsCoherent (Call.interrupt now id stage) db plain c =
    committed-IsCoherent db _ c (interrupt_waiting_decision-IsCoherent now id stage db c)
apply-IsCoherent (Call.cancel_pending now id) db plain c =
    committed-IsCoherent db _ c (cancel_pending_stages-IsCoherent now id db c)
apply-IsCoherent (Call.skip_pending now id) db plain c =
    committed-IsCoherent db _ c (skip_pending_stages-IsCoherent now id db c)
apply-IsCoherent (Call.cancel now id) db plain c =
    committed-IsCoherent db _ c (request_cancel-IsCoherent now id db c)
apply-IsCoherent (Call.recover now) db plain c =
    committed-IsCoherent db _ c (recover_interrupted-IsCoherent now db c)

-- From a coherent store, any sequence of calls leaves a coherent store, as long as each
-- `set_job_status` among them names the statuses it expects and `waiting_decision` is not one: then
-- every stage that waits for a decision belongs to a job that waits at that very stage.
pub run-IsCoherent :
    (calls : List Call) (db : Db) → All IsPlain calls → IsCoherent db → IsCoherent (run calls db)
unfolding run
run-IsCoherent [] db plain c = c
run-IsCoherent (call ∷ rest) db plain c =
    run-IsCoherent rest (apply call db) plain.1 (apply-IsCoherent call db plain.0 c)
