-- ===== src/JobStore/Recovery.antt =====
-- What the recovery after a stop of the service leaves.
use tiktok_b2b_bot_mirror.Prelude.{
  ℕ, ◌≡◌, refl, ◌∙◌, inl, inr, false, List, Memᴰ, ◌==◌, nat_eq, update_mem, update_none,
  exists_row_mem, rowcount, rowcount_absent, arith, ◌&&◌, ok, ◌>>=◌, Bool-cases,
}
use tiktok_b2b_bot_mirror.States.JobStatus
use tiktok_b2b_bot_mirror.States.JobStatus.{JobStatus, job_status_eq}
use tiktok_b2b_bot_mirror.States.StageStatus
use tiktok_b2b_bot_mirror.States.StageStatus.{StageStatus, stage_status_eq}
use tiktok_b2b_bot_mirror.JobStore.Rows.{Job, checkpoint_status_eq, Db}
use tiktok_b2b_bot_mirror.JobStore.Recover.{
  is_recoverable, is_lost_stage, is_lost_checkpoint, has_recoverable_job, write_recovery,
  recover_interrupted,
}
use tiktok_b2b_bot_mirror.JobStore.Losses.{IsAtWork, at_work_iff, Recovered, write-Recovered}

-- Its transitions are all in the tables, so it never raises.
recover_total :
    (now : ℕ) (db : Db)
    → recover_interrupted now db ≡ ok (rowcount is_recoverable db.jobs, write_recovery now db)
unfolding recover_interrupted JobStatus.validate_known_transition
    StageStatus.validate_known_transition ◌>>=◌
recover_total now db = refl

none_left :
    (now : ℕ) (db : Db) (j : Job) → Memᴰ j (write_recovery now db).jobs → is_recoverable j ≡ false
unfolding write_recovery is_recoverable
none_left now db j m =
    let (k, _, e) = update_mem is_recoverable _ db.jobs m in
    elim (Bool-cases (is_recoverable k)) [
      | inl hit ↦ rw e (rw hit refl)
      | inr miss ↦ let same : j ≡ k = e ∙ rw miss refl in rw same miss
    ]

no_job :
    (jobs : List Job) (job_id : ℕ)
    → ((j : Job) → Memᴰ j jobs → is_recoverable j ≡ false)
    → has_recoverable_job job_id jobs ≡ false
unfolding has_recoverable_job
no_job jobs job_id quiet = elim (Bool-cases (has_recoverable_job job_id jobs)) [
  | inl hit ↦
      let (j, m, found) =
        exists_row_mem (λ (k : Job). k.id == job_id && is_recoverable k) jobs hit in
      let missed : is_recoverable j ≡ false = quiet j m in absurd (ground arith)
  | inr miss ↦ miss
]

-- Nothing is written where there is nothing to recover.
write_nothing :
    (now : ℕ) (db : Db)
    → ((j : Job) → Memᴰ j db.jobs → is_recoverable j ≡ false)
    → write_recovery now db ≡ db
unfolding write_recovery is_lost_stage is_lost_checkpoint
write_nothing now db quiet =
    rw
      (
        update_none is_recoverable _ db.jobs quiet,
        update_none (is_lost_stage db.jobs) _ db.stages
            λ s _. rw (no_job db.jobs s.job_id quiet) refl,
        update_none (is_lost_checkpoint db.jobs) _ db.checkpoints
            λ c _. rw (no_job db.jobs c.job_id quiet) refl,
      )
      refl

-- A recovery succeeds and reports how many jobs were running, cancelling or waiting for a decision;
-- it has interrupted these jobs, failed their running and waiting stages and cancelled their pending
-- checkpoints, and nothing else; it leaves no such job, and a second recovery succeeds, reports 0 and
-- changes nothing.
pub recovery_settles :
    (now later : ℕ) (db : Db)
    → (db' : Db) × (n : ℕ) × (recover_interrupted now db ≡ ok (n, db'))
      × Recovered now db db' n
      × ((j : Job) → Memᴰ j db'.jobs → ¬ (IsAtWork j.status))
      × (recover_interrupted later db' ≡ ok (0, db'))
recovery_settles now later db =
    let db' : Db = write_recovery now db in
    let quiet : (j : Job) → Memᴰ j db'.jobs → is_recoverable j ≡ false = none_left now db in
    (
      db',
      rowcount is_recoverable db.jobs,
      recover_total now db,
      write-Recovered now db,
      λ j m w. cc (quiet j m, (at_work_iff j).1 w),
      recover_total later db'
          ∙ rw (write_nothing later db' quiet, rowcount_absent is_recoverable db'.jobs quiet) refl,
    )
