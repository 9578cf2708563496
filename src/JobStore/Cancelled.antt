-- ===== src/JobStore/Cancelled.antt =====
-- Cancelling a job keeps every waiting stage gated by its job.
use tiktok_b2b_bot_mirror.Prelude.{
  ok-injective, ℕ, ◌≡◌, refl, sym, ap, ◌∙◌, inl, inr, Bool, true, false, some, [], ◌∷◌, update_row,
  mem-update, exists_row, mem-exists_row, arith, Yields, Yields-ok, Yields-bind, Yields-if,
  Yields-then, Bool-cases,
}
use tiktok_b2b_bot_mirror.States.JobStatus
use tiktok_b2b_bot_mirror.JobStore.Rows.{Job, JobStage, Db}
use tiktok_b2b_bot_mirror.JobStore.Status.{finished_at, is_expected, set_fields, write_status}
use tiktok_b2b_bot_mirror.JobStore.Cancel.{
  cancel_checkpoint, is_open_stage, cancel_queued_stages, cancel_waiting_stages, cancel_started,
  request_cancel,
}
use tiktok_b2b_bot_mirror.JobStore.Guards.{expected_job}
use tiktok_b2b_bot_mirror.JobStore.Endings.{cancel_checkpoint_keeps}
use tiktok_b2b_bot_mirror.JobStore.Gates.{Gate, IsWaiting, IsCoherent, update-IsCoherent}
use tiktok_b2b_bot_mirror.JobStore.Coherence.{end_pending-IsCoherent}
use tiktok_b2b_bot_mirror.JobStore.Ended.{set_job_status-IsCoherent, cancel_waiting_write}

-- The store after the waiting job has been set to `cancelled`.
abbrev waited : ℕ → ℕ → Db → Bool × Db
waited now job_id db =
    write_status now job_id JobStatus.cancelled (JobStatus.waiting_decision ∷ [])
      (finished_at (some now) ∷ []) db

-- A waiting stage of a waiting job is among those that are cancelled with it.
open_if_gated :
    (job_id : ℕ) (s : JobStage) (j : Job)
    → IsWaiting s
    → Gate s j
    → is_expected job_id (JobStatus.waiting_decision ∷ []) j ≡ true
    → is_open_stage job_id s ≡ true
unfolding is_open_stage
open_if_gated job_id s j w held hit =
    let there : s.job_id ≡ job_id = sym held.same_job ∙ (expected_job job_id _ j hit).0 in
    ground (arith, w, there)

checkpoint-IsCoherent :
    (now job_id : ℕ) (db : Db)
    → IsCoherent db
    → IsCoherent (cancel_checkpoint now job_id "job_cancelled" db)
checkpoint-IsCoherent now job_id db c = record {
  gate =
      rw (cancel_checkpoint_keeps now job_id "job_cancelled" db).0
        (rw (cancel_checkpoint_keeps now job_id "job_cancelled" db).1 c.gate);
}

cancel_waiting-IsCoherent :
    (now job_id : ℕ) (db : Db)
    → IsCoherent db
    → Yields IsCoherent (cancel_waiting_stages now job_id (waited now job_id db).1)
unfolding cancel_waiting_stages write_status
cancel_waiting-IsCoherent now job_id db c = Yields-bind _ _ λ _ _. Yields-bind _ _ λ _ _.
    Yields-ok _ (
      checkpoint-IsCoherent now job_id _ (
        update-IsCoherent (is_expected job_id (JobStatus.waiting_decision ∷ [])) _
          (is_open_stage job_id) _ db (λ s _ w. absurd (cc))
          (λ s j _ miss w held.
            elim (Bool-cases (is_expected job_id (JobStatus.waiting_decision ∷ []) j)) [
              | inl hit ↦ absurd (cc (open_if_gated job_id s j w held hit))
              | inr kept ↦ rw kept held
            ])
          c))

-- No job of that id was waiting: nothing has been written.
none_waited :
    (now job_id : ℕ) (db : Db)
    → (waited now job_id db).0 ≡ false
    → IsCoherent db
    → IsCoherent (waited now job_id db).1
unfolding write_status
none_waited now job_id db missed c = record {
  gate = λ s m w.
      let (j, n, held) = c.gate s m w in
      let p = is_expected job_id (JobStatus.waiting_decision ∷ []) in
      let f : Job → Job = λ k.
        set_fields (finished_at (some now) ∷ [])
          (record k { status = JobStatus.cancelled; updated_at = now }) in
      elim (Bool-cases (p j)) [
        | inl hit ↦
            let found : exists_row p db.jobs ≡ true = mem-exists_row p db.jobs n hit in absurd cc
        | inr kept ↦ (update_row p f j, mem-update p f db.jobs n, rw kept held)
      ];
}

cancel_started-IsCoherent :
    (now job_id : ℕ) (db : Db) → IsCoherent db → Yields IsCoherent (cancel_started now job_id db)
unfolding cancel_started
cancel_started-IsCoherent now job_id db c = Yields-bind _ _ λ (was_waiting, db') sound.
    let same : waited now job_id db ≡ (was_waiting, db') =
      ok-injective (sym (cancel_waiting_write now job_id db) ∙ sound) in
    Yields-if was_waiting _ _
      (λ hit. rw (sym (ap (λ r. r.1) same)) (cancel_waiting-IsCoherent now job_id db c))
      λ miss.
        Yields-then _ _
          (set_job_status-IsCoherent now job_id _ _ _ db' refl (
            rw (sym (ap (λ r. r.1) same))
              (none_waited now job_id db (ap (λ r. r.0) same ∙ miss) c)))
          λ _ asked kept. Yields-ok _ kept

cancel_queued-IsCoherent :
    (now job_id : ℕ) (db : Db)
    → IsCoherent db
    → Yields IsCoherent (cancel_queued_stages now job_id db)
unfolding cancel_queued_stages
cancel_queued-IsCoherent now job_id db c =
    Yields-bind _ _ λ _ _. Yields-ok _ (end_pending-IsCoherent now job_id _ db (λ e. cc) c)

pub request_cancel-IsCoherent :
    (now job_id : ℕ) (db : Db) → IsCoherent db → Yields IsCoherent (request_cancel now job_id db)
unfolding request_cancel
request_cancel-IsCoherent now job_id db c =
    Yields-then _ _ (set_job_status-IsCoherent now job_id _ _ _ db refl c)
      λ was_queued dropped kept.
        Yields-if was_queued _ _ (λ _. cancel_queued-IsCoherent now job_id dropped kept)
          λ _. cancel_started-IsCoherent now job_id dropped kept
