-- ===== src/JobStore/Ended.antt =====
-- The calls that set a status, cancel a job or recover keep every waiting stage gated by its job.
use tiktok_b2b_bot_mirror.Prelude.{
  mem-exists_row, bind-ok, ok-injective, map_err-ok, string_eq, eq_iff, subst, ◌==◌, nat_eq, ℕ, ◌≡◌,
  ◌≢◌, refl, sym, ◌∙◌, true, false, some, List, [], ◌∷◌, String, Memᴰ, contains, arith, ◌&&◌, All,
  All-mem, contains_mem, Yields, Yields-ok, Yields-bind, Yields-if, ok, ◌>>=◌,
}
use tiktok_b2b_bot_mirror.States.JobStatus
use tiktok_b2b_bot_mirror.States.JobStatus.{JobStatus, job_status_eq}
use tiktok_b2b_bot_mirror.States.Paths.{validated-name}
use tiktok_b2b_bot_mirror.JobStore.Rows.{Job, JobStage, Db, job_check, job_state}
use tiktok_b2b_bot_mirror.JobStore.Create.{is_empty}
use tiktok_b2b_bot_mirror.JobStore.Status.{
  FieldUpdate, finished_at, check_expected, is_expected, write_status, set_job_status,
}
use tiktok_b2b_bot_mirror.JobStore.Recover.{
  is_recoverable, is_lost_stage, has_recoverable_job, write_recovery, recover_interrupted,
}
use tiktok_b2b_bot_mirror.JobStore.Guards.{expected_job}
use tiktok_b2b_bot_mirror.JobStore.Gates.{
  Gate, IsWaiting, IsCoherent, update-IsCoherent, update_jobs-IsCoherent,
}

recoverable-Gate :
    (s : JobStage) (j : Job) → Gate s j → (j.id == s.job_id && is_recoverable j) ≡ true
unfolding is_recoverable
recoverable-Gate s j held = ground (arith, held.same_job, held.job_waits)

-- A waiting stage whose job is waiting is among those that a recovery fails.
lost_if_gated :
    (jobs : List Job) (s : JobStage)
    → has_recoverable_job s.job_id jobs ≡ true
    → IsWaiting s
    → is_lost_stage jobs s ≡ true
unfolding is_lost_stage
lost_if_gated jobs s found w = ground arith

has-Gate :
    (jobs : List Job) (s : JobStage) (j : Job)
    → Memᴰ j jobs
    → Gate s j
    → has_recoverable_job s.job_id jobs ≡ true
unfolding has_recoverable_job
has-Gate jobs s j m held =
    mem-exists_row (λ (k : Job). k.id == s.job_id && is_recoverable k) jobs m
      (recoverable-Gate s j held)

pub recover_interrupted-IsCoherent :
    (now : ℕ) (db : Db) → IsCoherent db → Yields IsCoherent (recover_interrupted now db)
unfolding recover_interrupted write_recovery
recover_interrupted-IsCoherent now db c = Yields-bind _ _ λ _ _. Yields-bind _ _ λ _ _.
    Yields-bind _ _ λ _ _. Yields-bind _ _ λ _ _. Yields-bind _ _ λ _ _. Yields-ok _ (record {
      gate =
          (update-IsCoherent is_recoverable _ (is_lost_stage db.jobs) _ db (λ s _ w. absurd (cc))
            (λ s j m miss w held.
              absurd (cc (lost_if_gated db.jobs s (has-Gate db.jobs s j m held) w)))
            c).gate;
    })

validated_text :
    (text : String) (c : JobStatus)
    → job_check (JobStatus.validate_job_status text) ≡ ok c
    → text ≡ JobStatus.name c
validated_text text c h = validated-name text c (map_err-ok job_state _ c h)

waiting_name :
    (c : JobStatus) → c ≡ JobStatus.waiting_decision → JobStatus.name c ≡ "waiting_decision"
unfolding JobStatus.name
waiting_name c w = rw w

-- The statuses that a list of texts without `waiting_decision` lets through.
check_expected-awake :
    (texts : List String) (target : JobStatus) (known : List JobStatus)
    → check_expected texts target ≡ ok known
    → contains "waiting_decision" texts ≡ false
    → All (λ c. c ≢ JobStatus.waiting_decision) known
unfolding check_expected
check_expected-awake [] target [] h free = tt
check_expected-awake [] target (k ∷ ks) h free = absurd (ground arith)
check_expected-awake (text ∷ rest) target known h free =
    let (c, named, h1) = bind-ok _ _ known h in
    let (_, _, h2) = bind-ok _ _ known h1 in
    let (others, sound, h3) = bind-ok _ _ known h2 in
    subst (All (λ k. k ≢ JobStatus.waiting_decision)) (ok-injective h3) (
      awake text c named free,
      check_expected-awake rest target others sound (later text rest free),
    )
  where
    awake :
        (text : String) (c : JobStatus)
        → job_check (JobStatus.validate_job_status text) ≡ ok c
        → contains "waiting_decision" (text ∷ rest) ≡ false
        → c ≢ JobStatus.waiting_decision
    awake text c named free w =
        let same : text ≡ "waiting_decision" = validated_text text c named ∙ waiting_name c w in
        let hit : ("waiting_decision" == text) ≡ true = (eq_iff _ _).1 (sym same) in
        cc (rw hit at free)

    later :
        (text : String) (rest : List String)
        → contains "waiting_decision" (text ∷ rest) ≡ false
        → contains "waiting_decision" rest ≡ false
    later text rest free = ground arith

-- Statuses other than waiting are written over statuses other than waiting.
pub write_status-IsCoherent :
    (now job_id : ℕ) (target : JobStatus) (known : List JobStatus) (us : List FieldUpdate) (db : Db)
    → All (λ c. c ≢ JobStatus.waiting_decision) known
    → IsCoherent db
    → IsCoherent (write_status now job_id target known us db).1
unfolding write_status
write_status-IsCoherent now job_id target known us db awake c =
    update_jobs-IsCoherent (is_expected job_id known) _ db
      (λ j h w.
        All-mem (λ k. k ≢ JobStatus.waiting_decision) known awake
          (contains_mem j.status known (expected_job job_id known j h).1) w)
      c

pub set_job_status-IsCoherent :
    (now job_id : ℕ) (status : String) (texts : List String) (us : List FieldUpdate) (db : Db)
    → contains "waiting_decision" texts ≡ false
    → IsCoherent db
    → Yields IsCoherent (set_job_status now job_id status (some texts) us db)
unfolding set_job_status
set_job_status-IsCoherent now job_id status texts us db free c = Yields-bind _ _ λ target _.
    Yields-bind _ _ λ _ _. Yields-bind _ _ λ _ _.
      Yields-if (is_empty texts) _ _ (λ _. Yields-ok _ c)
        λ _. Yields-bind _ _ λ _ _. Yields-bind _ _ λ known sound. Yields-ok _ (
          write_status-IsCoherent now job_id target known us db
            (check_expected-awake texts target known sound free) c)

-- `request_cancel` on a waiting job: what its second attempt writes.
pub cancel_waiting_write :
    (now job_id : ℕ) (db : Db)
    → set_job_status now job_id "cancelled"
        (some ("waiting_decision" ∷ []))
        (finished_at (some now) ∷ [])
        db
      ≡ ok (
          write_status now job_id JobStatus.cancelled
            (JobStatus.waiting_decision ∷ [])
            (finished_at (some now) ∷ [])
            db)
unfolding set_job_status JobStatus.validate_job_status JobStatus.validate_known_transition ◌>>=◌
cancel_waiting_write now job_id db = refl
