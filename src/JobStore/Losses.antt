-- ===== src/JobStore/Losses.antt =====
-- What a recovery has to find and to write, independent of how it looks for it.
use tiktok_b2b_bot_mirror.Prelude.{
  ℕ, suc, ◌≡◌, ◌↔◌, refl, inl, inr, Bool, true, some, none, List, [], ◌∷◌, Memᴰ, mem_cases,
  contains, contains_mem, ◌==◌, nat_eq, nat_beq_iff, update, exists_row_mem, mem-exists_row,
  rowcount, arith, ◌&&◌, Bool-cases,
}
use tiktok_b2b_bot_mirror.States.JobStatus.{JobStatus, job_status_eq}
use tiktok_b2b_bot_mirror.States.StageStatus.{StageStatus, stage_status_eq}
use tiktok_b2b_bot_mirror.JobStore.Rows.{
  Job, JobStage, Checkpoint, CheckpointStatus, checkpoint_status_eq, ResolutionSource, Db,
}
use tiktok_b2b_bot_mirror.JobStore.Cancel.{cancelled_checkpoint}
use tiktok_b2b_bot_mirror.JobStore.Recover.{
  is_recoverable, recoverable_statuses, is_lost_stage, is_lost_checkpoint, has_recoverable_job,
  write_recovery,
}

-- The statuses of a job that was at work when the service stopped.
pub data IsAtWork : JobStatus → Type 0 where
  running : IsAtWork JobStatus.running
  cancelling : IsAtWork JobStatus.cancelling
  waiting : IsAtWork JobStatus.waiting_decision

pub at_work_iff : (j : Job) → (is_recoverable j ≡ true) ↔ IsAtWork j.status
unfolding is_recoverable
at_work_iff j = (at_work j.status, λ w. listed j.status w)
  where
    at_work : (s : JobStatus) → contains s recoverable_statuses ≡ true → IsAtWork s
    at_work s h = elim (mem_cases (contains_mem s recoverable_statuses h)) [
      | inl e ↦ rw e running
      | inr m ↦ elim (mem_cases m) [
        | inl e ↦ rw e cancelling
        | inr n ↦ elim (mem_cases n) [ inl e ↦ rw e waiting | inr o ↦ elim o [ ] ]
      ]
    ]

    listed : (s : JobStatus) → IsAtWork s → contains s recoverable_statuses ≡ true
    listed _ running = refl
    listed _ cancelling = refl
    listed _ waiting = refl

-- The job of the id was at work.
pub record IsLost (jobs : List Job) (job_id : ℕ) : Type 0 where
  pub job : Job
  pub there : Memᴰ job jobs
  pub named : job.id ≡ job_id
  pub working : IsAtWork job.status

has_recoverable_job-IsLost :
    (jobs : List Job) (job_id : ℕ) → (has_recoverable_job job_id jobs ≡ true) ↔ IsLost jobs job_id
unfolding has_recoverable_job
has_recoverable_job-IsLost jobs job_id = (
  λ h.
      let (j, m, found) = exists_row_mem (λ (k : Job). k.id == job_id && is_recoverable k) jobs h in
      let same : j.id ≡ job_id = ground arith in
      let hit : is_recoverable j ≡ true = ground arith in
      record { job = j; there = m; named = same; working = (at_work_iff j).0 hit },
  λ l.
      let hit : is_recoverable l.job ≡ true = (at_work_iff l.job).1 l.working in
      let same : (l.job.id == job_id) ≡ true = (nat_beq_iff _ _).1 l.named in
      mem-exists_row (λ (k : Job). k.id == job_id && is_recoverable k) jobs l.there
        (rw (same, hit) refl),
)

-- What the recovery makes of the jobs, and how many it interrupts.
pub data Interrupts (now : ℕ) : List Job → List Job → ℕ → Type 0 where
  end : Interrupts now [] [] 0
  hit :
      {j : Job} {jobs jobs' : List Job} {n : ℕ}
      → IsAtWork j.status
      → Interrupts now jobs jobs' n
      → Interrupts now
          (j ∷ jobs)
          (record j { status = JobStatus.interrupted; finished_at = some now; updated_at = now }
            ∷ jobs')
          (suc n)
  miss :
      {j : Job} {jobs jobs' : List Job} {n : ℕ}
      → ¬ (IsAtWork j.status)
      → Interrupts now jobs jobs' n
      → Interrupts now (j ∷ jobs) (j ∷ jobs') n

interrupts :
    (now : ℕ) (jobs : List Job)
    → Interrupts now jobs
        (update is_recoverable
          (λ j. record j {
            status = JobStatus.interrupted;
            finished_at = some now;
            updated_at = now;
          })
          jobs)
        (rowcount is_recoverable jobs)
interrupts now [] = Interrupts.end
interrupts now (j ∷ jobs) = elim (Bool-cases (is_recoverable j)) [
  | inl e ↦ rw e (Interrupts.hit ((at_work_iff j).0 e) (interrupts now jobs))
  | inr e ↦ rw e (Interrupts.miss (λ w. cc (e, (at_work_iff j).1 w)) (interrupts now jobs))
]

-- Each row is at its place, changed as `f` says where it is `P`, and as it was elsewhere.
pub data Changes {A : Type 0} (P : A → Type 0) (f : A → A) : List A → List A → Type 0 where
  end : Changes P f [] []
  hit : {x : A} {xs ys : List A} → P x → Changes P f xs ys → Changes P f (x ∷ xs) (f x ∷ ys)
  miss : {x : A} {xs ys : List A} → ¬ (P x) → Changes P f xs ys → Changes P f (x ∷ xs) (x ∷ ys)

update-Changes :
    {A : Type 0} (P : A → Type 0) (f : A → A) (p : A → Bool)
    → ((x : A) → (p x ≡ true) ↔ P x)
    → (xs : List A) → Changes P f xs (update p f xs)
update-Changes P f p tests [] = Changes.end
update-Changes P f p tests (x ∷ xs) = elim (Bool-cases (p x)) [
  | inl e ↦ rw e (Changes.hit ((tests x).0 e) (update-Changes P f p tests xs))
  | inr e ↦ rw e (Changes.miss (λ h. cc (e, (tests x).1 h)) (update-Changes P f p tests xs))
]

-- A stage was under way when its job was lost.
pub data IsLostStage (jobs : List Job) (s : JobStage) : Type 0 where
  running : s.status ≡ StageStatus.running → IsLost jobs s.job_id → IsLostStage jobs s
  waiting : s.status ≡ StageStatus.waiting_decision → IsLost jobs s.job_id → IsLostStage jobs s

pub record IsLostCheckpoint (jobs : List Job) (c : Checkpoint) : Type 0 where
  pub pending : c.status ≡ CheckpointStatus.pending
  pub lost : IsLost jobs c.job_id

is_lost_stage_iff :
    (jobs : List Job) (s : JobStage) → (is_lost_stage jobs s ≡ true) ↔ IsLostStage jobs s
unfolding is_lost_stage
is_lost_stage_iff jobs s = (
  λ h. elim (Bool-cases (has_recoverable_job s.job_id jobs)) [
    | inr e ↦ absurd (cc (rw e at h))
    | inl e ↦
        elim (mem_cases (
          contains_mem s.status (StageStatus.running ∷ StageStatus.waiting_decision ∷ [])
            (rw e at h))) [
              | inl same ↦ IsLostStage.running same ((has_recoverable_job-IsLost jobs s.job_id).0 e)
              | inr m ↦ elim (mem_cases m) [
                | inl same ↦
                    IsLostStage.waiting same ((has_recoverable_job-IsLost jobs s.job_id).0 e)
                | inr n ↦ elim n [ ]
              ]
            ]
  ],
  marked,
)
  where
    marked : IsLostStage jobs s → is_lost_stage jobs s ≡ true
    marked (IsLostStage.running same l) =
        rw ((has_recoverable_job-IsLost jobs s.job_id).1 l, same) refl
    marked (IsLostStage.waiting same l) =
        rw ((has_recoverable_job-IsLost jobs s.job_id).1 l, same) refl

is_lost_checkpoint_iff :
    (jobs : List Job) (c : Checkpoint)
    → (is_lost_checkpoint jobs c ≡ true) ↔ IsLostCheckpoint jobs c
unfolding is_lost_checkpoint
is_lost_checkpoint_iff jobs c = (
  λ h. elim (Bool-cases (has_recoverable_job c.job_id jobs)) [
    | inr e ↦ absurd (cc (rw e at h))
    | inl e ↦ record {
      pending = (checkpoint_status_eq.equals_iff c.status CheckpointStatus.pending).0 (rw e at h);
      lost = (has_recoverable_job-IsLost jobs c.job_id).0 e;
    }
  ],
  λ l. rw ((has_recoverable_job-IsLost jobs c.job_id).1 l.lost, l.pending) refl,
)

-- `db'` is what the recovery makes of `db`, and `n` the number of jobs that were at work: they are
-- interrupted, their running and waiting stages have failed, and their pending checkpoints are
-- cancelled by the system. All else is as it was.
pub record Recovered (now : ℕ) (db db' : Db) (n : ℕ) : Type 0 where
  pub jobs : Interrupts now db.jobs db'.jobs n
  pub stages :
      Changes
        (IsLostStage db.jobs)
        (λ s. record s {
          status = StageStatus.failed;
          error_message = "service interrupted";
          finished_at = some now;
        })
        db.stages
        db'.stages
  pub checkpoints :
      Changes
        (IsLostCheckpoint db.jobs)
        (λ c. record c {
          status = CheckpointStatus.cancelled;
          resolved_at = some now;
          resolution_key = none;
          resolution_source = some ResolutionSource.system;
          operator = "";
          reason = "service_interrupted";
          updated_at = now;
        })
        db.checkpoints
        db'.checkpoints
  pub same_next : db'.next_stage_id ≡ db.next_stage_id

pub write-Recovered :
    (now : ℕ) (db : Db) → Recovered now db (write_recovery now db) (rowcount is_recoverable db.jobs)
unfolding write_recovery cancelled_checkpoint
write-Recovered now db = record {
  jobs = interrupts now db.jobs;
  stages = update-Changes _ _ (is_lost_stage db.jobs) (is_lost_stage_iff db.jobs) db.stages;
  checkpoints =
      update-Changes _ _ (is_lost_checkpoint db.jobs) (is_lost_checkpoint_iff db.jobs)
        db.checkpoints;
  same_next = refl;
}
