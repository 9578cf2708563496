-- ===== src/JobService/Retried.antt =====
-- What the retry of a job runs, and what it copies.
use tiktok_b2b_bot_mirror.Prelude.{
  ℕ, String, Bool, true, false, Bool-cases, Option, none, some, Option-cases, List, [], ◌∷◌, ◌++◌,
  All, ◌↔◌, contains_mem, mem_cases, ◌≡◌, refl, ap, inl, inr, ok, bind-ok, raise_if-not,
  or_raise-ok, arith,
}
use tiktok_b2b_bot_mirror.States.JobStatus.{JobStatus, job_status_eq}
use tiktok_b2b_bot_mirror.States.Stage.{stage_eq}
use tiktok_b2b_bot_mirror.States.StageStatus.{StageStatus, stage_status_eq}
use tiktok_b2b_bot_mirror.JobStore.Rows.{Job, JobStage}
use tiktok_b2b_bot_mirror.JobStore.Claim.{get_job}
use tiktok_b2b_bot_mirror.Acquisition.Store.{get_campaign}
use tiktok_b2b_bot_mirror.JobService.Rows.{Account, Availability, Tables}
use tiktok_b2b_bot_mirror.JobService.Calls.{
  ordered_stages, from_first, is_failed_stage, stage_names, is_retryable, retryable_statuses,
  stages_from_failed, retry_request, retry_job,
}
use tiktok_b2b_bot_mirror.JobService.Ordered.{IsStageList, ordered-IsStageList}
use tiktok_b2b_bot_mirror.JobService.Requested.{IsRetryOf, IsAsked-IsRetryOf}
use tiktok_b2b_bot_mirror.JobService.Created.{Created, create_job-Created}

pub data IsRetryable : JobStatus → Type 0 where
  failed : IsRetryable JobStatus.failed
  partial_failed : IsRetryable JobStatus.partial_failed
  interrupted : IsRetryable JobStatus.interrupted

pub retryable : (status : JobStatus) → is_retryable status ≡ true → IsRetryable status
unfolding is_retryable
retryable status h = elim (mem_cases (contains_mem status retryable_statuses h)) [
  | inl e ↦ rw e IsRetryable.failed
  | inr m ↦ elim (mem_cases m) [
    | inl e ↦ rw e IsRetryable.partial_failed
    | inr n ↦ elim (mem_cases n) [ inl e ↦ rw e IsRetryable.interrupted | inr o ↦ elim o [ ] ]
  ]
]

-- `rest` is `rows` from the first one on that is `P`.
pub record Suffix (P : JobStage → Type 0) (rows rest : List JobStage) : Type 0 where
  pub done : List JobStage
  pub here : JobStage
  pub later : List JobStage
  pub split : rows ≡ done ++ here ∷ later
  pub starts : rest ≡ here ∷ later
  pub before : All (λ s. ¬ (P s)) done
  pub passes : P here

untested :
    (p : JobStage → Bool) (P : JobStage → Type 0)
    → ((s : JobStage) → (p s ≡ true) ↔ P s)
    → (s : JobStage) → p s ≡ false
    → ¬ (P s)
untested p P tests s e h = cc (e, (tests s).1 h)

pub from_first-Suffix :
    (p : JobStage → Bool) (P : JobStage → Type 0)
    → ((s : JobStage) → (p s ≡ true) ↔ P s)
    → (rows rest : List JobStage) → from_first p rows ≡ some rest
    → Suffix P rows rest
unfolding from_first
from_first-Suffix p P tests [] rest h = cc
from_first-Suffix p P tests (s ∷ rows) rest h = elim (Bool-cases (p s)) [
  | inl e ↦
      let found : rest ≡ s ∷ rows = ground (arith, e) in
      record {
        done = [];
        here = s;
        later = rows;
        split = refl;
        starts = found;
        before = tt;
        passes = (tests s).0 e;
      }
  | inr e ↦
      let f = from_first-Suffix p P tests rows rest (ground (arith, e)) in
      record {
        done = s ∷ f.done;
        here = f.here;
        later = f.later;
        split = ap (λ ys. s ∷ ys) f.split;
        starts = f.starts;
        before = (untested p P tests s e, f.before);
        passes = f.passes;
      }
]

from_first-none :
    (p : JobStage → Bool) (P : JobStage → Type 0)
    → ((s : JobStage) → (p s ≡ true) ↔ P s)
    → (rows : List JobStage) → from_first p rows ≡ none
    → All (λ s. ¬ (P s)) rows
unfolding from_first
from_first-none p P tests [] h = tt
from_first-none p P tests (s ∷ rows) h = elim (Bool-cases (p s)) [
  | inl e ↦ absurd (ground (arith, e))
  | inr e ↦ (untested p P tests s e, from_first-none p P tests rows (ground (arith, e)))
]

abbrev pub HasFailed : JobStage → Type 0
HasFailed s = s.status ≡ StageStatus.failed

is_failed_stage-HasFailed : (s : JobStage) → (is_failed_stage s ≡ true) ↔ HasFailed s
unfolding is_failed_stage
is_failed_stage-HasFailed s = stage_status_eq.equals_iff s.status StageStatus.failed

-- The stages of the retry of an ordinary job: from the first failed one on, or all of them.
pub data Resumes (rows : List JobStage) : List String → Type 0 where
  from_failed :
      (rest : List JobStage) → Suffix HasFailed rows rest → Resumes rows (stage_names rest)
  from_start : All (λ s. ¬ (HasFailed s)) rows → Resumes rows (stage_names rows)

resumes : (rows : List JobStage) → Resumes rows (stages_from_failed rows)
unfolding stages_from_failed
resumes rows = elim (Option-cases (from_first is_failed_stage rows)) [
  | inl e ↦
      rw (e, stages_from_failed)
        (Resumes.from_start
          (from_first-none is_failed_stage HasFailed is_failed_stage-HasFailed rows e))
  | inr (rest, e) ↦
      rw (e, stages_from_failed)
        (Resumes.from_failed rest
          (from_first-Suffix is_failed_stage HasFailed is_failed_stage-HasFailed rows rest e))
]

module _ (strip lower : String → String)
    (providers : String → Option (Account → Availability)) where
  -- `j` is the retry in `w'` of the job `job_id` of `w`, over `stages`.
  pub record Retried (id now job_id : ℕ) (preflighted : Bool) (stages : List String) (w w' : Tables)
      (original j : Job) : Type 0 where
    pub found : get_job job_id w.db ≡ some original
    pub ended : IsRetryable original.status
    pub repeats : IsRetryOf id now (lower (strip original.platform)) original stages j
    pub created :
        Created strip lower providers id now preflighted (retry_request original stages) w w' j

  -- When a job without a campaign is retried, it had failed, failed in part or been interrupted; the
  -- new job has its platform (stripped and in lower case), account mode, specified account, priority
  -- and snapshot, and its id as that of the job that it retries; it runs its stages, in the
  -- order of their numbers, from the first failed one on, or all of them where none has failed. The job and its rows stay as they were.
  pub retry-Resumes :
      (id now job_id : ℕ) (w w' : Tables) (j : Job)
      → ((original : Job)
          → get_job job_id w.db ≡ some original
          → get_campaign original.id w.acquisition ≡ none)
      → retry_job strip lower providers id now job_id w ≡ ok (j, w')
      → (original : Job) × (stages : List String) × Retried id now job_id false stages w w' original
          j
        × IsStageList original.id w.db (ordered_stages original.id w.db)
        × Resumes (ordered_stages original.id w.db) stages
  unfolding retry_job
  retry-Resumes id now job_id w w' j plain h =
      let (original, got, h1) = bind-ok _ _ (j, w') h in
      let (allowed, h2) = raise_if-not _ _ _ (j, w') h1 in
      let found = or_raise-ok _ _ original got in
      let no_campaign = plain original found in
      let rows : List JobStage = ordered_stages original.id w.db in
      let h3 = rw no_campaign at h2 in
      let created = create_job-Created strip lower providers id now false _ w w' j h3 in
      (
        original,
        stages_from_failed rows,
        record {
          found = found;
          ended = retryable original.status allowed;
          repeats = IsAsked-IsRetryOf id now _ original (stages_from_failed rows) j created.asked;
          created = created;
        },
        ordered-IsStageList original.id w.db,
        resumes rows,
      )
