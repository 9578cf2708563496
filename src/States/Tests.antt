-- ===== src/States/Tests.antt =====
-- The theorems on the statuses at concrete texts.
use tiktok_b2b_bot_mirror.Prelude.{◌≡◌, ◌≢◌, ◌↔◌, refl, true, some, ok}
use tiktok_b2b_bot_mirror.States.JobStatus
use tiktok_b2b_bot_mirror.States.JobStatus.{JobStatus}
use tiktok_b2b_bot_mirror.States.StageStatus
use tiktok_b2b_bot_mirror.States.StageStatus.{StageStatus}
use tiktok_b2b_bot_mirror.States.Review
use tiktok_b2b_bot_mirror.States.Review.{Qualification, Action, JobUserStatus}
use tiktok_b2b_bot_mirror.States.Paths
use tiktok_b2b_bot_mirror.States.StagePaths
use tiktok_b2b_bot_mirror.States.Reviews.{
  IsPending, review_transition_iff, after_action, review_outcome,
}

validate_job_transition_iff_example :
    (JobStatus.validate_job_transition "running" "waiting_decision" ≡ ok true) ↔ (
      (c : JobStatus) × (t : JobStatus) × ("running" ≡ JobStatus.name c)
      × ("waiting_decision" ≡ JobStatus.name t)
      × Paths.◌⟶◌ c t)
validate_job_transition_iff_example = Paths.validate_job_transition_iff "running" "waiting_decision"

validate_stage_transition_iff_example :
    (StageStatus.validate_stage_transition "failed" "running" ≡ ok true) ↔ (
      (c : StageStatus) × (t : StageStatus) × ("failed" ≡ StageStatus.name c)
      × ("running" ≡ StageStatus.name t)
      × StagePaths.◌⟶◌ c t)
validate_stage_transition_iff_example = StagePaths.validate_stage_transition_iff "failed" "running"

terminal_iff_stuck_example : (JobStatus.is_terminal JobStatus.cancelling ≡ true) ↔ (
    (t : JobStatus)
    → ¬ (
        JobStatus.validate_job_transition (JobStatus.name JobStatus.cancelling) (JobStatus.name t)
        ≡ ok true))
terminal_iff_stuck_example = Paths.terminal_iff_stuck JobStatus.cancelling

lifecycle_ends_example :
    ((t : JobStatus) × Paths.AcceptedPath JobStatus.waiting_decision t
      × (JobStatus.is_terminal t ≡ true))
    × (Paths.AcceptedPath JobStatus.waiting_decision JobStatus.queued
        → JobStatus.waiting_decision ≡ JobStatus.queued)
lifecycle_ends_example = Paths.lifecycle_ends JobStatus.waiting_decision

review_transition_iff_example :
    (Review.validate_qualification_transition
        (Review.name Review.manual_review)
        (Review.name Review.qualified)
      ≡ ok true)
    ↔ (IsPending Review.manual_review
        × (a : Action) × (Review.qualified ≡ Review.action_target a)
        × (Review.manual_review ≢ Review.qualified))
review_transition_iff_example = review_transition_iff Review.manual_review Review.qualified

review_outcome_example :
    IsPending Review.manual_review
    × (a : Action) × (Review.parse_action "approve" ≡ some a)
    × ("qualified" ≡ Review.name (Review.action_target a))
    × (Review.legacy_job_user_status "qualified" ≡ ok (after_action a))
unfolding Review.validate_human_review_action Review.validate_qualification_transition
review_outcome_example = review_outcome Review.manual_review "approve" "qualified" refl refl
