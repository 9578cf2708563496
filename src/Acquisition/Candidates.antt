-- ===== src/Acquisition/Candidates.antt =====
-- AcquisitionStore.transition_candidate and update_candidate_labels: the human review of candidates,
-- with its audit. A priority is a natural number: a negative one is refused as 0 is.
use tiktok_b2b_bot_mirror.Prelude.{
  ℕ, ◌+◌, String, ◌==◌, nat_eq, string_eq, Bool, not, ◌&&◌, Option, none, some, List, [], ◌∷◌, ◌++◌,
  contains, first, rowcount, update, Result, ok, raise_if, or_raise, map_err, ◌>>=◌, ◌>>◌,
  if◌then◌else◌, leb,
}
use tiktok_b2b_bot_mirror.States.Review.{
  JobUserStatus, ReviewError, validate_qualification_transition, validate_human_review_action,
  legacy_job_user_status,
}
use tiktok_b2b_bot_mirror.Acquisition.Store.{clean_list}

-- The columns of PipelineJobUser that a review reads or writes.
pub record Candidate : Type 0 where
  pub job_id : ℕ
  pub user_id : ℕ
  pub status : JobUserStatus
  pub qualification_status : String
  pub labels_json : List String
  pub priority : ℕ
  pub manually_confirmed_at : Option ℕ
  pub review_version : ℕ
  pub updated_at : ℕ

-- CandidateReviewAudit
pub record Audit : Type 0 where
  pub id : ℕ
  pub job_id : ℕ
  pub user_id : ℕ
  pub action : String
  pub before_status : String
  pub after_status : String
  pub labels_before : List String
  pub labels_after : List String
  pub priority_before : ℕ
  pub priority_after : ℕ
  pub reason : String
  pub operator : String
  pub created_at : ℕ

pub record Reviews : Type 0 where
  pub candidates : List Candidate
  pub audits : List Audit
  pub next_audit_id : ℕ

pub data CandidateError : Type 0 where
  candidate_not_found changed_concurrently empty_operator empty_action : CandidateError
  priority_out_of_range : CandidateError
  in_review : ReviewError → CandidateError

-- The arguments of `transition_candidate` after the candidate.
pub record Transition : Type 0 where
  pub target_status : String
  pub action : String
  pub operator : String
  pub reason : String
  pub labels : Option (List String)
  pub priority : Option ℕ
  pub expected_version : Option ℕ

-- The arguments of `update_candidate_labels` after the candidate.
pub record Relabel : Type 0 where
  pub labels : List String
  pub operator : String
  pub reason : String
  pub expected_version : Option ℕ

-- `session.get(PipelineJobUser, (job_id, user_id))`
unfoldable pub is_candidate : ℕ → ℕ → Candidate → Bool
is_candidate job_id user_id c = c.job_id == job_id && c.user_id == user_id

unfoldable pub get_candidate : ℕ → ℕ → Reviews → Option Candidate
unfolding is_candidate
get_candidate job_id user_id w = first (is_candidate job_id user_id) w.candidates

-- A value that was given, or the one that is there.
abbrev pub or_kept {ℓ} : {A : Type ℓ} → Option A → A → A
or_kept none here = here
or_kept (some value) here = value

abbrev pub review_check : {A : Type 0} → Result ReviewError A → Result CandidateError A
review_check = map_err in_review

unfoldable pub is_unreviewed : ℕ → ℕ → String → ℕ → Candidate → Bool
unfolding is_candidate
is_unreviewed job_id user_id status version c =
    is_candidate job_id user_id c && c.qualification_status == status && c.review_version == version

unfoldable pub is_version : ℕ → ℕ → ℕ → Candidate → Bool
unfolding is_candidate
is_version job_id user_id version c = is_candidate job_id user_id c && c.review_version == version

abbrev pub confirming : List String
confirming = "qualified" ∷ "rejected" ∷ []

module _ (strip : String → String) where
  unfoldable pub labels_of : Option (List String) → List String → List String
  labels_of none before = before
  labels_of (some labels) before = clean_list strip labels

  -- The values of the UPDATE, where the row is the one that was read.
  unfoldable pub reviewed : ℕ → JobUserStatus → ℕ → Transition → Candidate → Candidate
  unfolding labels_of
  reviewed now status version t c = record c {
    qualification_status = t.target_status;
    status = status;
    updated_at = now;
    review_version = version + 1;
    labels_json = labels_of t.labels c.labels_json;
    priority = or_kept t.priority c.priority;
    manually_confirmed_at =
        if contains t.target_status confirming then some now else c.manually_confirmed_at;
  }

  unfoldable pub transition_candidate :
      ℕ → ℕ → ℕ → Transition → Reviews → Result CandidateError (Audit × Reviews)
  unfolding get_candidate is_unreviewed reviewed labels_of
  transition_candidate now job_id user_id t w = do
    link ← or_raise (get_candidate job_id user_id w) candidate_not_found
    raise_if (not (or_kept t.expected_version link.review_version == link.review_version))
        changed_concurrently
    review_check (validate_qualification_transition link.qualification_status t.target_status)
    review_check (validate_human_review_action t.action t.target_status)
    raise_if (strip t.operator == "") empty_operator
    raise_if (strip t.action == "") empty_action
    raise_if
        (not (leb 1 (or_kept t.priority link.priority) && leb (or_kept t.priority link.priority) 5))
        priority_out_of_range
    status ← review_check (legacy_job_user_status t.target_status)
    raise_if
        (not (
          rowcount (is_unreviewed job_id user_id link.qualification_status link.review_version)
            w.candidates
          == 1))
        changed_concurrently
    let audit : Audit = record {
      id = w.next_audit_id;
      job_id = job_id;
      user_id = user_id;
      action = strip t.action;
      before_status = link.qualification_status;
      after_status = t.target_status;
      labels_before = link.labels_json;
      labels_after = labels_of t.labels link.labels_json;
      priority_before = link.priority;
      priority_after = or_kept t.priority link.priority;
      reason = t.reason;
      operator = strip t.operator;
      created_at = now;
    }
    ok (
      audit,
      record {
        candidates =
            update (is_unreviewed job_id user_id link.qualification_status link.review_version)
              (reviewed now status link.review_version t) w.candidates;
        audits = w.audits ++ audit ∷ [];
        next_audit_id = w.next_audit_id + 1;
      },
    )

  unfoldable pub relabelled : ℕ → ℕ → Relabel → Candidate → Candidate
  relabelled now version r c = record c {
    labels_json = clean_list strip r.labels;
    updated_at = now;
    review_version = version + 1;
  }

  unfoldable pub update_candidate_labels :
      ℕ → ℕ → ℕ → Relabel → Reviews → Result CandidateError (Audit × Reviews)
  unfolding get_candidate is_version relabelled
  update_candidate_labels now job_id user_id r w = do
    link ← or_raise (get_candidate job_id user_id w) candidate_not_found
    raise_if (strip r.operator == "") empty_operator
    raise_if (not (or_kept r.expected_version link.review_version == link.review_version))
        changed_concurrently
    raise_if (not (rowcount (is_version job_id user_id link.review_version) w.candidates == 1))
        changed_concurrently
    let audit : Audit = record {
      id = w.next_audit_id;
      job_id = job_id;
      user_id = user_id;
      action = "update_labels";
      before_status = link.qualification_status;
      after_status = link.qualification_status;
      labels_before = link.labels_json;
      labels_after = clean_list strip r.labels;
      priority_before = link.priority;
      priority_after = link.priority;
      reason = r.reason;
      operator = strip r.operator;
      created_at = now;
    }
    ok (
      audit,
      record {
        candidates =
            update (is_version job_id user_id link.review_version)
              (relabelled now link.review_version r) w.candidates;
        audits = w.audits ++ audit ∷ [];
        next_audit_id = w.next_audit_id + 1;
      },
    )
