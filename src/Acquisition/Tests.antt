-- ===== src/Acquisition/Tests.antt =====
-- The theorem on reviews at a concrete candidate.
use tiktok_b2b_bot_mirror.Prelude.{String, none, some, [], ◌∷◌, refl}
use tiktok_b2b_bot_mirror.States.Review.{JobUserStatus}
use tiktok_b2b_bot_mirror.Acquisition.Candidates.{
  Candidate, Reviews, Transition, Relabel, get_candidate,
}
use tiktok_b2b_bot_mirror.Acquisition.Trails.{
  ReviewCall, review_all, IsExplained, review_all-IsExplained,
}

abbrev same_text : String → String
same_text s = s

abbrev new_candidate : Candidate
new_candidate = record {
  job_id = 3;
  user_id = 8;
  status = JobUserStatus.pending;
  qualification_status = "manual_review";
  labels_json = [];
  priority = 3;
  manually_confirmed_at = none;
  review_version = 0;
  updated_at = 1;
}

abbrev one_candidate : Reviews
one_candidate = record { candidates = new_candidate ∷ []; audits = []; next_audit_id = 1 }

abbrev approval : Transition
approval = record {
  target_status = "qualified";
  action = "approve";
  operator = "ann";
  reason = "";
  labels = none;
  priority = some 1;
  expected_version = some 1;
}

abbrev relabelling : Relabel
relabelling = record {
  labels = "tools" ∷ [];
  operator = "ann";
  reason = "";
  expected_version = none;
}

review_all-IsExplained_example : IsExplained same_text 3 8 new_candidate one_candidate (
    review_all same_text 3 8
      (ReviewCall.relabels 4 relabelling ∷ ReviewCall.transitions 5 approval ∷ [])
      one_candidate)
unfolding get_candidate
review_all-IsExplained_example =
    review_all-IsExplained same_text 3 8
      (ReviewCall.relabels 4 relabelling ∷ ReviewCall.transitions 5 approval ∷ []) new_candidate
      one_candidate refl
