-- ===== src/States/Review.antt =====
-- models/pipeline_states.py, the review part: qualification statuses and their transitions, the
-- targets of the human review actions, and the status of the older candidate table.
use tiktok_b2b_bot_mirror.Prelude.{
  String, Comparable, ◌==◌, from_discrete, Bool, true, Option, List, [], ◌∷◌, contains, find_name,
  Result, ok, raise_if, or_raise, not, ◌>>=◌, ◌>>◌, string_eq,
}

pub data Qualification : Type 0 where
  qualified manual_review need_enrichment rejected : Qualification

unfoldable pub Qualification-discrete : Discrete Qualification
Qualification-discrete = hlevel

instance abbrev pub qualification_eq : Comparable Qualification
unfolding Qualification-discrete
qualification_eq = from_discrete Qualification-discrete

unfoldable pub name : Qualification → String
name qualified = "qualified"
name manual_review = "manual_review"
name need_enrichment = "need_enrichment"
name rejected = "rejected"

abbrev pub all : List Qualification
all = qualified ∷ manual_review ∷ need_enrichment ∷ rejected ∷ []

unfoldable pub parse : String → Option Qualification
unfolding find_name name
parse text = find_name name text all

-- QUALIFICATION_STATUS_TRANSITIONS
unfoldable pub transitions : Qualification → List Qualification
transitions manual_review = Qualification.qualified ∷ need_enrichment ∷ rejected ∷ []
transitions need_enrichment = manual_review ∷ qualified ∷ rejected ∷ []
transitions _ = []

-- HUMAN_REVIEW_ACTION_TARGETS
pub data Action : Type 0 where
  approve reject request_enrichment complete_enrichment : Action

unfoldable pub action_name : Action → String
action_name approve = "approve"
action_name reject = "reject"
action_name request_enrichment = "request_enrichment"
action_name complete_enrichment = "complete_enrichment"

unfoldable pub action_target : Action → Qualification
action_target approve = qualified
action_target reject = rejected
action_target request_enrichment = need_enrichment
action_target complete_enrichment = manual_review

unfoldable pub parse_action : String → Option Action
unfolding find_name action_name
parse_action text =
    find_name action_name text (approve ∷ reject ∷ request_enrichment ∷ complete_enrichment ∷ [])

pub data ReviewError : Type 0 where
  unknown_status : String → ReviewError
  invalid_transition : String → String → ReviewError
  invalid_action : String → String → ReviewError

unfoldable pub validate_qualification_status : String → Result ReviewError Qualification
unfolding parse
validate_qualification_status text = or_raise (parse text) (unknown_status text)

unfoldable pub validate_qualification_transition : String → String → Result ReviewError Bool
unfolding parse transitions Qualification-discrete ◌>>=◌
validate_qualification_transition current target = do
  c ← or_raise (parse current) (invalid_transition current target)
  t ← or_raise (parse target) (invalid_transition current target)
  raise_if (not (contains t (transitions c))) (invalid_transition current target)
  ok true

unfoldable pub validate_human_review_action : String → String → Result ReviewError Bool
unfolding parse_action name action_target ◌>>=◌
validate_human_review_action action target = do
  expected ← or_raise (parse_action action) (invalid_action action target)
  raise_if (not (name (action_target expected) == target)) (invalid_action action target)
  ok true

-- The JOB_USER_STATUS values.
pub data JobUserStatus : Type 0 where
  pending qualified rejected contacted replied : JobUserStatus

unfoldable pub legacy_status : Qualification → JobUserStatus
legacy_status qualified = JobUserStatus.qualified
legacy_status rejected = JobUserStatus.rejected
legacy_status _ = JobUserStatus.pending

unfoldable pub legacy_job_user_status : String → Result ReviewError JobUserStatus
unfolding validate_qualification_status legacy_status ◌>>=◌
legacy_job_user_status text = do
  status ← validate_qualification_status text
  ok (legacy_status status)
