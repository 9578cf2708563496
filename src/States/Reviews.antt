-- ===== src/States/Reviews.antt =====
-- What the review validators of models/pipeline_states.py accept, on texts.
use tiktok_b2b_bot_mirror.Prelude.{
  Option-cases, String, ◌≡◌, ◌≢◌, refl, ◌↔◌, inl, inr, true, some, ok, arith, eq_iff,
}
use tiktok_b2b_bot_mirror.States.Review.{
  Qualification, qualified, manual_review, need_enrichment, rejected, name, Action, approve, reject,
  request_enrichment, complete_enrichment, action_target, parse_action,
  validate_qualification_transition, validate_human_review_action, JobUserStatus,
  legacy_job_user_status,
}

-- A candidate that still waits for a human decision.
pub data IsPending : Qualification → Type 0 where
  under_review : IsPending manual_review
  under_enrichment : IsPending need_enrichment

action_for : (t : Qualification) → (a : Action) × (t ≡ action_target a)
unfolding action_target
action_for qualified = (approve, refl)
action_for manual_review = (complete_enrichment, refl)
action_for need_enrichment = (request_enrichment, refl)
action_for rejected = (reject, refl)

moves_on :
    (c t : Qualification)
    → validate_qualification_transition (name c) (name t) ≡ ok true
    → IsPending c × (c ≢ t)
unfolding validate_qualification_transition
moves_on manual_review qualified h = (under_review, λ e. cc)
moves_on manual_review need_enrichment h = (under_review, λ e. cc)
moves_on manual_review rejected h = (under_review, λ e. cc)
moves_on need_enrichment qualified h = (under_enrichment, λ e. cc)
moves_on need_enrichment manual_review h = (under_enrichment, λ e. cc)
moves_on need_enrichment rejected h = (under_enrichment, λ e. cc)
moves_on manual_review manual_review h = cc
moves_on need_enrichment need_enrichment h = cc
moves_on qualified qualified h = cc
moves_on qualified _ h = cc
moves_on rejected qualified h = cc
moves_on rejected _ h = cc

pending_moves :
    {c : Qualification} (t : Qualification)
    → IsPending c
    → c ≢ t
    → validate_qualification_transition (name c) (name t) ≡ ok true
unfolding validate_qualification_transition
pending_moves qualified under_review n = refl
pending_moves need_enrichment under_review n = refl
pending_moves rejected under_review n = refl
pending_moves manual_review under_review n = absurd (n refl)
pending_moves qualified under_enrichment n = refl
pending_moves manual_review under_enrichment n = refl
pending_moves rejected under_enrichment n = refl
pending_moves need_enrichment under_enrichment n = absurd (n refl)

-- `validate_qualification_transition` accepts the move from `c` to `t` exactly when `c` is still
-- pending and some human review action has `t` as its target, other than `c` itself.
pub review_transition_iff :
    (c t : Qualification)
    → (validate_qualification_transition (name c) (name t) ≡ ok true)
      ↔ (IsPending c × (a : Action) × (t ≡ action_target a) × (c ≢ t))
review_transition_iff c t = (
  (λ h. let (p, n) = moves_on c t h in let (a, e) = action_for t in (p, a, e, n)),
  (λ (p, a, e, n). pending_moves t p n),
)

accepts-action :
    (action target : String)
    → validate_human_review_action action target ≡ ok true
    → (a : Action) × (parse_action action ≡ some a) × (target ≡ name (action_target a))
unfolding validate_human_review_action
accepts-action action target h = elim (Option-cases (parse_action action)) [
  | inl e ↦ absurd (ground (arith, e))
  | inr (a, e) ↦ (a, e, ground (arith, eq_iff (name (action_target a)) target))
]

-- The status that `legacy_job_user_status` gives after each human action.
abbrev pub after_action : Action → JobUserStatus
after_action approve = JobUserStatus.qualified
after_action reject = JobUserStatus.rejected
after_action _ = JobUserStatus.pending

legacy_after : (a : Action) → legacy_job_user_status (name (action_target a)) ≡ ok (after_action a)
unfolding legacy_job_user_status action_target name
legacy_after approve = refl
legacy_after reject = refl
legacy_after _ = refl

-- A human action that both validators accept for a candidate in status `c` finds it pending, and
-- takes it to the target of that action; the older candidate status becomes `qualified` after
-- `approve`, `rejected` after `reject`, and `pending` after any other action.
pub review_outcome :
    (c : Qualification) (action target : String)
    → validate_human_review_action action target ≡ ok true
    → validate_qualification_transition (name c) target ≡ ok true
    → IsPending c
      × (a : Action) × (parse_action action ≡ some a)
      × (target ≡ name (action_target a))
      × (legacy_job_user_status target ≡ ok (after_action a))
review_outcome c action target h k =
    let (a, e, t) = accepts-action action target h in
    let (p, n) = moves_on c (action_target a) (rw t at k) in (p, a, e, t, rw t (legacy_after a))
