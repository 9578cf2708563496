-- ===== src/Decision/Definitions.antt =====
-- CHECKPOINT_DEFINITIONS and _option_subset: the decisions that the server has registered.
use tiktok_b2b_bot_mirror.Prelude.{
  String, ◌==◌, string_eq, Bool, true, false, not, ◌&&◌, Option, none, some, List, [], ◌∷◌,
  contains, first, Result, ok, raise_if, or_raise, ◌>>◌,
}
use tiktok_b2b_bot_mirror.JobStore.Create.{is_empty, has_duplicates}

pub record CheckpointDefinition : Type 0 where
  pub kind : String
  pub option_keys : List String
  pub default_option_key : String
  pub auto_timeout : Bool

abbrev pub define : String → List String → String → CheckpointDefinition
define kind options default = record {
  kind = kind;
  option_keys = options;
  default_option_key = default;
  auto_timeout = true;
}

abbrev pub checkpoint_definitions : List CheckpointDefinition
checkpoint_definitions =
    define "insufficient_evidence"
      ("deepen_with_remaining_budget" ∷ "continue_with_current_evidence" ∷ "skip_remaining_pipeline"
        ∷ "cancel_job" ∷ [])
      "continue_with_current_evidence"
    ∷ define "qualification_review"
        ("open_review_workbench" ∷ "request_batch_enrichment" ∷ "continue_with_qualified_only" ∷ [])
        "continue_with_qualified_only"
    ∷ define "outreach_confirmation"
        ("execute_approved_outreach" ∷ "open_review_workbench" ∷ "skip_outreach" ∷ [])
        "execute_approved_outreach"
    ∷ define "strategy_review"
        ("open_strategy_workbench" ∷ "approve_all_safe_drafts" ∷ "skip_outreach" ∷ "cancel_job"
          ∷ [])
        "skip_outreach"
    ∷ define "retryable_failure" ("retry_once" ∷ "skip_stage" ∷ "stop_job" ∷ []) "retry_once"
    ∷ define "account_blocked" ("open_account_recovery" ∷ "skip_stage" ∷ "stop_job" ∷ [])
        "skip_stage"
    ∷ record {
      kind = "manual_review_session";
      option_keys = "review_complete" ∷ [];
      default_option_key = "review_complete";
      auto_timeout = false;
    }
    ∷ []

-- DecisionGateValidationError with its message.
pub data ChoiceError : Type 0 where
  invalid_choice : String → ChoiceError

unfoldable pub find_definition : String → List CheckpointDefinition → Option CheckpointDefinition
find_definition kind all = first (λ d. d.kind == kind) all

-- `_definition`
unfoldable pub definition_of : (String → String) → String → Result ChoiceError CheckpointDefinition
unfolding find_definition
definition_of strip kind =
    or_raise (find_definition (strip kind) checkpoint_definitions)
      (invalid_choice "decision kind must be registered")

unfoldable pub is_subset : List String → List String → Bool
is_subset [] all = true
is_subset (x ∷ xs) all = contains x all && is_subset xs all

-- `value if value is not None else default`
abbrev pub or_else {ℓ} : {A : Type ℓ} → Option A → A → A
or_else none default = default
or_else (some value) default = value

unfoldable pub option_subset :
    CheckpointDefinition
    → Option (List String)
    → Option String
    → Result ChoiceError (List String × String)
unfolding is_subset has_duplicates
option_subset definition option_keys default_option_key = do
  let options = or_else option_keys definition.option_keys
  raise_if
      (not (
        not (is_empty options)
        && not (has_duplicates options)
        && is_subset options definition.option_keys))
      (invalid_choice "decision options must be a registered subset")
  let default = or_else default_option_key definition.default_option_key
  raise_if (not (contains default options))
      (invalid_choice "decision default must be in the registered subset")
  ok (options, default)
