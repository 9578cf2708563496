-- ===== src/Outreach/Rows.antt =====
-- models/entities.py: OutreachItem, and what the queue reads of strategies, users, candidates and
-- messages; OutreachQueueError with its codes.
use tiktok_b2b_bot_mirror.Prelude.{ℕ, String, Comparable, from_discrete, Option, List, [], ◌∷◌}
use tiktok_b2b_bot_mirror.JobStore.Rows.{Job}

-- The values that ck_outreach_item_status allows.
pub data ItemStatus : Type 0 where
  pending_approval ready sending sent failed uncertain skipped cancelled : ItemStatus

unfoldable pub ItemStatus-discrete : Discrete ItemStatus
ItemStatus-discrete = hlevel

instance abbrev pub item_status_eq : Comparable ItemStatus
unfolding ItemStatus-discrete
item_status_eq = from_discrete ItemStatus-discrete

-- The values that ck_outreach_item_channel allows.
pub data Channel : Type 0 where
  comment dm : Channel

unfoldable pub Channel-discrete : Discrete Channel
Channel-discrete = hlevel

instance abbrev pub channel_eq : Comparable Channel
unfolding Channel-discrete
channel_eq = from_discrete Channel-discrete

unfoldable pub channel_name : Channel → String
channel_name comment = "comment"
channel_name dm = "dm"

pub record Item : Type 0 where
  pub id : ℕ
  pub job_id : ℕ
  pub strategy_id : ℕ
  pub user_id : ℕ
  pub strategy_review_version : ℕ
  pub platform : String
  pub channel : Channel
  pub target_username : String
  pub content : String
  pub status : ItemStatus
  pub message_id : Option ℕ
  pub authorized_at : Option ℕ
  pub authorized_by : Option String
  pub claimed_at : Option ℕ
  pub finished_at : Option ℕ
  pub error_code : Option String
  pub created_at : ℕ
  pub updated_at : ℕ

pub record StrategyRow : Type 0 where
  pub id : ℕ
  pub user_id : ℕ
  pub job_id : Option ℕ
  pub persona : String
  pub strategy_type : String
  pub comment_template : String
  pub dm_template : String
  pub action_plan : String
  pub priority : ℕ
  pub review_status : String
  pub review_version : ℕ

pub record UserRow : Type 0 where
  pub id : ℕ
  pub platform : String
  pub username : String

pub record Member : Type 0 where
  pub job_id : ℕ
  pub user_id : ℕ
  pub qualification_status : String

pub record MessageRow : Type 0 where
  pub id : ℕ
  pub user_id : ℕ
  pub job_id : Option ℕ
  pub message_type : String

pub record Queue : Type 0 where
  pub jobs : List Job
  pub strategies : List StrategyRow
  pub users : List UserRow
  pub members : List Member
  pub messages : List MessageRow
  pub items : List Item
  pub next_item_id : ℕ

-- OutreachQueueError by its code, and the refusal of a message id that another item has.
pub data QueueError : Type 0 where
  job_not_found platform_mismatch job_not_executable invalid_operator : QueueError
  invalid_error_code item_not_found message_scope_mismatch message_taken : QueueError

-- ERROR_MESSAGES
abbrev pub error_codes : List String
error_codes =
    "job_not_found" ∷ "platform_mismatch" ∷ "invalid_error_code" ∷ "invalid_operator"
    ∷ "item_not_found" ∷ "job_not_executable" ∷ "message_scope_mismatch" ∷ "strategy_changed"
    ∷ "strategy_not_approved" ∷ "candidate_not_qualified" ∷ "candidate_platform_changed"
    ∷ "invalid_strategy" ∷ "manual_skip" ∷ "decision_timeout" ∷ "job_cancelled"
    ∷ "daily_limit_reached" ∷ "account_unavailable" ∷ "channel_failed" ∷ "channel_uncertain" ∷ []
