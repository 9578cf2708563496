-- ===== src/Outreach/Tests.antt =====
-- The theorems on the queue at a concrete job with an item that is sent.
use tiktok_b2b_bot_mirror.Prelude.{
  ◌≡◌, refl, String, Bool, Option, none, some, List, [], ◌∷◌, Memᴰ, ◌==◌, string_eq, ◌>>=◌,
}
use tiktok_b2b_bot_mirror.States.JobStatus
use tiktok_b2b_bot_mirror.States.Stage
use tiktok_b2b_bot_mirror.JobStore.Rows.{Job}
use tiktok_b2b_bot_mirror.Outreach.Rows.{Item, sent, comment, StrategyRow, Queue}
use tiktok_b2b_bot_mirror.Outreach.Service
use tiktok_b2b_bot_mirror.Outreach.Service.{Templates}
use tiktok_b2b_bot_mirror.Outreach.Session.{Call, run}
use tiktok_b2b_bot_mirror.Outreach.Moves.{IsFinal, SamePlan, AllSound, Follows}
use tiktok_b2b_bot_mirror.Outreach.History.{run-Follows, run-AllSound, run_final}

abbrev job : Job
job = record {
  id = 1;
  trigger_type = "manual";
  schedule_id = none;
  platform = "tiktok";
  account_mode = "auto";
  account_id = none;
  stages_json = Stage.outreach ∷ [];
  config_snapshot_json = "{}";
  status = JobStatus.running;
  current_stage = none;
  priority = 100;
  retry_of_job_id = none;
  error_summary = "";
  queued_at = 1;
  started_at = some 2;
  finished_at = none;
  created_at = 1;
  updated_at = 2;
}

abbrev strategy : StrategyRow
strategy = record {
  id = 5;
  user_id = 9;
  job_id = some 1;
  persona = "buyer";
  strategy_type = "soft_sell";
  comment_template = "Hello";
  dm_template = "";
  action_plan = "";
  priority = 3;
  review_status = "approved";
  review_version = 2;
}

-- A validation that accepts every strategy, and the blank text alone is blank.
abbrev accept_all : StrategyRow → Option Templates
accept_all s = some record { comment_template = s.comment_template; dm_template = s.dm_template }

abbrev is_empty_text : String → Bool
is_empty_text text = text == ""

abbrev queue : Queue
queue = record {
  jobs = job ∷ [];
  strategies = strategy ∷ [];
  users = record { id = 9; platform = "tiktok"; username = "ann" } ∷ [];
  members = record { job_id = 1; user_id = 9; qualification_status = "qualified" } ∷ [];
  messages = record { id = 70; user_id = 9; job_id = some 1; message_type = "comment" } ∷ [];
  items = [];
  next_item_id = 30;
}

abbrev calls : List Call
calls =
    Call.prepare 3 1 "tiktok"
    ∷ Call.authorize 4 1 "tiktok" "ann"
    ∷ Call.claim_next 5 1 "tiktok"
    ∷ Call.finalize 6 1 "tiktok" 30 "sent" (some 70) none
    ∷ []

abbrev sent_queue : Queue
sent_queue = run accept_all is_empty_text calls queue

abbrev sent_item : Item
sent_item = record {
  id = 30;
  job_id = 1;
  strategy_id = 5;
  user_id = 9;
  strategy_review_version = 2;
  platform = "tiktok";
  channel = comment;
  target_username = "ann";
  content = "Hello";
  status = sent;
  message_id = some 70;
  authorized_at = some 4;
  authorized_by = some "ann";
  claimed_at = some 5;
  finished_at = some 6;
  error_code = none;
  created_at = 3;
  updated_at = 6;
}

items-sent_queue : sent_queue.items ≡ sent_item ∷ []
unfolding run ◌>>=◌ Service.finalize Service.outcome_code Service.require_job Service.claim_next
    Service.authorize Service.prepare Service.check_message
items-sent_queue = refl

run-Follows_example : Follows queue (run accept_all is_empty_text calls queue)
run-Follows_example = run-Follows accept_all is_empty_text calls queue

run-AllSound_example : AllSound (run accept_all is_empty_text calls queue)
run-AllSound_example = run-AllSound accept_all is_empty_text calls queue λ i m. elim m [ ]

run_final_example :
    (b : Item) × Memᴰ b
      (run accept_all is_empty_text (Call.cancel 7 1 "tiktok" ∷ calls) sent_queue).items
    × (b.id ≡ 30)
    × (b.status ≡ sent)
    × SamePlan sent_item b
unfolding run ◌>>=◌ Service.finalize Service.outcome_code Service.require_job Service.claim_next
    Service.authorize Service.prepare Service.check_message
run_final_example =
    run_final accept_all is_empty_text (Call.cancel 7 1 "tiktok" ∷ calls) sent_queue sent_item
      (Memᴰ.head refl) IsFinal.delivered
