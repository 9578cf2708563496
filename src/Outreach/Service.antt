-- ===== src/Outreach/Service.antt =====
-- OutreachQueueService. Two things stand outside: `validated`, what StrategyResult.model_validate
-- gives for a strategy (none where it raises), and `is_blank`, whether `str.strip` leaves nothing.
use tiktok_b2b_bot_mirror.Prelude.{
  ℕ, suc, ◌+◌, String, ◌==◌, nat_eq, string_eq, Bool, true, false, ◌&&◌, ◌||◌, not, Option, none,
  some, List, [], ◌∷◌, ◌++◌, contains, exists_row, first, if◌then◌else◌, Result, ok, err, raise_if,
  or_raise, ◌>>=◌, ◌>>◌,
}
use tiktok_b2b_bot_mirror.States.JobStatus
use tiktok_b2b_bot_mirror.States.JobStatus.{JobStatus, job_status_eq}
use tiktok_b2b_bot_mirror.JobStore.Rows.{Job}
use tiktok_b2b_bot_mirror.Outreach.Rows.{
  Item, ItemStatus, ItemStatus-discrete, item_status_eq, pending_approval, ready, sending, sent,
  failed, uncertain, skipped, cancelled, Channel, comment, dm, channel_name, StrategyRow, UserRow,
  Member, MessageRow, Queue, QueueError, job_not_found, platform_mismatch, job_not_executable,
  invalid_error_code, item_not_found, message_scope_mismatch, message_taken, error_codes,
}
use tiktok_b2b_bot_mirror.Outreach.Store
use tiktok_b2b_bot_mirror.Outreach.Store.{
  list_items, current, transition, is_in_state, Plan, insert_pending,
}

pub record Templates : Type 0 where
  pub comment_template : String
  pub dm_template : String

abbrev pub page_limit : ℕ
page_limit = 100000

unfoldable pub is_executable : Job → Bool
unfolding JobStatus.JobStatus-discrete
is_executable j =
    contains j.status (JobStatus.queued ∷ JobStatus.running ∷ JobStatus.waiting_decision ∷ [])

unfoldable pub require_job : ℕ → String → Bool → Queue → Result QueueError Job
unfolding is_executable ◌>>=◌
require_job job_id platform executable q = do
  job ← or_raise (first (λ j. j.id == job_id) q.jobs) job_not_found
  raise_if (not (job.platform == platform)) platform_mismatch
  raise_if (executable && not (is_executable job)) job_not_executable
  ok job

unfoldable pub owned_by : ℕ → Option ℕ → Bool
owned_by job_id none = false
owned_by job_id (some id) = id == job_id

unfoldable pub template_for : Channel → Templates → String
template_for comment valid = valid.comment_template
template_for dm valid = valid.dm_template

module _ (validated : StrategyRow → Option Templates) (is_blank : String → Bool) where
  unfoldable pub content_error : Item → StrategyRow → Option String
  unfolding template_for
  content_error item strategy = elim (validated strategy) [
    | none ↦ some "invalid_strategy"
    | some valid ↦
        if is_blank (template_for item.channel valid)
          || not (template_for item.channel valid == item.content)
        then some "strategy_changed"
        else none
  ]

  unfoldable pub candidate_error : Item → String → StrategyRow → Queue → Option String
  unfolding content_error
  candidate_error item platform strategy q =
      elim (first (λ (u : UserRow). u.id == item.user_id) q.users) [
        | none ↦ some "candidate_platform_changed"
        | some user ↦
            if not (user.platform == platform) || not (user.username == item.target_username)
            then some "candidate_platform_changed"
            else if not (
                exists_row
                  (λ (m : Member).
                    m.job_id == item.job_id
                    && m.user_id == item.user_id
                    && m.qualification_status == "qualified")
                  q.members)
            then some "candidate_not_qualified"
            else content_error item strategy
      ]

  -- `_item_error`
  unfoldable pub item_error : Item → String → Queue → Option String
  unfolding candidate_error owned_by
  item_error item platform q =
      elim (first (λ (s : StrategyRow). s.id == item.strategy_id) q.strategies) [
        | none ↦ some "strategy_changed"
        | some strategy ↦
            if not (owned_by item.job_id strategy.job_id) || not (strategy.user_id == item.user_id)
            then some "strategy_changed"
            else if not (strategy.review_status == "approved")
            then some "strategy_not_approved"
            else if not (strategy.review_version == item.strategy_review_version)
            then some "strategy_changed"
            else candidate_error item platform strategy q
      ]

  unfoldable pub is_eligible : ℕ → String → Queue → StrategyRow → UserRow → Bool
  unfolding owned_by
  is_eligible job_id platform q s u =
      owned_by job_id s.job_id
      && s.review_status == "approved"
      && u.platform == platform
      && exists_row
          (λ (m : Member).
            m.job_id == job_id && m.user_id == s.user_id && m.qualification_status == "qualified")
          q.members

  unfoldable pub plan_for : ℕ → String → StrategyRow → UserRow → Channel → String → List Plan
  plan_for job_id platform s u channel content =
      if is_blank content
      then []
      else record {
        job_id = job_id;
        strategy_id = s.id;
        user_id = u.id;
        strategy_review_version = s.review_version;
        platform = platform;
        channel = channel;
        target_username = u.username;
        content = content;
      }
        ∷ []

  -- The items that `prepare` asks for, strategy by strategy.
  unfoldable pub plans : ℕ → String → Queue → List StrategyRow → List Plan
  unfolding is_eligible plan_for
  plans job_id platform q [] = []
  plans job_id platform q (s ∷ rest) =
      let later = plans job_id platform q rest in
      elim (first (λ (u : UserRow). u.id == s.user_id) q.users) [
        | none ↦ later
        | some u ↦
            if is_eligible job_id platform q s u
            then elim (validated s) [
              | none ↦ later
              | some valid ↦
                  plan_for job_id platform s u comment valid.comment_template
                  ++ plan_for job_id platform s u dm valid.dm_template
                  ++ later
            ]
            else later
      ]

  unfoldable pub insert_all : ℕ → List Plan → Queue → ℕ × Queue
  unfolding insert_pending
  insert_all now [] q = (0, q)
  insert_all now (p ∷ rest) q =
      let (created, q') = insert_pending now p q in
      let (more, q'') = insert_all now rest q' in (if created then suc more else more, q'')

  -- An item that may still be authorized or claimed is skipped with `error`.
  unfoldable pub skip_item : ℕ → Item → List ItemStatus → String → Queue → Bool × Queue
  unfolding transition
  skip_item now item from error q =
      transition now item.id from skipped
        (λ i. record i { finished_at = some now; error_code = some error }) q

  unfoldable pub skip_on_error : ℕ → Item → Option String → Queue → Queue
  unfolding skip_item
  skip_on_error now item none q = q
  skip_on_error now item (some error) q =
      (skip_item now item (pending_approval ∷ ready ∷ []) error q).1

  unfoldable pub skip_invalid : ℕ → String → List Item → Queue → Queue
  unfolding item_error skip_on_error ItemStatus-discrete
  skip_invalid now platform [] q = q
  skip_invalid now platform (item ∷ rest) q = skip_invalid now platform rest (
      if contains item.status (pending_approval ∷ ready ∷ [])
      then skip_on_error now item (item_error item platform q) q
      else q)

  -- The number created, and the total.
  unfoldable pub prepare : ℕ → ℕ → String → Queue → Result QueueError ((ℕ × ℕ) × Queue)
  unfolding plans insert_all skip_invalid list_items
  prepare now job_id platform q = do
    require_job job_id platform true q
    let (created, q') = insert_all now (plans job_id platform q q.strategies) q
    let (page, total) = list_items job_id platform none page_limit q'
    ok ((created, total), skip_invalid now platform page q')

  unfoldable pub authorize_item : ℕ → String → Item → Queue → Bool × Queue
  unfolding transition
  authorize_item now operator item q =
      transition now item.id (pending_approval ∷ []) ready
        (λ i. record i {
          authorized_at = some now;
          authorized_by = some operator;
          error_code = none;
        })
        q

  abbrev pub int : Bool → ℕ
  int true = 1
  int false = 0

  -- How many items it has made ready, and how many it has skipped.
  unfoldable pub settle_item : ℕ → String → Item → Option String → Queue → (ℕ × ℕ) × Queue
  unfolding authorize_item skip_item
  settle_item now operator item none q =
      let (applied, q') = authorize_item now operator item q in ((int applied, 0), q')
  settle_item now operator item (some error) q =
      let (applied, q') = skip_item now item (pending_approval ∷ []) error q in
      ((0, int applied), q')

  unfoldable pub authorize_all : ℕ → String → String → List Item → Queue → (ℕ × ℕ) × Queue
  unfolding item_error settle_item
  authorize_all now platform operator [] q = ((0, 0), q)
  authorize_all now platform operator (item ∷ rest) q =
      let ((ready_now, skipped_now), q') =
        settle_item now operator item (item_error item platform q) q in
      let ((ready_later, skipped_later), q'') = authorize_all now platform operator rest q' in
      ((ready_now + ready_later, skipped_now + skipped_later), q'')

  -- `operator` is a name that `_validated_operator` has let through.
  unfoldable pub authorize : ℕ → ℕ → String → String → Queue → Result QueueError ((ℕ × ℕ) × Queue)
  unfolding authorize_all list_items
  authorize now job_id platform operator q = do
    require_job job_id platform true q
    let (page, _) = list_items job_id platform (some pending_approval) page_limit q
    ok (authorize_all now platform operator page q)

unfoldable pub end_items : ℕ → ItemStatus → String → List Item → Queue → ℕ × Queue
unfolding transition
end_items now to error [] q = (0, q)
end_items now to error (item ∷ rest) q =
    let (applied, q') =
      transition now item.id (pending_approval ∷ ready ∷ []) to
        (λ i. record i { finished_at = some now; error_code = some error }) q in
    let (changed, q'') = end_items now to error rest q' in
    (if applied then suc changed else changed, q'')

unfoldable pub bulk_terminal :
    ℕ → ℕ → String → ItemStatus → String → Queue → Result QueueError (ℕ × Queue)
unfolding list_items end_items
bulk_terminal now job_id platform to error q = do
  require_job job_id platform false q
  let (page, _) = list_items job_id platform none page_limit q
  ok (end_items now to error page q)

unfoldable pub validated_error_code : String → Result QueueError String
unfolding ◌>>=◌
validated_error_code error_code = do
  raise_if (not (contains error_code error_codes)) invalid_error_code
  ok error_code

unfoldable pub skip : ℕ → ℕ → String → String → Queue → Result QueueError (ℕ × Queue)
unfolding bulk_terminal
skip now job_id platform error_code q = do
  code ← validated_error_code error_code
  bulk_terminal now job_id platform skipped code q

unfoldable pub cancel : ℕ → ℕ → String → Queue → Result QueueError (ℕ × Queue)
unfolding bulk_terminal
cancel now job_id platform q = bulk_terminal now job_id platform cancelled "job_cancelled" q

unfoldable pub claim_next : ℕ → ℕ → String → Queue → Result QueueError (Option Item × Queue)
unfolding Store.claim_next
claim_next now job_id platform q = do
  require_job job_id platform false q
  ok (Store.claim_next now job_id platform q)

pub data Outcome : Type 0 where
  delivered not_delivered in_doubt : Outcome

unfoldable pub parse_outcome : String → Option Outcome
parse_outcome text =
    if text == "sent"
    then some delivered
    else if text == "failed"
    then some not_delivered
    else if text == "uncertain"
    then some in_doubt
    else none

unfoldable pub outcome_status : Outcome → ItemStatus
outcome_status delivered = sent
outcome_status not_delivered = failed
outcome_status in_doubt = uncertain

-- `error_code or default_code`
unfoldable pub code_or : Option String → String → String
code_or none default = default
code_or (some code) default = if code == "" then default else code

-- The tests on the arguments; the code that is stored.
unfoldable pub outcome_code : Outcome → Option ℕ → Option String → Result QueueError (Option String)
unfolding validated_error_code code_or ◌>>=◌
outcome_code delivered none error_code = err message_scope_mismatch
outcome_code delivered (some m) none = ok none
outcome_code delivered (some m) (some code) = err invalid_error_code
outcome_code not_delivered m error_code = do
  code ← validated_error_code (code_or error_code "channel_failed")
  ok (some code)
outcome_code in_doubt m error_code = do
  code ← validated_error_code (code_or error_code "channel_uncertain")
  ok (some code)

-- The message, if there is one, is of the item's job, user and channel.
unfoldable pub check_message : Option ℕ → Item → Queue → Result QueueError (Unit {0})
unfolding channel_name owned_by
check_message none item q = ok tt
check_message (some m) item q =
    raise_if
      (not (
        exists_row
          (λ (r : MessageRow).
            r.id == m
            && owned_by item.job_id r.job_id
            && r.user_id == item.user_id
            && r.message_type == channel_name item.channel)
          q.messages))
      message_scope_mismatch

-- uq_outreach_item_message
unfoldable pub has_message : ℕ → Item → Bool
has_message m i = elim i.message_id [ none ↦ false | some n ↦ n == m ]

unfoldable pub is_taken : Option ℕ → ℕ → Queue → Bool
unfolding has_message
is_taken none item_id q = false
is_taken (some m) item_id q =
    exists_row (λ (i : Item). not (i.id == item_id) && has_message m i) q.items

unfoldable pub finalize :
    ℕ
    → ℕ
    → String
    → ℕ
    → String
    → Option ℕ
    → Option String
    → Queue
    → Result QueueError ((Bool × Option Item) × Queue)
unfolding parse_outcome outcome_status current is_taken transition is_in_state
finalize now job_id platform item_id outcome message_id error_code q = do
  kind ← or_raise (parse_outcome outcome) invalid_error_code
  code ← outcome_code kind message_id error_code
  require_job job_id platform false q
  item ← or_raise (current item_id q) item_not_found
  raise_if (not (item.job_id == job_id && item.platform == platform)) item_not_found
  check_message message_id item q
  raise_if
      (exists_row (is_in_state item_id (sending ∷ [])) q.items && is_taken message_id item_id q)
      message_taken
  let (applied, q') =
      transition now item_id (sending ∷ []) (outcome_status kind)
        (λ i. record i { message_id = message_id; finished_at = some now; error_code = code }) q
  ok ((applied, current item_id q'), q')
