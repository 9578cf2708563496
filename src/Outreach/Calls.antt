-- ===== src/Outreach/Calls.antt =====
-- What each call of the service does to the items.
use tiktok_b2b_bot_mirror.Prelude.{
  ℕ, ◌≡◌, refl, Bool, true, false, none, some, Option, String, List, [], ◌∷◌, contains, Yields,
  Yields-ok, Yields-bind, ok, ◌≢◌, if◌then◌else◌,
}
use tiktok_b2b_bot_mirror.Outreach.Rows.{
  Item, ItemStatus, item_status_eq, pending_approval, ready, sending, sent, skipped, cancelled,
  StrategyRow, Queue,
}
use tiktok_b2b_bot_mirror.Outreach.Store
use tiktok_b2b_bot_mirror.Outreach.Store.{Plan, transition}
use tiktok_b2b_bot_mirror.Outreach.Service
use tiktok_b2b_bot_mirror.Outreach.Service.{Templates, Outcome, outcome_status, outcome_code}
use tiktok_b2b_bot_mirror.Outreach.Moves.{
  ◌⟶*◌, deliver, fail, doubt, IsApproved, Follows, Follows-refl, Follows-trans,
}
use tiktok_b2b_bot_mirror.Outreach.Changes.{
  one_step, single_status, transition-Follows, IsQuiet, passed_over, withdrawn, end-Follows,
  pass-Follows, approve-Follows, claim_next-Follows, insert_pending-Follows,
}

module _ (validated : StrategyRow → Option Templates) (is_blank : String → Bool) where
  insert_all-Follows :
      (now : ℕ) (ps : List Plan) (q : Queue)
      → Follows q (Service.insert_all validated is_blank now ps q).1
  unfolding Service.insert_all
  insert_all-Follows now [] q = Follows-refl q
  insert_all-Follows now (p ∷ rest) q =
      Follows-trans (insert_pending-Follows now p q) (insert_all-Follows now rest _)

  skip_on_error-Follows :
      (now : ℕ) (item : Item) (error : Option String) (q : Queue)
      → Follows q (Service.skip_on_error validated is_blank now item error q)
  unfolding Service.skip_on_error Service.skip_item
  skip_on_error-Follows now item none q = Follows-refl q
  skip_on_error-Follows now item (some error) q =
      end-Follows now skipped error item.id q passed_over

  skip_invalid-Follows :
      (now : ℕ) (platform : String) (items : List Item) (q : Queue)
      → Follows q (Service.skip_invalid validated is_blank now platform items q)
  unfolding Service.skip_invalid
  skip_invalid-Follows now platform [] q = Follows-refl q
  skip_invalid-Follows now platform (item ∷ rest) q =
      Follows-trans (if_open (contains item.status (pending_approval ∷ ready ∷ [])))
        (skip_invalid-Follows now platform rest _)
    where
      if_open :
          (b : Bool)
          → Follows q (
              if b
              then Service.skip_on_error validated is_blank now item
                  (Service.item_error validated is_blank item platform q)
                  q
              else q)
      if_open true = skip_on_error-Follows now item _ q
      if_open false = Follows-refl q

  pub prepare-Follows :
      (now job_id : ℕ) (platform : String) (q : Queue)
      → Yields (Follows q) (Service.prepare validated is_blank now job_id platform q)
  unfolding Service.prepare
  prepare-Follows now job_id platform q = Yields-bind _ _ λ _ _. Yields-ok _ (
      Follows-trans
        (insert_all-Follows now (Service.plans validated is_blank job_id platform q q.strategies) q)
        (skip_invalid-Follows now platform
          (Store.list_items job_id platform none Service.page_limit
            (Service.insert_all validated is_blank now
              (Service.plans validated is_blank job_id platform q q.strategies) q).1).0
          _))

  settle_item-Follows :
      (now : ℕ) (operator : String) (item : Item) (error : Option String) (q : Queue)
      → Follows q (Service.settle_item validated is_blank now operator item error q).1
  unfolding Service.settle_item Service.authorize_item Service.skip_item
  settle_item-Follows now operator item none q = approve-Follows now operator item.id q
  settle_item-Follows now operator item (some error) q = pass-Follows now error item.id q

  authorize_all-Follows :
      (now : ℕ) (platform operator : String) (items : List Item) (q : Queue)
      → Follows q (Service.authorize_all validated is_blank now platform operator items q).1
  unfolding Service.authorize_all
  authorize_all-Follows now platform operator [] q = Follows-refl q
  authorize_all-Follows now platform operator (item ∷ rest) q =
      Follows-trans (settle_item-Follows now operator item _ q)
        (authorize_all-Follows now platform operator rest _)

  pub authorize-Follows :
      (now job_id : ℕ) (platform operator : String) (q : Queue)
      → Yields (Follows q) (Service.authorize validated is_blank now job_id platform operator q)
  unfolding Service.authorize
  authorize-Follows now job_id platform operator q = Yields-bind _ _ λ _ _. Yields-ok _ (
      authorize_all-Follows now platform operator
        (Store.list_items job_id platform (some pending_approval) Service.page_limit q).0 q)

end_items-Follows :
    (now : ℕ) (to : ItemStatus) (error : String) (items : List Item) (q : Queue)
    → IsQuiet to
    → Follows q (Service.end_items now to error items q).1
unfolding Service.end_items
end_items-Follows now to error [] q quiet = Follows-refl q
end_items-Follows now to error (item ∷ rest) q quiet =
    Follows-trans (end-Follows now to error item.id q quiet)
      (end_items-Follows now to error rest _ quiet)

bulk_terminal-Follows :
    (now job_id : ℕ) (platform : String) (to : ItemStatus) (error : String) (q : Queue)
    → IsQuiet to
    → Yields (Follows q) (Service.bulk_terminal now job_id platform to error q)
unfolding Service.bulk_terminal
bulk_terminal-Follows now job_id platform to error q quiet = Yields-bind _ _ λ _ _. Yields-ok _ (
    end_items-Follows now to error (Store.list_items job_id platform none Service.page_limit q).0 q
      quiet)

pub skip-Follows :
    (now job_id : ℕ) (platform code : String) (q : Queue)
    → Yields (Follows q) (Service.skip now job_id platform code q)
unfolding Service.skip
skip-Follows now job_id platform code q =
    Yields-bind _ _ λ error _. bulk_terminal-Follows now job_id platform skipped error q passed_over

pub cancel-Follows :
    (now job_id : ℕ) (platform : String) (q : Queue)
    → Yields (Follows q) (Service.cancel now job_id platform q)
unfolding Service.cancel
cancel-Follows now job_id platform q =
    bulk_terminal-Follows now job_id platform cancelled _ q withdrawn

pub claim-Follows :
    (now job_id : ℕ) (platform : String) (q : Queue)
    → Yields (Follows q) (Service.claim_next now job_id platform q)
unfolding Service.claim_next
claim-Follows now job_id platform q =
    Yields-bind _ _ λ _ _. Yields-ok _ (claim_next-Follows now job_id platform q)

-- Only an outcome with a message is `sent`.
sent-message :
    (kind : Outcome) (message : Option ℕ) (code stored : Option String)
    → outcome_code kind message code ≡ ok stored
    → outcome_status kind ≡ sent
    → message ≢ none
unfolding outcome_code outcome_status
sent-message Outcome.delivered none code stored h e = cc
sent-message Outcome.delivered (some m) code stored h e = λ k. cc
sent-message Outcome.not_delivered message code stored h e = cc
sent-message Outcome.in_doubt message code stored h e = cc

outcome_path : (s : ItemStatus) (kind : Outcome) → s ≡ sending → s ⟶* outcome_status kind
unfolding outcome_status
outcome_path s Outcome.delivered e = one_step e deliver
outcome_path s Outcome.not_delivered e = one_step e fail
outcome_path s Outcome.in_doubt e = one_step e doubt

pub finalize-Follows :
    (now job_id : ℕ) (platform : String) (item_id : ℕ) (outcome : String) (message : Option ℕ)
    (code : Option String) (q : Queue)
    → Yields (Follows q) (Service.finalize now job_id platform item_id outcome message code q)
unfolding Service.finalize
finalize-Follows now job_id platform item_id outcome message code q = Yields-bind _ _ λ kind _.
    Yields-bind _ _ λ stored accepted. Yields-bind _ _ λ _ _. Yields-bind _ _ λ _ _.
      Yields-bind _ _ λ _ _. Yields-bind _ _ λ _ _. Yields-bind _ _ λ _ _. Yields-ok _ (
        transition-Follows now item_id (sending ∷ []) (outcome_status kind)
          (λ i. record i { message_id = message; finished_at = some now; error_code = stored }) q
          λ i h.
            let was : i.status ≡ sending = single_status i.status sending h in
            record {
              same_id = refl;
              same_job = refl;
              same_strategy = refl;
              same_channel = refl;
              path = outcome_path i.status kind was;
              frozen = λ _. record {
                same_user = refl;
                same_target = refl;
                same_content = refl;
                same_review = refl;
              };
              sound = λ sound. record {
                authorized = λ _. sound.authorized (rw was IsApproved.under_way);
                recorded = λ e. sent-message kind message code stored accepted e;
              };
            })
