-- ===== src/Outreach/Store.antt =====
-- OutreachQueueStore. The column values that `transition` takes are a function on the row.
use tiktok_b2b_bot_mirror.Prelude.{
  ℕ, zero, suc, ◌+◌, String, ◌==◌, nat_eq, string_eq, Bool, true, false, ◌&&◌, ◌||◌, not, Option,
  none, some, List, [], ◌∷◌, ◌++◌, contains, exists_row, first, select, update, if◌then◌else◌,
  length,
}
use tiktok_b2b_bot_mirror.JobStore.Rows.{Job}
use tiktok_b2b_bot_mirror.Outreach.Rows.{
  Item, ItemStatus, ItemStatus-discrete, item_status_eq, pending_approval, ready, sending, skipped,
  Channel, Channel-discrete, channel_eq, Queue,
}

-- `_scope`
unfoldable pub in_scope : ℕ → String → List Job → Item → Bool
in_scope job_id platform jobs i =
    i.job_id == job_id
    && i.platform == platform
    && exists_row (λ (j : Job). j.id == job_id && j.platform == platform) jobs

abbrev pub take : {A : Type 0} → ℕ → List A → List A
take n [] = []
take zero (x ∷ xs) = []
take (suc n) (x ∷ xs) = x ∷ take n xs

unfoldable pub has_status : Option ItemStatus → Item → Bool
unfolding ItemStatus-discrete
has_status none i = true
has_status (some s) i = i.status == s

-- `list_items` without a channel and from offset 0, as the service calls it; the page and the total.
unfoldable pub list_items : ℕ → String → Option ItemStatus → ℕ → Queue → List Item × ℕ
unfolding in_scope has_status
list_items job_id platform status limit q =
    let rows = select (λ i. in_scope job_id platform q.jobs i && has_status status i) q.items in
    (take limit rows, length rows)

unfoldable pub current : ℕ → Queue → Option Item
current item_id q = first (λ i. i.id == item_id) q.items

unfoldable pub is_in_state : ℕ → List ItemStatus → Item → Bool
unfolding ItemStatus-discrete
is_in_state item_id from i = i.id == item_id && contains i.status from

-- The result says whether the UPDATE found its row.
unfoldable pub transition :
    ℕ → ℕ → List ItemStatus → ItemStatus → (Item → Item) → Queue → Bool × Queue
unfolding is_in_state
transition now item_id from to values q = (
  exists_row (is_in_state item_id from) q.items,
  record q {
    items =
        update (is_in_state item_id from) (λ i. values (record i { status = to; updated_at = now }))
          q.items;
  },
)

-- What follows the search for a candidate.
unfoldable pub claim_candidate : ℕ → Option Item → Queue → Option Item × Queue
unfolding transition current
claim_candidate now none q = (none, q)
claim_candidate now (some candidate) q =
    let (applied, q') =
      transition now candidate.id (ready ∷ []) sending
        (λ i. record i { claimed_at = some now; error_code = none }) q in
    (if applied then current candidate.id q' else none, q')

unfoldable pub claim_next : ℕ → ℕ → String → Queue → Option Item × Queue
unfolding in_scope claim_candidate ItemStatus-discrete
claim_next now job_id platform q =
    claim_candidate now
      (first (λ i. in_scope job_id platform q.jobs i && i.status == ready) q.items) q

-- The arguments of `insert_pending`.
pub record Plan : Type 0 where
  pub job_id : ℕ
  pub strategy_id : ℕ
  pub user_id : ℕ
  pub strategy_review_version : ℕ
  pub platform : String
  pub channel : Channel
  pub target_username : String
  pub content : String

abbrev pub renewable : List ItemStatus
renewable = pending_approval ∷ ready ∷ skipped ∷ []

unfoldable pub is_none : {A : Type 0} → Option A → Bool
is_none none = true
is_none (some _) = false

unfoldable pub is_planned : Plan → Item → Bool
unfolding Channel-discrete
is_planned p i = i.job_id == p.job_id && i.strategy_id == p.strategy_id && i.channel == p.channel

unfoldable pub snapshot_changed : Plan → Item → Bool
snapshot_changed p i =
    not (i.strategy_review_version == p.strategy_review_version)
    || not (i.user_id == p.user_id)
    || not (i.platform == p.platform)
    || not (i.target_username == p.target_username)
    || not (i.content == p.content)

unfoldable pub is_renewable : ℕ → Item → Bool
unfolding ItemStatus-discrete is_none
is_renewable item_id i = i.id == item_id && contains i.status renewable && is_none i.message_id

unfoldable pub renewed : ℕ → Plan → Item → Item
renewed now p i = record i {
  user_id = p.user_id;
  strategy_review_version = p.strategy_review_version;
  platform = p.platform;
  target_username = p.target_username;
  content = p.content;
  status = pending_approval;
  authorized_at = none;
  authorized_by = none;
  claimed_at = none;
  finished_at = none;
  error_code = none;
  updated_at = now;
}

unfoldable pub new_item : ℕ → ℕ → Plan → Item
new_item id now p = record {
  id = id;
  job_id = p.job_id;
  strategy_id = p.strategy_id;
  user_id = p.user_id;
  strategy_review_version = p.strategy_review_version;
  platform = p.platform;
  channel = p.channel;
  target_username = p.target_username;
  content = p.content;
  status = pending_approval;
  message_id = none;
  authorized_at = none;
  authorized_by = none;
  claimed_at = none;
  finished_at = none;
  error_code = none;
  created_at = now;
  updated_at = now;
}

unfoldable pub renew : ℕ → Plan → ℕ → Bool → Queue → Queue
unfolding is_renewable renewed
renew now p item_id false q = q
renew now p item_id true q = record q {
  items = update (is_renewable item_id) (renewed now p) q.items;
}

-- What follows the search for an existing item.
unfoldable pub insert_or_renew : ℕ → Plan → Option Item → Queue → Bool × Queue
unfolding snapshot_changed renew new_item is_renewable
insert_or_renew now p none q = (
  true,
  record q {
    items = q.items ++ new_item q.next_item_id now p ∷ [];
    next_item_id = q.next_item_id + 1;
  },
)
insert_or_renew now p (some existing) q = (
  false,
  renew now p existing.id (snapshot_changed p existing && is_renewable existing.id existing) q,
)

unfoldable pub insert_pending : ℕ → Plan → Queue → Bool × Queue
unfolding is_planned insert_or_renew
insert_pending now p q = insert_or_renew now p (first (is_planned p) q.items) q
