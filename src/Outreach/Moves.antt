-- ===== src/Outreach/Moves.antt =====
-- What a call may do to an item of the queue.
use tiktok_b2b_bot_mirror.Prelude.{
  ◌≡◌, ◌≢◌, refl, ◌∙◌, true, none, Bool, inl, inr, Memᴰ, Grows, Grows-refl, Grows-update,
  Grows-trans, update, update_mem, Bool-cases,
}
use tiktok_b2b_bot_mirror.Outreach.Rows.{
  Item, ItemStatus, pending_approval, ready, sending, sent, failed, uncertain, skipped, cancelled,
  Queue,
}

infix 40 ◌⟶◌ ◌⟶*◌
-- The life cycle of an item.
pub data ◌⟶◌ : ItemStatus → ItemStatus → Type 0 where
  approve : pending_approval ⟶ ready
  pass_over : pending_approval ⟶ skipped
  withdraw : pending_approval ⟶ cancelled
  pass_over_ready : ready ⟶ skipped
  withdraw_ready : ready ⟶ cancelled
  renew_ready : ready ⟶ pending_approval
  renew_skipped : skipped ⟶ pending_approval
  claim : ready ⟶ sending
  deliver : sending ⟶ sent
  fail : sending ⟶ failed
  doubt : sending ⟶ uncertain

pub data ◌⟶*◌ : ItemStatus → ItemStatus → Type 0 where
  here : {s : ItemStatus} → s ⟶* s
  onward : {s t u : ItemStatus} → s ⟶ t → t ⟶* u → s ⟶* u

pub ⟶*_trans : {s t u : ItemStatus} → s ⟶* t → t ⟶* u → s ⟶* u
⟶*_trans here q = q
⟶*_trans (onward e p) q = onward e (⟶*_trans p q)

-- The channel has been given the item, or the job was cancelled.
pub data IsFrozen : ItemStatus → Type 0 where
  under_way : IsFrozen sending
  delivered : IsFrozen sent
  not_delivered : IsFrozen failed
  in_doubt : IsFrozen uncertain
  withdrawn : IsFrozen cancelled

-- No call writes the status again.
pub data IsFinal : ItemStatus → Type 0 where
  delivered : IsFinal sent
  not_delivered : IsFinal failed
  in_doubt : IsFinal uncertain
  withdrawn : IsFinal cancelled

pub step-IsFrozen : {s t : ItemStatus} → s ⟶ t → IsFrozen s → IsFrozen t
step-IsFrozen deliver under_way = IsFrozen.delivered
step-IsFrozen fail under_way = IsFrozen.not_delivered
step-IsFrozen doubt under_way = IsFrozen.in_doubt
step-IsFrozen approve f = elim f [ ]
step-IsFrozen pass_over f = elim f [ ]
step-IsFrozen withdraw f = elim f [ ]
step-IsFrozen pass_over_ready f = elim f [ ]
step-IsFrozen withdraw_ready f = elim f [ ]
step-IsFrozen renew_ready f = elim f [ ]
step-IsFrozen renew_skipped f = elim f [ ]
step-IsFrozen claim f = elim f [ ]

pub path-IsFrozen : {s t : ItemStatus} → s ⟶* t → IsFrozen s → IsFrozen t
path-IsFrozen here f = f
path-IsFrozen (onward e p) f = path-IsFrozen p (step-IsFrozen e f)

pub final-IsFrozen : {s : ItemStatus} → IsFinal s → IsFrozen s
final-IsFrozen delivered = IsFrozen.delivered
final-IsFrozen not_delivered = IsFrozen.not_delivered
final-IsFrozen in_doubt = IsFrozen.in_doubt
final-IsFrozen withdrawn = IsFrozen.withdrawn

no_step : {s t : ItemStatus} → s ⟶ t → ¬ (IsFinal s)
no_step approve f = elim f [ ]
no_step _ f = elim f [ ]

pub final_absorbs : {s t : ItemStatus} → s ⟶* t → IsFinal s → t ≡ s
final_absorbs here f = refl
final_absorbs (onward e p) f = absurd (no_step e f)

-- What the channel is told: whom, what, and from which plan.
pub record SamePlan (a b : Item) : Type 0 where
  pub same_user : b.user_id ≡ a.user_id
  pub same_target : b.target_username ≡ a.target_username
  pub same_content : b.content ≡ a.content
  pub same_review : b.strategy_review_version ≡ a.strategy_review_version

pub SamePlan-refl : (a : Item) → SamePlan a a
SamePlan-refl a = record {
  same_user = refl;
  same_target = refl;
  same_content = refl;
  same_review = refl;
}

pub data IsApproved : ItemStatus → Type 0 where
  waiting : IsApproved ready
  under_way : IsApproved sending
  delivered : IsApproved sent
  not_delivered : IsApproved failed
  in_doubt : IsApproved uncertain

-- A row as it should be: nothing is ready or given to the channel that no operator has authorized,
-- and what is sent has its message.
pub record IsSound (i : Item) : Type 0 where
  pub authorized : IsApproved i.status → (i.authorized_at ≢ none) × (i.authorized_by ≢ none)
  pub recorded : i.status ≡ sent → i.message_id ≢ none

pub record ItemMove (a b : Item) : Type 0 where
  pub same_id : b.id ≡ a.id
  pub same_job : b.job_id ≡ a.job_id
  pub same_strategy : b.strategy_id ≡ a.strategy_id
  pub same_channel : b.channel ≡ a.channel
  pub path : a.status ⟶* b.status
  pub frozen : IsFrozen a.status → SamePlan a b
  pub sound : IsSound a → IsSound b

pub ItemMove-refl : (a : Item) → ItemMove a a
ItemMove-refl a = record {
  same_id = refl;
  same_job = refl;
  same_strategy = refl;
  same_channel = refl;
  path = here;
  frozen = λ _. SamePlan-refl a;
  sound = λ h. h;
}

pub ItemMove-trans : (a b c : Item) → ItemMove a b → ItemMove b c → ItemMove a c
ItemMove-trans a b c m n = record {
  same_id = n.same_id ∙ m.same_id;
  same_job = n.same_job ∙ m.same_job;
  same_strategy = n.same_strategy ∙ m.same_strategy;
  same_channel = n.same_channel ∙ m.same_channel;
  path = ⟶*_trans m.path n.path;
  frozen = λ f.
      let before = m.frozen f in
      let after = n.frozen (path-IsFrozen m.path f) in
      record {
        same_user = after.same_user ∙ before.same_user;
        same_target = after.same_target ∙ before.same_target;
        same_content = after.same_content ∙ before.same_content;
        same_review = after.same_review ∙ before.same_review;
      };
  sound = λ h. n.sound (m.sound h);
}

abbrev pub AllSound : Queue → Type 0
AllSound q = (i : Item) → Memᴰ i q.items → IsSound i

-- What a call does to the items: each moves in its place, and new ones are sound.
pub record Follows (q q' : Queue) : Type 0 where
  pub items : Grows ItemMove q.items q'.items
  pub sound : AllSound q → AllSound q'

pub Follows-refl : (q : Queue) → Follows q q
Follows-refl q = record { items = Grows-refl ItemMove ItemMove-refl q.items; sound = λ h. h }

pub Follows-trans : {a b c : Queue} → Follows a b → Follows b c → Follows a c
Follows-trans f g = record {
  items = Grows-trans ItemMove ItemMove-trans f.items g.items;
  sound = λ h. g.sound (f.sound h);
}

pub update-Follows :
    (p : Item → Bool) (f : Item → Item) (q : Queue)
    → ((i : Item) → p i ≡ true → ItemMove i (f i))
    → Follows q (record q { items = update p f q.items })
update-Follows p f q moves = record {
  items = Grows-update ItemMove p f ItemMove-refl moves q.items;
  sound = λ h b m.
      let (a, n, e) = update_mem p f q.items m in
      elim (Bool-cases (p a)) [
        | inl hit ↦ let same : b ≡ f a = e ∙ rw hit refl in rw same ((moves a hit).sound (h a n))
        | inr miss ↦ let same : b ≡ a = e ∙ rw miss refl in rw same (h a n)
      ];
}
