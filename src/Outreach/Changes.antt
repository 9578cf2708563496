-- ===== src/Outreach/Changes.antt =====
-- What each statement of the store does to the items.
use tiktok_b2b_bot_mirror.Prelude.{
  ℕ, ◌≡◌, ◌≢◌, refl, ◌⊎◌, inl, inr, Bool, true, false, none, some, Option, String, List, [], ◌∷◌,
  mem-append, mem_cases, contains, Grows-append, arith,
}
use tiktok_b2b_bot_mirror.Outreach.Rows.{
  Item, ItemStatus, ItemStatus-discrete, item_status_eq, pending_approval, ready, sending, sent,
  failed, uncertain, skipped, cancelled, Queue,
}
use tiktok_b2b_bot_mirror.Outreach.Store.{
  transition, is_in_state, claim_candidate, claim_next, renew, insert_or_renew, Plan, is_renewable,
  renewed, new_item, insert_pending,
}
use tiktok_b2b_bot_mirror.Outreach.Moves.{
  ◌⟶◌, ◌⟶*◌, approve, here, onward, pass_over, pass_over_ready, withdraw, withdraw_ready,
  renew_ready, renew_skipped, claim, IsFrozen, IsApproved, IsSound, ItemMove, ItemMove-refl,
  Follows, Follows-refl, update-Follows,
}

pub one_step : {s t u : ItemStatus} → s ≡ t → t ⟶ u → s ⟶* u
one_step e step = rw e (onward step here)

in_state :
    (item_id : ℕ) (from : List ItemStatus) (i : Item)
    → is_in_state item_id from i ≡ true
    → contains i.status from ≡ true
unfolding is_in_state
in_state item_id from i h = ground arith

open_status :
    (s : ItemStatus)
    → contains s (pending_approval ∷ ready ∷ []) ≡ true
    → (s ≡ pending_approval) ⊎ (s ≡ ready)
unfolding ItemStatus-discrete
open_status s h = ground arith

pub single_status : (s t : ItemStatus) → contains s (t ∷ []) ≡ true → s ≡ t
single_status s t h = ground (arith, item_status_eq.equals_iff s t)

pub transition-Follows :
    (now item_id : ℕ) (from : List ItemStatus) (to : ItemStatus) (values : Item → Item) (q : Queue)
    → ((i : Item)
        → contains i.status from ≡ true
        → ItemMove i (values (record i { status = to; updated_at = now })))
    → Follows q (transition now item_id from to values q).1
unfolding transition
transition-Follows now item_id from to values q moves =
    update-Follows (is_in_state item_id from) _ q λ i h. moves i (in_state item_id from i h)

-- A status that needs neither an authorization nor a message.
pub data IsQuiet : ItemStatus → Type 0 where
  passed_over : IsQuiet skipped
  withdrawn : IsQuiet cancelled

ended_path : (s t : ItemStatus) → (s ≡ pending_approval) ⊎ (s ≡ ready) → IsQuiet t → s ⟶* t
ended_path s t (inl e) passed_over = one_step e pass_over
ended_path s t (inr e) passed_over = one_step e pass_over_ready
ended_path s t (inl e) withdrawn = one_step e withdraw
ended_path s t (inr e) withdrawn = one_step e withdraw_ready

quiet-IsApproved : {t : ItemStatus} → IsQuiet t → ¬ (IsApproved t)
quiet-IsApproved passed_over a = elim a [ ]
quiet-IsApproved withdrawn a = elim a [ ]

quiet_sent : {t : ItemStatus} → IsQuiet t → t ≢ sent
quiet_sent passed_over = λ e. cc
quiet_sent withdrawn = λ e. cc

pub ended_moves :
    (now : ℕ) (to : ItemStatus) (error : String) (i : Item)
    → IsQuiet to
    → (i.status ≡ pending_approval) ⊎ (i.status ≡ ready)
    → ItemMove i (record i {
      status = to;
      updated_at = now;
      finished_at = some now;
      error_code = some error;
    })
ended_moves now to error i quiet was = record {
  same_id = refl;
  same_job = refl;
  same_strategy = refl;
  same_channel = refl;
  path = ended_path i.status to was quiet;
  frozen =
      λ _. record { same_user = refl; same_target = refl; same_content = refl; same_review = refl };
  sound = λ h. record {
    authorized = λ a. absurd (quiet-IsApproved quiet a);
    recorded = λ e. absurd (quiet_sent quiet e);
  };
}

pub end-Follows :
    (now : ℕ) (to : ItemStatus) (error : String) (item_id : ℕ) (q : Queue)
    → IsQuiet to
    → Follows q
        (transition now item_id
          (pending_approval ∷ ready ∷ [])
          to
          (λ i. record i { finished_at = some now; error_code = some error })
          q).1
end-Follows now to error item_id q quiet =
    transition-Follows now item_id _ to _ q
      λ i h. ended_moves now to error i quiet (open_status i.status h)

pub pass-Follows :
    (now : ℕ) (error : String) (item_id : ℕ) (q : Queue)
    → Follows q
        (transition now item_id
          (pending_approval ∷ [])
          skipped
          (λ i. record i { finished_at = some now; error_code = some error })
          q).1
pass-Follows now error item_id q = transition-Follows now item_id _ skipped _ q λ i h.
    ended_moves now skipped error i passed_over (inl (single_status i.status pending_approval h))

pub approve-Follows :
    (now : ℕ) (operator : String) (item_id : ℕ) (q : Queue)
    → Follows q
        (transition now item_id
          (pending_approval ∷ [])
          ready
          (λ i. record i {
            authorized_at = some now;
            authorized_by = some operator;
            error_code = none;
          })
          q).1
approve-Follows now operator item_id q = transition-Follows now item_id _ ready _ q λ i h. record {
  same_id = refl;
  same_job = refl;
  same_strategy = refl;
  same_channel = refl;
  path = one_step (single_status i.status pending_approval h) approve;
  frozen =
      λ _. record { same_user = refl; same_target = refl; same_content = refl; same_review = refl };
  sound = λ _. record { authorized = λ _. ((λ e. cc), (λ e. cc)); recorded = λ e. absurd (cc) };
}

-- A claimed item was ready, so an operator has authorized it.
claim_moves :
    (now : ℕ) (i : Item)
    → i.status ≡ ready
    → ItemMove i
        (record i { status = sending; updated_at = now; claimed_at = some now; error_code = none })
claim_moves now i was = record {
  same_id = refl;
  same_job = refl;
  same_strategy = refl;
  same_channel = refl;
  path = one_step was claim;
  frozen =
      λ _. record { same_user = refl; same_target = refl; same_content = refl; same_review = refl };
  sound = λ h. record {
    authorized = λ _. h.authorized (rw was IsApproved.waiting);
    recorded = λ e. absurd (cc);
  };
}

claim_candidate-Follows :
    (now : ℕ) (candidate : Option Item) (q : Queue) → Follows q (claim_candidate now candidate q).1
unfolding claim_candidate
claim_candidate-Follows now none q = Follows-refl q
claim_candidate-Follows now (some candidate) q =
    transition-Follows now candidate.id (ready ∷ []) sending
      (λ i. record i { claimed_at = some now; error_code = none }) q
      λ i h. claim_moves now i (single_status i.status ready h)

pub claim_next-Follows :
    (now job_id : ℕ) (platform : String) (q : Queue)
    → Follows q (claim_next now job_id platform q).1
unfolding claim_next
claim_next-Follows now job_id platform q = claim_candidate-Follows now _ q

renewable_status :
    (item_id : ℕ) (i : Item)
    → is_renewable item_id i ≡ true
    → (i.status ≡ pending_approval) ⊎ (i.status ≡ ready) ⊎ (i.status ≡ skipped)
unfolding is_renewable
renewable_status item_id i h = ground arith

renewed_path :
    (s : ItemStatus) → (s ≡ pending_approval) ⊎ (s ≡ ready) ⊎ (s ≡ skipped) → s ⟶* pending_approval
renewed_path s (inl e) = rw e here
renewed_path s (inr (inl e)) = one_step e renew_ready
renewed_path s (inr (inr e)) = one_step e renew_skipped

not-IsFrozen :
    (s : ItemStatus) → (s ≡ pending_approval) ⊎ (s ≡ ready) ⊎ (s ≡ skipped) → ¬ (IsFrozen s)
not-IsFrozen pending_approval was f = elim f [ ]
not-IsFrozen ready was f = elim f [ ]
not-IsFrozen skipped was f = elim f [ ]
not-IsFrozen sending was f = ground arith
not-IsFrozen sent was f = ground arith
not-IsFrozen failed was f = ground arith
not-IsFrozen uncertain was f = ground arith
not-IsFrozen cancelled was f = ground arith

new_item-IsSound : (id now : ℕ) (p : Plan) → IsSound (new_item id now p)
unfolding new_item
new_item-IsSound id now p = record { authorized = λ a. elim a [ ]; recorded = λ e. absurd (cc) }

planned_same :
    (p : Plan) (i : Item) (item_id now : ℕ)
    → is_renewable item_id i ≡ true
    → ItemMove i (renewed now p i)
unfolding renewed
planned_same p i item_id now h = record {
  same_id = refl;
  same_job = refl;
  same_strategy = refl;
  same_channel = refl;
  path = renewed_path i.status (renewable_status item_id i h);
  frozen = λ f. absurd (not-IsFrozen i.status (renewable_status item_id i h) f);
  sound = λ _. record { authorized = λ a. elim a [ ]; recorded = λ e. absurd (cc) };
}

renew-Follows :
    (now : ℕ) (p : Plan) (item_id : ℕ) (changed : Bool) (q : Queue)
    → Follows q (renew now p item_id changed q)
unfolding renew
renew-Follows now p item_id false q = Follows-refl q
renew-Follows now p item_id true q =
    update-Follows (is_renewable item_id) _ q λ i h. planned_same p i item_id now h

insert_or_renew-Follows :
    (now : ℕ) (p : Plan) (existing : Option Item) (q : Queue)
    → Follows q (insert_or_renew now p existing q).1
unfolding insert_or_renew
insert_or_renew-Follows now p none q = record {
  items = Grows-append ItemMove ItemMove-refl q.items _;
  sound = λ h i m. elim (mem-append q.items _ m) [
    | inl old ↦ h i old
    | inr new ↦ elim (mem_cases new) [
      | inl e ↦ rw e (new_item-IsSound q.next_item_id now p)
      | inr none_left ↦ elim none_left [ ]
    ]
  ];
}
insert_or_renew-Follows now p (some existing) q = renew-Follows now p existing.id _ q

pub insert_pending-Follows : (now : ℕ) (p : Plan) (q : Queue) → Follows q (insert_pending now p q).1
unfolding insert_pending
insert_pending-Follows now p q = insert_or_renew-Follows now p _ q
