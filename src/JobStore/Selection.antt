-- ===== src/JobStore/Selection.antt =====
-- Which job `claim_next_job` takes.
use tiktok_b2b_bot_mirror.Prelude.{
  mem_cases, ap, nat_beq_iff, ◌≢◌, ℕ, ◌≡◌, refl, sym, ◌∙◌, inl, inr, true, false, none, some, List,
  [], ◌∷◌, String, Memᴰ, arith, contains, ok, bind-ok, select, select_mem, mem-select, first,
  first_mem, first-ne-none, mem-update, ◌≤◌, update, update_mem, update_row, ◌==◌, nat_eq,
  string_eq, Option-cases, Bool-cases, ◌⊎◌,
}
use tiktok_b2b_bot_mirror.States.JobStatus
use tiktok_b2b_bot_mirror.JobStore.Rows.{Job, Db}
use tiktok_b2b_bot_mirror.JobStore.Claim.{
  is_before, keep_first, least, is_claimable, is_queued_job, claim_next_job, claimed,
}

asymmetric : (a b : Job) → is_before a b ≡ true → is_before b a ≡ false
unfolding is_before
asymmetric a b h = ground arith

not_before_trans :
    (a b c : Job) → is_before a b ≡ false → is_before b c ≡ false → is_before a c ≡ false
unfolding is_before
not_before_trans a b c h k = ground arith

irreflexive : (a : Job) → is_before a a ≡ false
unfolding is_before
irreflexive a = ground arith

-- `least` finds a row of the list, and none of the list comes before it.
least_mem : (jobs : List Job) {c : Job} → least jobs ≡ some c → Memᴰ c jobs
unfolding least
least_mem [] h = cc
least_mem (j ∷ rest) {c} h = elim (Option-cases (least rest)) [
  | inl e ↦ let same : c ≡ j = ground (arith, e) in Memᴰ.head same
  | inr (k, e) ↦ elim (Bool-cases (is_before k j)) [
    | inl b ↦ let same : c ≡ k = ground (arith, e, b) in Memᴰ.tail (rw same (least_mem rest e))
    | inr b ↦ let same : c ≡ j = ground (arith, e, b) in Memᴰ.head same
  ]
]

least-ne-none : (jobs : List Job) {k : Job} → Memᴰ k jobs → least jobs ≢ none
unfolding least
least-ne-none [] m h = elim m [ ]
least-ne-none (j ∷ rest) m h = cc

-- Of the first row and the least of the rest, none of which comes before that.
keep_first_min :
    (j l c k : Job)
    → keep_first j (some l) ≡ c
    → (k ≡ j) ⊎ (is_before k l ≡ false)
    → is_before k c ≡ false
unfolding keep_first
keep_first_min j l c k h where_is = elim (Bool-cases (is_before l j)) [
  | inl b ↦
      let same : c ≡ l = sym h ∙ rw b refl in
      rw same (elim where_is [ inl e ↦ rw e (asymmetric l j b) | inr q ↦ q ])
  | inr b ↦
      let same : c ≡ j = sym h ∙ rw b refl in
      rw same (elim where_is [ inl e ↦ rw e (irreflexive j) | inr q ↦ not_before_trans k l j q b ])
]

least_min :
    (jobs : List Job) {c k : Job} → least jobs ≡ some c → Memᴰ k jobs → is_before k c ≡ false
unfolding least
least_min [] h m = cc
least_min (j ∷ rest) {c} {k} h m = elim (Option-cases (least rest)) [
  | inl e ↦ elim (mem_cases m) [
    | inl same ↦ let kept : c ≡ j = ground (arith, e) in rw (same, kept) (irreflexive j)
    | inr later ↦ absurd (least-ne-none rest later e)
  ]
  | inr (l, e) ↦
      keep_first_min j l c k (cc)
        (elim (mem_cases m) [ inl same ↦ inl same | inr later ↦ inr (least_min rest e later) ])
]

-- The primary key: two rows with one id are one row.
abbrev pub HasUniqueIds : List Job → Type 0
HasUniqueIds jobs = (j k : Job) → Memᴰ j jobs → Memᴰ k jobs → j.id ≡ k.id → j ≡ k

claimed_keeps_id :
    (now id : ℕ) (x : Job) → (update_row (is_queued_job id) (claimed now) x).id ≡ x.id
unfolding claimed
claimed_keeps_id now id x = ground arith

queued_test : (c : Job) → c.status ≡ JobStatus.queued → is_queued_job c.id c ≡ true
unfolding is_queued_job
queued_test c h = ground arith

claimable_is_queued :
    (platforms : List String) (c : Job)
    → is_claimable platforms c ≡ true
    → c.status ≡ JobStatus.queued
unfolding is_claimable
claimable_is_queued platforms c h = ground arith

-- The row that carries the id of a queued job after the `UPDATE` is that job, claimed.
claimed_row :
    (now : ℕ) (jobs : List Job) (c j : Job)
    → HasUniqueIds jobs
    → Memᴰ c jobs
    → c.status ≡ JobStatus.queued
    → first (λ k. k.id == c.id) (update (is_queued_job c.id) (claimed now) jobs) ≡ some j
    → j ≡ claimed now c
unfolding claimed
claimed_row now jobs c j unique m queued h =
    let (n, found) = first_mem (λ (k : Job). k.id == c.id) _ h in
    let (x, old, e) = update_mem (is_queued_job c.id) (claimed now) jobs n in
    let same : x ≡ c = unique x c old m (same_id x e found) in e ∙ rw (same, queued_test c queued)
  where
    same_id :
        (x : Job)
        → j ≡ update_row (is_queued_job c.id) (claimed now) x
        → (j.id == c.id) ≡ true
        → x.id ≡ c.id
    same_id x e found =
        sym (ap (λ (k : Job). k.id) e ∙ claimed_keeps_id now c.id x) ∙ (nat_beq_iff _ _).0 found

-- The order of the queue: priority, then queueing time, then creation time, then id.
pub record Precedes (c k : Job) : Type 0 where
  pub by_priority : c.priority ≤ k.priority
  pub by_queueing : c.priority ≡ k.priority → c.queued_at ≤ k.queued_at
  pub by_creation :
      c.priority ≡ k.priority → c.queued_at ≡ k.queued_at → c.created_at ≤ k.created_at
  pub by_id :
      c.priority ≡ k.priority
      → c.queued_at ≡ k.queued_at
      → c.created_at ≡ k.created_at
      → c.id ≤ k.id

not_before-Precedes : (c k : Job) → is_before k c ≡ false → Precedes c k
unfolding is_before
not_before-Precedes c k h = record {
  by_priority = ground arith;
  by_queueing = λ p. ground arith;
  by_creation = λ p q. ground arith;
  by_id = λ p q r. ground arith;
}

-- A job that `claim_next_job` may take.
pub record IsReady (platforms : List String) (j : Job) : Type 0 where
  pub waits : j.status ≡ JobStatus.queued
  pub wanted : contains j.platform platforms ≡ true

claimable-IsReady :
    (platforms : List String) (j : Job) → is_claimable platforms j ≡ true → IsReady platforms j
unfolding is_claimable
claimable-IsReady platforms j h = record { waits = ground arith; wanted = ground arith }

ready-claimable :
    (platforms : List String) (j : Job) → IsReady platforms j → is_claimable platforms j ≡ true
unfolding is_claimable
ready-claimable platforms j h = ground (arith, h.waits, h.wanted)

-- When `claim_next_job` returns a job, that is a queued job of the asked platforms that precedes
-- every other such job in the order of priority, queueing time, creation time and id; it is returned
-- with status `running`, started now, and otherwise as it was. Ids are unique.
pub claim_next_first :
    (now : ℕ) (platforms : List String) (db db' : Db) (j : Job)
    → HasUniqueIds db.jobs
    → claim_next_job now platforms db ≡ ok (some j, db')
    → (c : Job) × Memᴰ c db.jobs
      × IsReady platforms c
      × ((k : Job) → Memᴰ k db.jobs → IsReady platforms k → Precedes c k)
      × (j ≡ record c { status = JobStatus.running; started_at = some now; updated_at = now })
unfolding claim_next_job claimed
claim_next_first now [] db db' j unique h = absurd (ground arith)
claim_next_first now (p ∷ ps) db db' j unique h =
    let (_, _, h1) = bind-ok _ _ (some j, db') h in
    elim (Option-cases (least (select (is_claimable (p ∷ ps)) db.jobs))) [
      | inl e ↦ absurd (cc (rw e at h1))
      | inr (c, e) ↦
          let (m, fits) = select_mem (is_claimable (p ∷ ps)) db.jobs (least_mem _ e) in
          let ready = claimable-IsReady (p ∷ ps) c fits in
          (
            c,
            m,
            ready,
            (λ k n k_ready. not_before-Precedes c k (
                least_min _ e (
                  mem-select (is_claimable (p ∷ ps)) db.jobs n
                    (ready-claimable (p ∷ ps) k k_ready)))),
            claimed_row now db.jobs c j unique m ready.waits (cc (rw e at h1)),
          )
    ]

-- When `claim_next_job` returns no job, it has changed nothing, and no queued job is of the asked
-- platforms.
pub claim_next_none :
    (now : ℕ) (platforms : List String) (db db' : Db)
    → claim_next_job now platforms db ≡ ok (none, db')
    → (db' ≡ db) × ((k : Job) → Memᴰ k db.jobs → ¬ (IsReady platforms k))
unfolding claim_next_job
claim_next_none now [] db db' h = (ground arith, λ k m ready. absurd (ground (arith, ready.wanted)))
claim_next_none now (p ∷ ps) db db' h =
    let (_, _, h1) = bind-ok _ _ (none, db') h in
    elim (Option-cases (least (select (is_claimable (p ∷ ps)) db.jobs))) [
      | inl e ↦ (
        cc (rw e at h1),
        λ k m ready.
            least-ne-none _
              (mem-select (is_claimable (p ∷ ps)) db.jobs m (ready-claimable (p ∷ ps) k ready)) e,
      )
      | inr (c, e) ↦
          let (m, fits) = select_mem (is_claimable (p ∷ ps)) db.jobs (least_mem _ e) in
          let there : Memᴰ (update_row (is_queued_job c.id) (claimed now) c)
              (update (is_queued_job c.id) (claimed now) db.jobs) =
            mem-update (is_queued_job c.id) (claimed now) db.jobs m in
          absurd (
            first-ne-none (λ k. k.id == c.id) _ there
              ((nat_beq_iff _ _).1 (claimed_keeps_id now c.id c)) (cc (rw e at h1)))
    ]
