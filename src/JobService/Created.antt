-- ===== src/JobService/Created.antt =====
-- What a job that the service has created is.
use tiktok_b2b_bot_mirror.Prelude.{
  ℕ, String, Bool, true, false, Option, List, [], ◌∷◌, ◌++◌, map, All, ◌≡◌, sym, ap, ◌∙◌, subst,
  if◌then◌else◌, Result, ok, bind-ok, ok-injective, map_err-ok,
}
use tiktok_b2b_bot_mirror.States.Stage
use tiktok_b2b_bot_mirror.JobStore.Rows.{Job, JobStage}
use tiktok_b2b_bot_mirror.JobStore.Create.{JobRequest}
use tiktok_b2b_bot_mirror.JobStore.Requests.{create_job-rows, count_from, IsNewRow}
use tiktok_b2b_bot_mirror.JobService.Rows.{Account, Availability, Tables, ServiceError}
use tiktok_b2b_bot_mirror.JobService.Calls.{create_job}
use tiktok_b2b_bot_mirror.JobService.Requested.{IsAsked, create_job-IsAsked}
use tiktok_b2b_bot_mirror.JobService.Validated.{IsMode, IsSupported, validate_iff}
use tiktok_b2b_bot_mirror.JobService.Preflighted.{IsReady, preflight_iff}

-- `w'` is `w` with the job `j` of the request `r`, queued behind the others, and its stage rows.
pub record Created (strip lower : String → String)
    (providers : String → Option (Account → Availability)) (id now : ℕ) (preflighted : Bool)
    (r : JobRequest) (w w' : Tables) (j : Job) : Type 0 where
  pub supported : IsSupported (lower (strip r.platform))
  pub moded : IsMode r.account_mode r.account_id
  pub ready :
      preflighted ≡ false
      → IsReady strip lower providers
          (lower (strip r.platform))
          r.account_mode
          r.account_id
          w.accounts
  pub asked : IsAsked id now (lower (strip r.platform)) r j
  pub jobs : w'.db.jobs ≡ w.db.jobs ++ j ∷ []
  pub rows : List JobStage
  pub stages : w'.db.stages ≡ w.db.stages ++ rows
  pub named : map (λ s. Stage.name s.stage) rows ≡ r.stages
  pub numbered : map (λ s. s.stage_order) rows ≡ count_from 0 rows
  pub pending : All (IsNewRow id) rows
  pub same_accounts : w'.accounts ≡ w.accounts
  pub same_acquisition : w'.acquisition ≡ w.acquisition

-- The platform stands in the request of the store under its name.
requested :
    (id now : ℕ) (platform : String) (r : JobRequest) (j : Job)
    → IsAsked id now platform (record r { platform = platform }) j
    → IsAsked id now platform r j
requested id now platform r j a = record {
  identified = a.identified;
  on_platform = a.on_platform;
  in_mode = a.in_mode;
  for_account = a.for_account;
  triggered = a.triggered;
  scheduled = a.scheduled;
  ranked = a.ranked;
  repeating = a.repeating;
  configured = a.configured;
  staged = a.staged;
  waiting = a.waiting;
}

checked :
    (preflighted : Bool) (m : Result ServiceError (Unit {0}))
    → preflighted ≡ false
    → (if preflighted then ok tt else m) ≡ ok tt
    → m ≡ ok tt
checked true m e h = cc
checked false m e h = h

module _ (strip lower : String → String)
    (providers : String → Option (Account → Availability)) where
  pub create_job-Created :
      (id now : ℕ) (preflighted : Bool) (r : JobRequest) (w w' : Tables) (j : Job)
      → create_job strip lower providers id now preflighted r w ≡ ok (j, w')
      → Created strip lower providers id now preflighted r w w' j
  unfolding create_job
  create_job-Created id now preflighted r w w' j h =
      let (platform, v, h1) = bind-ok _ _ (j, w') h in
      let (_, passed, h2) = bind-ok _ _ (j, w') h1 in
      let ((k, db), stored, h3) = bind-ok _ _ (j, w') h2 in
      let (named, s, i) =
        (validate_iff strip lower r.platform r.account_mode r.account_id platform).0 v in
      let made = map_err-ok _ _ (k, db) stored in
      let request : JobRequest = record r { platform = platform } in
      let (rows, a, b, _, d, e, f) = create_job-rows id now request w.db db k made in
      let same_job : k ≡ j = ap (λ p. p.0) (ok-injective h3) in
      let same_tables : record w { db = db } ≡ w' = ap (λ p. p.1) (ok-injective h3) in
      record {
        supported = subst IsSupported named s;
        moded = i;
        ready = λ e.
            subst (λ p. IsReady strip lower providers p r.account_mode r.account_id w.accounts)
              named
              ((preflight_iff strip lower providers platform r.account_mode r.account_id
                  w.accounts).0
                (checked preflighted _ e passed));
        asked =
            subst (λ p. IsAsked id now p r j) named
              (subst (IsAsked id now platform r) same_job
                (requested id now platform r k (create_job-IsAsked id now request w.db db k made)));
        jobs = ap (λ x. x.db.jobs) (sym same_tables) ∙ a ∙ ap (λ x. w.db.jobs ++ x ∷ []) same_job;
        rows = rows;
        stages = ap (λ x. x.db.stages) (sym same_tables) ∙ b;
        named = d;
        numbered = e;
        pending = f;
        same_accounts = ap (λ x. x.accounts) (sym same_tables);
        same_acquisition = ap (λ x. x.acquisition) (sym same_tables);
      }
