-- ===== src/Schedule/Firing.antt =====
-- What a tick of the scheduler does.
use tiktok_b2b_bot_mirror.Prelude.{
  ℕ, ◌≤◌, ◌<◌, String, ◌==◌, nat_eq, Bool, true, false, ◌&&◌, Bool-cases, Option, List, rowcount,
  rowcount_absent, update, update_row, update_mem, ◌≡◌, ◌≢◌, refl, sym, ap, ◌∙◌, subst, inl, inr,
  ok, map_err-ok, bind-ok, ok-injective, arith,
}
use tiktok_b2b_bot_mirror.JobStore.Rows.{Job}
use tiktok_b2b_bot_mirror.JobService.Rows.{Account, Availability}
use tiktok_b2b_bot_mirror.JobService.Preflighted.{IsReady, preflight_iff}
use tiktok_b2b_bot_mirror.JobService.Created.{Created, create_job-Created}
use tiktok_b2b_bot_mirror.Schedule.Cron.{LocalTime, next_cron_run, previous_cron_run}
use tiktok_b2b_bot_mirror.Schedule.Runs.{next_is_first}
use tiktok_b2b_bot_mirror.Schedule.Tick.{
  Schedule, World, Snapshot, holds_value, is_unclaimed, advanced, schedule_request,
  claim_and_create, process,
}

and_false : (b c d : Bool) → d ≡ false → (b && c && d) ≡ false
and_false true true d h = h
and_false true false d h = refl
and_false false c d h = refl

-- The claim moves the row on: what it matched is matched no longer.
claimed_row :
    (snapshot : Snapshot) (clock latest following : ℕ) (s : Schedule)
    → snapshot.observed_next_run_at < following
    → is_unclaimed snapshot (update_row (is_unclaimed snapshot) (advanced clock latest following) s)
      ≡ false
unfolding is_unclaimed advanced holds_value
claimed_row snapshot clock latest following s later =
    let moved : (following == snapshot.observed_next_run_at) ≡ false = ground arith in
    elim (Bool-cases (is_unclaimed snapshot s)) [
      | inl e ↦ rw e (and_false (s.id == snapshot.id) s.enabled _ moved)
      | inr e ↦ rw e e
    ]

claimed_rows :
    (snapshot : Snapshot) (clock latest following : ℕ) (rows : List Schedule)
    → snapshot.observed_next_run_at < following
    → rowcount
        (is_unclaimed snapshot)
        (update (is_unclaimed snapshot) (advanced clock latest following) rows)
      ≡ 0
claimed_rows snapshot clock latest following rows later =
    rowcount_absent (is_unclaimed snapshot)
      (update (is_unclaimed snapshot) (advanced clock latest following) rows)
      λ x m.
        let (s, _, same) =
          update_mem (is_unclaimed snapshot) (advanced clock latest following) rows m in
        rw same (claimed_row snapshot clock latest following s later)

module _ (strip lower : String → String) (providers : String → Option (Account → Availability))
    (fresh : ℕ → ℕ) where
  claimed_once :
      (clock latest following : ℕ) (snapshot : Snapshot) (w w' : World)
      → claim_and_create strip lower providers fresh clock latest following snapshot w
        ≡ ok (true, w')
      → (rowcount (is_unclaimed snapshot) w.schedules ≡ 1)
        × (w'.schedules
            ≡ update (is_unclaimed snapshot) (advanced clock latest following) w.schedules)
        × (job : Job) × Created strip lower providers
            (fresh snapshot.id)
            clock
            true
            (schedule_request snapshot)
            w.tables
            w'.tables
            job
  unfolding claim_and_create
  claimed_once clock latest following snapshot w w' h =
      elim (Bool-cases (rowcount (is_unclaimed snapshot) w.schedules == 1)) [
        | inl e ↦
            let ((job, tables), c, h1) = bind-ok _ _ (true, w') (rw e at h) in
            let made = ok-injective h1 in
            let created =
              create_job-Created strip lower providers (fresh snapshot.id) clock true
                (schedule_request snapshot) w.tables tables job (map_err-ok _ _ (job, tables) c) in
            (
              (nat_eq.equals_iff _ 1).0 e,
              ap (λ d. d.1.schedules) (sym made),
              job,
              subst
                  (λ x.
                    Created strip lower providers (fresh snapshot.id) clock true
                      (schedule_request snapshot) w.tables x job)
                  (ap (λ d. d.1.tables) made) created,
            )
        | inr e ↦ absurd (not_true (ap (λ d. d.0) (ok-injective (rw e at h))))
      ]
    where
      not_true : false ≢ true
      not_true h = cc

module _ (zone_info : String → Option (ℕ → LocalTime)) (strip lower : String → String)
    (providers : String → Option (Account → Availability)) (fresh : ℕ → ℕ) where
  -- What a snapshot that was processed with a job has done.
  pub record Fired (clock now : ℕ) (snapshot : Snapshot) (w w' : World) : Type 0 where
    pub latest : ℕ
    pub following : ℕ
    pub was_run :
        previous_cron_run zone_info snapshot.cron_expression snapshot.timezone now ≡ ok latest
    pub next_run :
        next_cron_run zone_info snapshot.cron_expression snapshot.timezone now ≡ ok following
    pub future : now < following
    pub ready :
        IsReady strip lower providers snapshot.platform snapshot.account_mode snapshot.account_id
          w.tables.accounts
    pub claimed : rowcount (is_unclaimed snapshot) w.schedules ≡ 1
    pub schedules :
        w'.schedules ≡ update (is_unclaimed snapshot) (advanced clock latest following) w.schedules
    pub job : Job
    pub created :
        Created strip lower providers
          (fresh snapshot.id)
          clock
          true
          (schedule_request snapshot)
          w.tables
          w'.tables
          job

  pub process-Fired :
      (clock now : ℕ) (snapshot : Snapshot) (w w' : World)
      → process zone_info strip lower providers fresh clock now snapshot w ≡ ok (true, w')
      → Fired clock now snapshot w w'
  unfolding process
  process-Fired clock now snapshot w w' h =
      let (latest, a, h1) = bind-ok _ _ (true, w') h in
      let (following, b, h2) = bind-ok _ _ (true, w') h1 in
      let (_, c, h3) = bind-ok _ _ (true, w') h2 in
      let next = map_err-ok _ _ following b in
      let run = next_is_first zone_info _ _ now following next in
      let (once, moved, job, created) =
        claimed_once strip lower providers fresh clock latest following snapshot w w' h3 in
      record {
        latest = latest;
        following = following;
        was_run = map_err-ok _ _ latest a;
        next_run = next;
        future = run.later;
        ready =
            (preflight_iff strip lower providers snapshot.platform snapshot.account_mode
                snapshot.account_id w.tables.accounts).0
              (map_err-ok _ _ tt c);
        claimed = once;
        schedules = moved;
        job = job;
        created = created;
      }

module _ (zone_info : String → Option (ℕ → LocalTime)) (strip lower : String → String)
    (providers : String → Option (Account → Availability)) where
  -- Once a due snapshot has led to a job, another worker that processes the same snapshot later, at
  -- whatever time, on the schedules as the first one left them, does not create a second job.
  pub fires_once :
      (fresh fresh2 : ℕ → ℕ) (clock now clock2 now2 : ℕ) (snapshot : Snapshot) (w w' w2 w3 : World)
      → snapshot.observed_next_run_at ≤ now
      → process zone_info strip lower providers fresh clock now snapshot w ≡ ok (true, w')
      → w2.schedules ≡ w'.schedules
      → process zone_info strip lower providers fresh2 clock2 now2 snapshot w2 ≢ ok (true, w3)
  fires_once fresh fresh2 clock now clock2 now2 snapshot w w' w2 w3 due h same k =
      let f = process-Fired zone_info strip lower providers fresh clock now snapshot w w' h in
      let g = process-Fired zone_info strip lower providers fresh2 clock2 now2 snapshot w2 w3 k in
      let future : now < f.following = f.future in
      let again : rowcount (is_unclaimed snapshot) w2.schedules ≡ 0 =
        ap (rowcount (is_unclaimed snapshot)) (same ∙ f.schedules)
        ∙ claimed_rows snapshot clock f.latest f.following w.schedules (omega arith) in
      let once : rowcount (is_unclaimed snapshot) w2.schedules ≡ 1 = g.claimed in omega arith
