-- ===== src/Schedule/Ticks.antt =====
-- The jobs that a whole tick creates.
use tiktok_b2b_bot_mirror.Prelude.{
  append_nil, append_assoc, ℕ, suc, ◌≤◌, String, ◌==◌, nat_eq, Bool, true, false, Bool-cases,
  Option, some, Option-cases, List, [], ◌∷◌, ◌++◌, length, All, Memᴰ, mem_cases, rowcount, ltb, ◌≡◌,
  refl, sym, ap, ◌∙◌, map, ◌⊎◌, inl, inr, Result, ok, err, bind-ok, ok-injective, arith,
}
use tiktok_b2b_bot_mirror.States.JobStatus
use tiktok_b2b_bot_mirror.JobStore.Rows.{Job}
use tiktok_b2b_bot_mirror.JobService.Rows.{Account, Availability}
use tiktok_b2b_bot_mirror.Schedule.Cron.{LocalTime}
use tiktok_b2b_bot_mirror.Schedule.Tick.{
  TickError, Schedule, World, Snapshot, with_next_run, snapshot_of, is_unclaimed, schedule_request,
  due_snapshots, due_schedule_snapshots, claim_and_create, process, process_all, tick,
}
use tiktok_b2b_bot_mirror.Schedule.Firing.{Fired, process-Fired}

-- The snapshot is of an enabled schedule whose next run has come.
pub record IsDue (now : ℕ) (schedules : List Schedule) (snapshot : Snapshot) : Type 0 where
  pub schedule : Schedule
  pub run : ℕ
  pub listed : Memᴰ schedule schedules
  pub enabled : schedule.enabled ≡ true
  pub next : schedule.next_run_at ≡ some run
  pub come : run ≤ now
  pub copied : snapshot ≡ snapshot_of schedule run

IsDue-weaken :
    (now : ℕ) (s : Schedule) (rest : List Schedule) (snapshot : Snapshot)
    → IsDue now rest snapshot
    → IsDue now (s ∷ rest) snapshot
IsDue-weaken now s rest snapshot d = record {
  schedule = d.schedule;
  run = d.run;
  listed = Memᴰ.tail d.listed;
  enabled = d.enabled;
  next = d.next;
  come = d.come;
  copied = d.copied;
}

pub due_snapshots-IsDue :
    (now : ℕ) (schedules : List Schedule) {snapshot : Snapshot}
    → Memᴰ snapshot (due_snapshots now schedules)
    → IsDue now schedules snapshot
unfolding due_snapshots
due_snapshots-IsDue now [] m = elim m [ ]
due_snapshots-IsDue now (s ∷ rest) {snapshot} m = elim (Bool-cases s.enabled) [
  | inr e ↦
      IsDue-weaken now s rest snapshot (due_snapshots-IsDue now rest (rw (e, due_snapshots) at m))
  | inl e ↦ elim (Option-cases s.next_run_at) [
    | inl n ↦
        IsDue-weaken now s rest snapshot
          (due_snapshots-IsDue now rest (rw (e, n, due_snapshots) at m))
    | inr (run, n) ↦ elim (Bool-cases (ltb now run)) [
      | inl l ↦
          IsDue-weaken now s rest snapshot
            (due_snapshots-IsDue now rest (rw (e, n, l, due_snapshots) at m))
      | inr l ↦ elim (mem_cases (rw (e, n, l, due_snapshots) at m)) [
        | inl same ↦ record {
          schedule = s;
          run = run;
          listed = Memᴰ.head refl;
          enabled = e;
          next = n;
          come = ground arith;
          copied = same;
        }
        | inr later ↦ IsDue-weaken now s rest snapshot (due_snapshots-IsDue now rest later)
      ]
    ]
  ]
]

-- The job is queued for a schedule of the snapshots.
pub record IsScheduled (snapshots : List Snapshot) (job : Job) : Type 0 where
  pub snapshot : Snapshot
  pub listed : Memᴰ snapshot snapshots
  pub triggered : job.trigger_type ≡ "schedule"
  pub scheduled : job.schedule_id ≡ some snapshot.id
  pub queued : job.status ≡ JobStatus.queued

-- `w'` has `created` jobs more than `w`, each of a schedule of the snapshots.
pub record JobsAdded (snapshots : List Snapshot) (w w' : World) (created : ℕ) : Type 0 where
  pub added : List Job
  pub jobs : w'.tables.db.jobs ≡ w.tables.db.jobs ++ added
  pub counted : length added ≡ created
  pub each : All (IsScheduled snapshots) added

All-weaken :
    {A : Type 0} (P Q : A → Type 0) (xs : List A) → ((x : A) → P x → Q x) → All P xs → All Q xs
All-weaken P Q [] f h = tt
All-weaken P Q (x ∷ xs) f h = (f x h.0, All-weaken P Q xs f h.1)

later_snapshots :
    (snapshot : Snapshot) (rest : List Snapshot) (job : Job)
    → IsScheduled rest job
    → IsScheduled (snapshot ∷ rest) job
later_snapshots snapshot rest job s = record {
  snapshot = s.snapshot;
  listed = Memᴰ.tail s.listed;
  triggered = s.triggered;
  scheduled = s.scheduled;
  queued = s.queued;
}

added_later :
    (snapshot : Snapshot) (rest : List Snapshot) (w w1 w' : World) (created : ℕ)
    → w1.tables ≡ w.tables
    → JobsAdded rest w1 w' created
    → JobsAdded (snapshot ∷ rest) w w' created
added_later snapshot rest w w1 w' created same a = record {
  added = a.added;
  jobs = a.jobs ∙ ap (λ t. t.db.jobs ++ a.added) same;
  counted = a.counted;
  each = All-weaken _ _ a.added (later_snapshots snapshot rest) a.each;
}

outcomes :
    (r : Result TickError (Bool × World))
    → ((e : TickError) × (r ≡ err e))
      ⊎ ((w : World) × (r ≡ ok (false, w)))
      ⊎ ((w : World) × (r ≡ ok (true, w)))
outcomes (err e) = inl (e, refl)
outcomes (ok (false, w)) = inr (inl (w, refl))
outcomes (ok (true, w)) = inr (inr (w, refl))

-- The job is queued for an enabled schedule whose next run has come.
pub record IsForDue (now : ℕ) (schedules : List Schedule) (job : Job) : Type 0 where
  pub schedule : Schedule
  pub run : ℕ
  pub listed : Memᴰ schedule schedules
  pub enabled : schedule.enabled ≡ true
  pub next : schedule.next_run_at ≡ some run
  pub come : run ≤ now
  pub triggered : job.trigger_type ≡ "schedule"
  pub scheduled : job.schedule_id ≡ some schedule.id
  pub queued : job.status ≡ JobStatus.queued

is_for_due :
    (now : ℕ) (schedules : List Schedule) (job : Job)
    → IsScheduled (due_snapshots now schedules) job
    → IsForDue now schedules job
unfolding snapshot_of
is_for_due now schedules job s =
    let d = due_snapshots-IsDue now schedules s.listed in
    record {
      schedule = d.schedule;
      run = d.run;
      listed = d.listed;
      enabled = d.enabled;
      next = d.next;
      come = d.come;
      triggered = s.triggered;
      scheduled = s.scheduled ∙ ap (λ x. some x.id) d.copied;
      queued = s.queued;
    }

module _ (strip lower : String → String) (providers : String → Option (Account → Availability))
    (fresh : ℕ → ℕ) where
  unclaimed_tables :
      (clock latest following : ℕ) (snapshot : Snapshot) (w w' : World)
      → claim_and_create strip lower providers fresh clock latest following snapshot w
        ≡ ok (false, w')
      → w'.tables ≡ w.tables
  unfolding claim_and_create
  unclaimed_tables clock latest following snapshot w w' h =
      elim (Bool-cases (rowcount (is_unclaimed snapshot) w.schedules == 1)) [
        | inl e ↦
            let ((job, tables), _, h1) = bind-ok _ _ (false, w') (rw e at h) in
            let same : true ≡ false = ap (λ d. d.0) (ok-injective h1) in absurd cc
        | inr e ↦ ap (λ d. d.1.tables) (sym (ok-injective (rw e at h)))
      ]

  module _ (zone_info : String → Option (ℕ → LocalTime)) where
    process_tables :
        (clock now : ℕ) (snapshot : Snapshot) (w w' : World)
        → process zone_info strip lower providers fresh clock now snapshot w ≡ ok (false, w')
        → w'.tables ≡ w.tables
    unfolding process
    process_tables clock now snapshot w w' h =
        let (latest, _, h1) = bind-ok _ _ (false, w') h in
        let (following, _, h2) = bind-ok _ _ (false, w') h1 in
        let (_, _, h3) = bind-ok _ _ (false, w') h2 in
        unclaimed_tables clock latest following snapshot w w' h3

    IsScheduled-job :
        (clock now : ℕ) (snapshot : Snapshot) (rest : List Snapshot) (w w' : World)
        (f : Fired zone_info strip lower providers fresh clock now snapshot w w')
        → IsScheduled (snapshot ∷ rest) f.job
    unfolding schedule_request
    IsScheduled-job clock now snapshot rest w w' f =
        let asked = f.created.asked in
        record {
          snapshot = snapshot;
          listed = Memᴰ.head refl;
          triggered = asked.triggered;
          scheduled = asked.scheduled;
          queued = asked.waiting.queued;
        }

    added_now :
        (clock now : ℕ) (snapshot : Snapshot) (rest : List Snapshot) (w w1 w' : World) (created : ℕ)
        → Fired zone_info strip lower providers fresh clock now snapshot w w1
        → JobsAdded rest w1 w' created
        → JobsAdded (snapshot ∷ rest) w w' (suc created)
    added_now clock now snapshot rest w w1 w' created f a = record {
      added = f.job ∷ a.added;
      jobs =
          a.jobs
          ∙ ap (λ l. l ++ a.added) f.created.jobs
          ∙ append_assoc w.tables.db.jobs (f.job ∷ []) a.added;
      counted = ap suc a.counted;
      each = (
        IsScheduled-job clock now snapshot rest w w1 f,
        All-weaken _ _ a.added (later_snapshots snapshot rest) a.each,
      );
    }

    process_all-JobsAdded :
        (clock now : ℕ) (snapshots : List Snapshot) (w : World)
        → let (created, w') =
            process_all zone_info strip lower providers fresh clock now snapshots w in
          JobsAdded snapshots w w' created
    unfolding process_all
    process_all-JobsAdded clock now [] w = record {
      added = [];
      jobs = append_nil w.tables.db.jobs;
      counted = refl;
      each = tt;
    }
    process_all-JobsAdded clock now (snapshot ∷ rest) w =
        elim (outcomes (process zone_info strip lower providers fresh clock now snapshot w)) [
          | inl (error, e) ↦
              rw (e, process_all)
                (added_later snapshot rest w w _ _ refl (process_all-JobsAdded clock now rest w))
          | inr (inl (w1, e)) ↦
              rw (e, process_all)
                (added_later snapshot rest w w1 _ _ (process_tables clock now snapshot w w1 e)
                  (process_all-JobsAdded clock now rest w1))
          | inr (inr (w1, e)) ↦
              let f =
                process-Fired zone_info strip lower providers fresh clock now snapshot w w1 e in
              rw (e, process_all)
                (added_now clock now snapshot rest w w1 _ _ f
                  (process_all-JobsAdded clock now rest w1))
        ]

    -- A tick adds as many jobs as it says, and puts them behind the others; each is queued for a
    -- schedule that was enabled and due at the tick's moment.
    pub tick_adds :
        (clock now : ℕ) (w : World)
        → let (created, w') = tick zone_info strip lower providers fresh clock now w in
          (added : List Job) × (w'.tables.db.jobs ≡ w.tables.db.jobs ++ added)
          × (length added ≡ created)
          × All (IsForDue now w.schedules) added
    unfolding tick due_schedule_snapshots
    tick_adds clock now w =
        let a =
          process_all-JobsAdded clock now (due_snapshots now w.schedules)
            (record w { schedules = map (with_next_run zone_info clock now) w.schedules }) in
        (a.added, a.jobs, a.counted, All-weaken _ _ a.added (is_for_due now w.schedules) a.each)
