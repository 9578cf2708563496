-- ===== src/JobStore/Moves.antt =====
-- What every method of the store may do to a row: it stays in its place with its identity, and its
-- status moves along the life cycle.
use tiktok_b2b_bot_mirror.Prelude.{
  ◌≤◌, ◌≡◌, refl, ◌∙◌, Bool, true, Grows, Grows-refl, Grows-trans, Grows-update, update, arith,
}
use tiktok_b2b_bot_mirror.States.JobStatus.{job_status_eq}
use tiktok_b2b_bot_mirror.States.StageStatus.{stage_status_eq}
use tiktok_b2b_bot_mirror.States.Paths
use tiktok_b2b_bot_mirror.States.StagePaths
use tiktok_b2b_bot_mirror.JobStore.Rows.{Job, JobStage, Db}

pub record JobMove (j k : Job) : Type 0 where
  pub same_id : k.id ≡ j.id
  pub same_platform : k.platform ≡ j.platform
  pub same_stages : k.stages_json ≡ j.stages_json
  pub path : Paths.◌⟶*◌ j.status k.status

pub record StageMove (s t : JobStage) : Type 0 where
  pub same_id : t.id ≡ s.id
  pub same_job : t.job_id ≡ s.job_id
  pub same_stage : t.stage ≡ s.stage
  pub same_order : t.stage_order ≡ s.stage_order
  pub path : StagePaths.◌⟶*◌ s.status t.status
  pub attempts : s.attempt ≤ t.attempt

pub record Evolves (db db' : Db) : Type 0 where
  pub jobs : Grows JobMove db.jobs db'.jobs
  pub stages : Grows StageMove db.stages db'.stages

pub JobMove-refl : (j : Job) → JobMove j j
JobMove-refl j = record {
  same_id = refl;
  same_platform = refl;
  same_stages = refl;
  path = Paths.here;
}

pub StageMove-refl : (s : JobStage) → StageMove s s
StageMove-refl s = record {
  same_id = refl;
  same_job = refl;
  same_stage = refl;
  same_order = refl;
  path = StagePaths.here;
  attempts = omega arith;
}

JobMove-trans : (j k l : Job) → JobMove j k → JobMove k l → JobMove j l
JobMove-trans j k l a b = record {
  same_id = b.same_id ∙ a.same_id;
  same_platform = b.same_platform ∙ a.same_platform;
  same_stages = b.same_stages ∙ a.same_stages;
  path = Paths.⟶*_trans a.path b.path;
}

StageMove-trans : (s t u : JobStage) → StageMove s t → StageMove t u → StageMove s u
StageMove-trans s t u a b = record {
  same_id = b.same_id ∙ a.same_id;
  same_job = b.same_job ∙ a.same_job;
  same_stage = b.same_stage ∙ a.same_stage;
  same_order = b.same_order ∙ a.same_order;
  path = StagePaths.⟶*_trans a.path b.path;
  attempts = omega (arith, a.attempts, b.attempts);
}

pub Evolves-refl : (db : Db) → Evolves db db
Evolves-refl db = record {
  jobs = Grows-refl JobMove JobMove-refl db.jobs;
  stages = Grows-refl StageMove StageMove-refl db.stages;
}

pub Evolves-trans : {a b c : Db} → Evolves a b → Evolves b c → Evolves a c
Evolves-trans p q = record {
  jobs = Grows-trans JobMove JobMove-trans p.jobs q.jobs;
  stages = Grows-trans StageMove StageMove-trans p.stages q.stages;
}

-- An `UPDATE` of the jobs that makes only such moves.
pub update-jobs :
    (p : Job → Bool) (f : Job → Job) (db : Db)
    → ((j : Job) → p j ≡ true → JobMove j (f j))
    → Grows JobMove db.jobs (update p f db.jobs)
update-jobs p f db h = Grows-update JobMove p f JobMove-refl h db.jobs

pub update-stages :
    (p : JobStage → Bool) (f : JobStage → JobStage) (db : Db)
    → ((s : JobStage) → p s ≡ true → StageMove s (f s))
    → Grows StageMove db.stages (update p f db.stages)
update-stages p f db h = Grows-update StageMove p f StageMove-refl h db.stages

-- One job row, or one stage row, moves and keeps what identifies it.
pub job_moved :
    {j k : Job}
    → k.id ≡ j.id
    → k.platform ≡ j.platform
    → k.stages_json ≡ j.stages_json
    → Paths.◌⟶*◌ j.status k.status
    → JobMove j k
job_moved a b c p = record { same_id = a; same_platform = b; same_stages = c; path = p }

pub stage_moved :
    {s t : JobStage}
    → t.id ≡ s.id
    → t.job_id ≡ s.job_id
    → t.stage ≡ s.stage
    → t.stage_order ≡ s.stage_order
    → s.attempt ≤ t.attempt
    → StagePaths.◌⟶*◌ s.status t.status
    → StageMove s t
stage_moved a b c d e p = record {
  same_id = a;
  same_job = b;
  same_stage = c;
  same_order = d;
  path = p;
  attempts = e;
}

pub same_jobs : (db : Db) → Grows JobMove db.jobs db.jobs
same_jobs db = Grows-refl JobMove JobMove-refl db.jobs

pub same_stages : (db : Db) → Grows StageMove db.stages db.stages
same_stages db = Grows-refl StageMove StageMove-refl db.stages
