-- ===== src/JobStore/Gates.antt =====
-- A stage that waits for a decision belongs to a job that waits at that stage: the invariant that
-- the two-row updates of the store are there for, and how an `UPDATE` keeps it.
use tiktok_b2b_bot_mirror.Prelude.{
  ◌≡◌, ◌≢◌, refl, ◌∙◌, inl, inr, Bool, true, false, some, Memᴰ, update, update_row, update_mem,
  mem-update, Bool-cases,
}
use tiktok_b2b_bot_mirror.States.JobStatus
use tiktok_b2b_bot_mirror.States.StageStatus
use tiktok_b2b_bot_mirror.JobStore.Rows.{Job, JobStage, Db}

pub record Gate (s : JobStage) (j : Job) : Type 0 where
  pub same_job : j.id ≡ s.job_id
  pub job_waits : j.status ≡ JobStatus.waiting_decision
  pub at_stage : j.current_stage ≡ some s.stage

abbrev pub IsWaiting : JobStage → Type 0
IsWaiting s = s.status ≡ StageStatus.waiting_decision

-- Every waiting stage has its waiting job.
pub record IsCoherent (db : Db) : Type 0 where
  pub gate : (s : JobStage) → Memᴰ s db.stages → IsWaiting s → (j : Job) × Memᴰ j db.jobs × Gate s j

module _ (p : Job → Bool) (f : Job → Job) (q : JobStage → Bool) (g : JobStage → JobStage)
    (db : Db) where
  -- The two tables after two `UPDATE`s: what is written must be coherent, and the gates of what is
  -- not written must be kept.
  pub update-IsCoherent :
      ((s : JobStage)
        → q s ≡ true
        → IsWaiting (g s)
        → (j : Job) × Memᴰ j (update p f db.jobs) × Gate (g s) j)
      → ((s : JobStage) (j : Job)
          → Memᴰ j db.jobs
          → q s ≡ false
          → IsWaiting s
          → Gate s j
          → Gate s (update_row p f j))
      → IsCoherent db
      → IsCoherent (record db { jobs = update p f db.jobs; stages = update q g db.stages })
  update-IsCoherent written kept c = record {
    gate = λ t m w.
        let (s, old, e) = update_mem q g db.stages m in
        elim (Bool-cases (q s)) [
          | inl hit ↦ let same : t ≡ g s = e ∙ rw hit refl in rw same (written s hit (rw same at w))
          | inr miss ↦
              let same : t ≡ s = e ∙ rw miss refl in
              let waits : IsWaiting s = rw same at w in
              let (j, n, held) = c.gate s old waits in
              rw same (update_row p f j, mem-update p f db.jobs n, kept s j n miss waits held)
        ];
  }

-- A gate is kept by an update that touches no waiting job.
pub untouched :
    (p : Job → Bool) (f : Job → Job) (s : JobStage) (j : Job)
    → ((k : Job) → p k ≡ true → k.status ≢ JobStatus.waiting_decision)
    → Gate s j
    → Gate s (update_row p f j)
untouched p f s j safe held = elim (Bool-cases (p j)) [
  | inl hit ↦ absurd (safe j hit held.job_waits)
  | inr miss ↦ rw miss held
]

-- The jobs alone are updated, and no waiting one.
pub update_jobs-IsCoherent :
    (p : Job → Bool) (f : Job → Job) (db : Db)
    → ((k : Job) → p k ≡ true → k.status ≢ JobStatus.waiting_decision)
    → IsCoherent db
    → IsCoherent (record db { jobs = update p f db.jobs })
update_jobs-IsCoherent p f db safe c = record {
  gate = λ s m w.
      let (j, n, held) = c.gate s m w in
      (update_row p f j, mem-update p f db.jobs n, untouched p f s j safe held);
}

-- The stages alone are updated, and none comes to wait.
pub update_stages-IsCoherent :
    (q : JobStage → Bool) (g : JobStage → JobStage) (db : Db)
    → ((s : JobStage) → q s ≡ true → ¬ (IsWaiting (g s)))
    → IsCoherent db
    → IsCoherent (record db { stages = update q g db.stages })
update_stages-IsCoherent q g db safe c = record {
  gate = λ t m w.
      let (s, old, e) = update_mem q g db.stages m in
      elim (Bool-cases (q s)) [
        | inl hit ↦ let same : t ≡ g s = e ∙ rw hit refl in absurd (safe s hit (rw same at w))
        | inr miss ↦ let same : t ≡ s = e ∙ rw miss refl in rw same (c.gate s old (rw same at w))
      ];
}
