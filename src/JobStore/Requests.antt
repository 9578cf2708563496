-- ===== src/JobStore/Requests.antt =====
-- What a new job is made of, and that ids stay unique.
use tiktok_b2b_bot_mirror.Prelude.{
  name-find_name, Option-cases, bind-ok, ok-injective, ℕ, ◌+◌, ◌≡◌, refl, sym, ap, ◌∙◌, inl, inr,
  Bool, true, false, not, none, some, All, List, [], ◌∷◌, ◌++◌, map, String, nat_eq, raise_if,
  arith, ok,
}
use tiktok_b2b_bot_mirror.States.JobStatus
use tiktok_b2b_bot_mirror.States.StageStatus
use tiktok_b2b_bot_mirror.States.Stage
use tiktok_b2b_bot_mirror.States.Stage.{Stage}
use tiktok_b2b_bot_mirror.JobStore.Rows.{Job, JobStage, Db, StoreError}
use tiktok_b2b_bot_mirror.JobStore.Create.{
  JobRequest, is_empty, unknown_of, known_of, stage_rows, new_job, create_job,
}

stage_text : (text : String) {s : Stage} → Stage.parse text ≡ some s → text ≡ Stage.name s
unfolding Stage.parse
stage_text text h = name-find_name Stage.name text Stage.pipeline_stages h

pub known_names :
    (texts : List String)
    → is_empty (unknown_of texts) ≡ true
    → map Stage.name (known_of texts) ≡ texts
unfolding unknown_of known_of
known_names [] h = refl
known_names (x ∷ xs) h = elim (Option-cases (Stage.parse x)) [
  | inl e ↦ absurd (ground (arith, e))
  | inr (s, e) ↦
      let rest : is_empty (unknown_of xs) ≡ true = ground (arith, e) in
      let kept : known_of (x ∷ xs) ≡ s ∷ known_of xs = ground (arith, e) in
      ap (map Stage.name) kept ∙ rw (known_names xs rest) (ap (λ y. y ∷ xs) (sym (stage_text x e)))
]

not_raised : (b : Bool) (e : StoreError) → raise_if (not b) e ≡ ok tt → b ≡ true
not_raised true e h = refl
not_raised false e h = cc

row_names :
    (id job_id order : ℕ) (stages : List Stage)
    → map (λ s. Stage.name s.stage) (stage_rows id job_id order stages) ≡ map Stage.name stages
unfolding stage_rows
row_names id job_id order [] = refl
row_names id job_id order (s ∷ rest) =
    ap (λ ys. Stage.name s ∷ ys) (row_names (id + 1) job_id (order + 1) rest)

abbrev pub count_from : {A : Type 0} → ℕ → List A → List ℕ
count_from n [] = []
count_from n (_ ∷ rest) = n ∷ count_from (n + 1) rest

row_orders :
    (id job_id order : ℕ) (stages : List Stage)
    → map (λ s. s.stage_order) (stage_rows id job_id order stages)
      ≡ count_from order (stage_rows id job_id order stages)
unfolding stage_rows
row_orders id job_id order [] = refl
row_orders id job_id order (s ∷ rest) =
    ap (λ ys. order ∷ ys) (row_orders (id + 1) job_id (order + 1) rest)

-- A row of the job that waits for its first attempt.
pub record IsNewRow (job_id : ℕ) (s : JobStage) : Type 0 where
  pub owner : s.job_id ≡ job_id
  pub pending : s.status ≡ StageStatus.pending
  pub untried : s.attempt ≡ 0
  pub unstarted : s.started_at ≡ none
  pub unfinished : s.finished_at ≡ none
  pub faultless : s.error_message ≡ ""

rows-IsNewRow :
    (id job_id order : ℕ) (stages : List Stage)
    → All (IsNewRow job_id) (stage_rows id job_id order stages)
unfolding stage_rows
rows-IsNewRow id job_id order [] = tt
rows-IsNewRow id job_id order (s ∷ rest) = (
  record {
    owner = refl;
    pending = refl;
    untried = refl;
    unstarted = refl;
    unfinished = refl;
    faultless = refl;
  },
  rows-IsNewRow (id + 1) job_id (order + 1) rest,
)

pub create_job-rows :
    (id now : ℕ) (r : JobRequest) (db db' : Db) (j : Job)
    → create_job id now r db ≡ ok (j, db')
    → (rows : List JobStage) × (db'.jobs ≡ db.jobs ++ j ∷ [])
      × (db'.stages ≡ db.stages ++ rows)
      × (j.status ≡ JobStatus.queued)
      × (map (λ s. Stage.name s.stage) rows ≡ r.stages)
      × (map (λ s. s.stage_order) rows ≡ count_from 0 rows)
      × All (IsNewRow id) rows
unfolding create_job new_job
create_job-rows id now r db db' j h =
    let (_, _, h1) = bind-ok _ _ (j, db') h in
    let (_, _, h2) = bind-ok _ _ (j, db') h1 in
    let (_, known, h3) = bind-ok _ _ (j, db') h2 in
    let (_, _, h4) = bind-ok _ _ (j, db') h3 in
    let made = ok-injective h4 in
    let stages : List Stage = known_of r.stages in
    (
      stage_rows db.next_stage_id id 0 stages,
      ap (λ d. d.1.jobs) (sym made) ∙ ap (λ k. db.jobs ++ k ∷ []) (ap (λ d. d.0) made),
      ap (λ d. d.1.stages) (sym made),
      ap (λ d. d.0.status) (sym made),
      row_names db.next_stage_id id 0 stages ∙ known_names r.stages (not_raised _ _ known),
      row_orders db.next_stage_id id 0 stages,
      rows-IsNewRow db.next_stage_id id 0 stages,
    )
