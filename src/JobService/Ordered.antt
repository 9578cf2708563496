-- ===== src/JobService/Ordered.antt =====
-- The stage rows of a job, in the order of their numbers.
use tiktok_b2b_bot_mirror.Prelude.{
  ℕ, ◌≤◌, ◌≡◌, ◌↔◌, nat_eq, nat_beq_iff, ◌==◌, leb, Bool-cases, List, [], ◌∷◌, Memᴰ, select,
  select_mem, mem-select, sort_by, insert_by, mem-sort_by, sort_by_mem, inl, inr, arith,
}
use tiktok_b2b_bot_mirror.JobStore.Rows.{JobStage, Db}
use tiktok_b2b_bot_mirror.JobService.Calls.{ordered_stages}

pub data IsAscending : List JobStage → Type 0 where
  nil : IsAscending []
  one : (s : JobStage) → IsAscending (s ∷ [])
  more :
      {s t : JobStage} {rest : List JobStage}
      → s.stage_order ≤ t.stage_order
      → IsAscending (t ∷ rest)
      → IsAscending (s ∷ t ∷ rest)

-- `rows` are the rows of the job, in ascending order.
pub record IsStageList (job_id : ℕ) (db : Db) (rows : List JobStage) : Type 0 where
  pub ascending : IsAscending rows
  pub exact : (s : JobStage) → Memᴰ s rows ↔ (Memᴰ s db.stages × (s.job_id ≡ job_id))

insert-IsAscending :
    (s : JobStage) (rows : List JobStage)
    → IsAscending rows
    → IsAscending (insert_by (λ a b. leb a.stage_order b.stage_order) s rows)
unfolding insert_by
insert-IsAscending s _ IsAscending.nil = IsAscending.one s
insert-IsAscending s _ (IsAscending.one t) = elim (Bool-cases (leb s.stage_order t.stage_order)) [
  | inl e ↦ rw e (IsAscending.more (ground (arith, e)) (IsAscending.one t))
  | inr e ↦ rw e (IsAscending.more (ground (arith, e)) (IsAscending.one s))
]
insert-IsAscending s _ (IsAscending.more {s = t} {t = u} h sorted) =
    elim (Bool-cases (leb s.stage_order t.stage_order)) [
      | inl e ↦ rw e (IsAscending.more (ground (arith, e)) (IsAscending.more h sorted))
      | inr e ↦ elim (Bool-cases (leb s.stage_order u.stage_order)) [
        | inl f ↦
            rw (e, f)
              (IsAscending.more (ground (arith, e)) (IsAscending.more (ground (arith, f)) sorted))
        | inr f ↦
            let later = insert-IsAscending s _ sorted in
            rw (e, f) (IsAscending.more h (rw f at later))
      ]
    ]

sort-IsAscending :
    (rows : List JobStage) → IsAscending (sort_by (λ a b. leb a.stage_order b.stage_order) rows)
unfolding sort_by
sort-IsAscending [] = IsAscending.nil
sort-IsAscending (s ∷ rest) = insert-IsAscending s _ (sort-IsAscending rest)

pub ordered-IsStageList : (job_id : ℕ) (db : Db) → IsStageList job_id db (ordered_stages job_id db)
unfolding ordered_stages
ordered-IsStageList job_id db = record {
  ascending = sort-IsAscending (select (λ s. s.job_id == job_id) db.stages);
  exact = λ s. (
    λ m.
        let (there, owned) =
          select_mem (λ (t : JobStage). t.job_id == job_id) db.stages
            (sort_by_mem (λ (a b : JobStage). leb a.stage_order b.stage_order) _ m) in
        (there, (nat_beq_iff s.job_id job_id).0 owned),
    λ (there, owned).
        mem-sort_by (λ (a b : JobStage). leb a.stage_order b.stage_order) _
          (mem-select (λ (t : JobStage). t.job_id == job_id) db.stages there
            ((nat_beq_iff s.job_id job_id).1 owned)),
  );
}
