-- ===== src/Decision/Human.antt =====
-- What it means that a human's answer has been accepted.
use tiktok_b2b_bot_mirror.Prelude.{
  same_value, ℕ, ◌<◌, string_eq, true, ◌&&◌, Bool-cases, some, Option-cases, ◌≡◌, ◌≢◌, sym, ap, ◌∙◌,
  subst, inl, inr, Result-cases, ok, err, leb, arith,
}
use tiktok_b2b_bot_mirror.JobStore.Rows.{Checkpoint, CheckpointStatus, ResolutionSource, Db}
use tiktok_b2b_bot_mirror.Decision.Texts.{Texts}
use tiktok_b2b_bot_mirror.Decision.Checkpoints.{
  Answer, is_pending, answered, get_checkpoint, parse_source, terminal_status,
}
use tiktok_b2b_bot_mirror.Decision.Definitions.{CheckpointDefinition, definition_of}
use tiktok_b2b_bot_mirror.Decision.Gate.{
  Resolution, GateError, too_late, resolve_pending, resolve, resolution_of, choice_check,
}
use tiktok_b2b_bot_mirror.Decision.Decided.{Decided, once-Decided}

module _ (texts : Texts) where
  -- The checkpoint was pending and in time, and the answer has settled it.
  pub record Accepted (clock job_id id : ℕ) (answer : Answer) (r : Resolution) (db db' : Db)
      : Type 0 where
    pub checkpoint : Checkpoint
    pub definition : CheckpointDefinition
    pub found : get_checkpoint job_id id db ≡ some checkpoint
    pub waited : is_pending checkpoint ≡ true
    pub known : choice_check (definition_of texts.strip checkpoint.kind) ≡ ok definition
    pub in_time : definition.auto_timeout ≡ true → clock < checkpoint.deadline_at
    pub decided : Decided texts clock job_id id (record answer { source = "human" }) r db db'

  pending-Accepted :
      (clock job_id id : ℕ) (answer : Answer) (c : Checkpoint) (db : Db) (r : Resolution)
      → get_checkpoint job_id id db ≡ some c
      → is_pending c ≡ true
      → (resolve_pending texts clock job_id id answer c db).0 ≡ ok r
      → Accepted clock job_id id answer r db (resolve_pending texts clock job_id id answer c db).1
  unfolding resolve_pending too_late
  pending-Accepted clock job_id id answer c db r got waits h =
      elim (Result-cases (choice_check (definition_of texts.strip c.kind))) [
        | inr (error, e) ↦ absurd (refused_not_ok (rw (e, resolve_pending) at h))
        | inl (definition, e) ↦
            elim (Bool-cases (definition.auto_timeout && leb c.deadline_at clock)) [
              | inl late ↦ absurd (refused_not_ok (rw late at (rw (e, resolve_pending) at h)))
              | inr soon ↦
                  rw (e, resolve_pending)
                    (rw soon (record {
                      checkpoint = c;
                      definition = definition;
                      found = got;
                      waited = waits;
                      known = e;
                      in_time = λ auto. ground (arith, auto, soon);
                      decided =
                          once-Decided texts clock job_id id (record answer { source = "human" }) db
                            r (rw soon at (rw (e, resolve_pending) at h));
                    }))
            ]
      ]
    where
      refused_not_ok : {g : GateError} → err g ≢ ok r
      refused_not_ok k = cc

  resolve_pending_of :
      (clock job_id id : ℕ) (answer : Answer) (db : Db) (r : Resolution)
      → (resolve texts clock job_id id answer db).0 ≡ ok r
      → Accepted clock job_id id answer r db (resolve texts clock job_id id answer db).1
  unfolding resolve
  resolve_pending_of clock job_id id answer db r h =
      elim (Option-cases (get_checkpoint job_id id db)) [
        | inl e ↦ absurd (refused_not_ok (rw (e, resolve) at h))
        | inr (c, e) ↦ elim (Bool-cases (is_pending c)) [
          | inr p ↦ absurd (refused_not_ok (rw p at (rw (e, resolve) at h)))
          | inl p ↦
              rw (e, resolve)
                (rw p (
                  pending-Accepted clock job_id id answer c db r e p
                    (rw p at (rw (e, resolve) at h))))
        ]
      ]
    where
      refused_not_ok : {g : GateError} → err g ≢ ok r
      refused_not_ok k = cc

  told_source :
      (clock : ℕ) (answer : Answer) (source : ResolutionSource) (c row : Checkpoint)
      (r : Resolution)
      → source ≡ ResolutionSource.human
      → row ≡ answered texts clock source answer c
      → resolution_of row ≡ some r
      → (r.source ≡ ResolutionSource.human)
        × (r.status ≡ CheckpointStatus.resolved)
        × (r.option_key ≡ some (texts.strip answer.option_key))
  unfolding resolution_of answered terminal_status is_pending
  told_source clock answer source c row r human same told =
      let settled : row ≡ answered texts clock ResolutionSource.human answer c =
        same ∙ ap (λ s. answered texts clock s answer c) human in
      let whole = subst (λ x. resolution_of x ≡ some r) settled told in
      let made = sym (same_value whole) in
      (ap (λ x. x.source) made, ap (λ x. x.status) made, ap (λ x. x.option_key) made)

  human_source :
      texts.lower (texts.strip "human") ≡ "human"
      → (source : ResolutionSource) → parse_source (texts.lower (texts.strip "human")) ≡ some source
      → source ≡ ResolutionSource.human
  unfolding parse_source
  human_source plain source h = sym (same_value (rw plain at h))

  -- Where `strip` and `lower` keep the text `human`: when a human's answer is accepted, the
  -- checkpoint was pending and, if it has a deadline, the deadline had not come; the answer's option
  -- is one that the checkpoint offers; one session has settled the checkpoint and let the job go on
  -- at its stage; and the resolution that is told is that of a human, with this option.
  pub resolve-Accepted :
      (clock job_id id : ℕ) (answer : Answer) (db : Db) (r : Resolution)
      → texts.lower (texts.strip "human") ≡ "human"
      → (resolve texts clock job_id id answer db).0 ≡ ok r
      → Accepted clock job_id id answer r db (resolve texts clock job_id id answer db).1
        × (r.source ≡ ResolutionSource.human)
        × (r.status ≡ CheckpointStatus.resolved)
        × (r.option_key ≡ some (texts.strip answer.option_key))
  resolve-Accepted clock job_id id answer db r plain h =
      let a = resolve_pending_of clock job_id id answer db r h in
      let chosen = a.decided.chosen in
      let (source, status, option) =
        told_source clock (record answer { source = "human" }) chosen.source chosen.checkpoint
          a.decided.row r (human_source plain chosen.source chosen.parsed) chosen.settled
          a.decided.told in
      (a, source, status, option)
