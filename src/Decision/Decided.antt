-- ===== src/Decision/Decided.antt =====
-- What it means that a human's answer has been accepted, and which options a decision may offer.
use tiktok_b2b_bot_mirror.Prelude.{
  ℕ, nat_eq, string_eq, true, some, contains, exists_row, update, ◌≡◌, ◌≢◌, sym, ap, ◌∙◌, subst,
  inl, inr, Result-cases, ok, err, map_err-ok, or_raise-ok, raise_if-ok, raise_if-not, bind-ok,
  ok-injective,
}
use tiktok_b2b_bot_mirror.JobStore.Rows.{Checkpoint, ResolutionSource, Db}
use tiktok_b2b_bot_mirror.JobStore.Decisions.{resume_from_decision}
use tiktok_b2b_bot_mirror.Decision.Texts.{Texts}
use tiktok_b2b_bot_mirror.Decision.Checkpoints.{
  Answer, is_answerable, answered, resolve_checkpoint, get_checkpoint, parse_source,
}
use tiktok_b2b_bot_mirror.Decision.Gate.{
  Resolution, resolve_session, resolve_once, GateError, resolution_of,
}

module _ (texts : Texts) where
  -- The checkpoint and the source that the resolving UPDATE has written.
  pub record Chosen (clock job_id id : ℕ) (answer : Answer) (d : Checkpoint) (db db' : Db)
      : Type 0 where
    pub checkpoint : Checkpoint
    pub source : ResolutionSource
    pub found : get_checkpoint job_id id db ≡ some checkpoint
    pub parsed : parse_source (texts.lower (texts.strip answer.source)) ≡ some source
    pub registered : contains (texts.strip answer.option_key) checkpoint.option_keys_json ≡ true
    pub current :
        exists_row (is_answerable job_id checkpoint.id answer.version) db.checkpoints ≡ true
    pub settled : d ≡ answered texts clock source answer checkpoint
    pub written : db' ≡ record db {
      checkpoints =
          update
            (is_answerable job_id checkpoint.id answer.version)
            (answered texts clock source answer)
            db.checkpoints;
    }

  resolve_checkpoint-Chosen :
      (clock job_id id : ℕ) (answer : Answer) (db db' : Db) (d : Checkpoint)
      → resolve_checkpoint texts clock job_id id answer db ≡ ok (d, db')
      → Chosen clock job_id id answer d db db'
  unfolding resolve_checkpoint
  resolve_checkpoint-Chosen clock job_id id answer db db' d h =
      let (c, found, g1) = bind-ok _ _ (d, db') h in
      let (_, g2) = raise_if-not _ _ _ (d, db') g1 in
      let (registered, g3) = raise_if-not _ _ _ (d, db') g2 in
      let (source, parsed, g4) = bind-ok _ _ (d, db') g3 in
      let (_, _, g5) = bind-ok _ _ (d, db') g4 in
      let (_, _, g6) = bind-ok _ _ (d, db') g5 in
      let (_, g7) = raise_if-ok _ _ _ (d, db') g6 in
      let (current, g8) = raise_if-not _ _ _ (d, db') g7 in
      let made = ok-injective g8 in
      record {
        checkpoint = c;
        source = source;
        found = or_raise-ok _ _ c found;
        parsed = or_raise-ok _ _ source parsed;
        registered = registered;
        current = current;
        settled = ap (λ p. p.0) (sym made);
        written = ap (λ p. p.1) (sym made);
      }

  -- One session has settled the checkpoint and let the job go on at its stage.
  pub record Decided (clock job_id id : ℕ) (answer : Answer) (r : Resolution) (db db' : Db)
      : Type 0 where
    pub row : Checkpoint
    pub between : Db
    pub chosen : Chosen clock job_id id answer row db between
    pub resumed : resume_from_decision clock job_id row.stage between ≡ ok (true, db')
    pub told : resolution_of row ≡ some r

  session-Decided :
      (clock job_id id : ℕ) (answer : Answer) (db db' : Db) (r : Resolution)
      → resolve_session texts clock job_id id answer db ≡ ok (r, db')
      → Decided clock job_id id answer r db db'
  unfolding resolve_session
  session-Decided clock job_id id answer db db' r h =
      let ((d, db1), one, h1) = bind-ok _ _ (r, db') h in
      let ((resumed, db2), two, h2) = bind-ok _ _ (r, db') h1 in
      let (moved, h3) = raise_if-not _ _ _ (r, db') h2 in
      let (res, three, h4) = bind-ok _ _ (r, db') h3 in
      let made = ok-injective h4 in
      let left : db2 ≡ db' = ap (λ p. p.1) made in
      let went_on = map_err-ok _ _ (resumed, db2) two in
      record {
        row = d;
        between = db1;
        chosen =
            resolve_checkpoint-Chosen clock job_id id answer db db1 d (map_err-ok _ _ (d, db1) one);
        resumed =
            subst (λ b. resume_from_decision clock job_id d.stage db1 ≡ ok (b, db')) moved
              (subst (λ x. resume_from_decision clock job_id d.stage db1 ≡ ok (resumed, x)) left
                went_on);
        told = or_raise-ok _ _ res three ∙ ap (λ p. some p.0) made;
      }

  pub once-Decided :
      (clock job_id id : ℕ) (answer : Answer) (db : Db) (r : Resolution)
      → (resolve_once texts clock job_id id answer db).0 ≡ ok r
      → Decided clock job_id id answer r db (resolve_once texts clock job_id id answer db).1
  unfolding resolve_once
  once-Decided clock job_id id answer db r h =
      elim (Result-cases (resolve_session texts clock job_id id answer db)) [
        | inl ((s, db'), e) ↦
            let same : s ≡ r = ok-injective (rw (e, resolve_once) at h) in
            let whole =
              subst (λ x. Decided clock job_id id answer x db db') same
                (session-Decided clock job_id id answer db db' s e) in
            rw (e, resolve_once) whole
        | inr (error, e) ↦ absurd (refused_not_ok (rw (e, resolve_once) at h))
      ]
    where
      refused_not_ok : {g : GateError} → err g ≢ ok r
      refused_not_ok k = cc
