-- ===== src/JobService/Copied.antt =====
-- What the retry of an acquisition job copies.
use tiktok_b2b_bot_mirror.Prelude.{ℕ, String, List, [], ◌∷◌, ◌++◌, ◌≡◌}
use tiktok_b2b_bot_mirror.States.Stage.{Stage}
use tiktok_b2b_bot_mirror.JobStore.Rows.{Job, JobStage}
use tiktok_b2b_bot_mirror.Acquisition.Rows.{Campaign, Keyword, AcquisitionDb}
use tiktok_b2b_bot_mirror.JobService.Copies.{IsTargetingCopy, AreCopies}
use tiktok_b2b_bot_mirror.JobService.Created.{Created}

abbrev pub IsCollect : JobStage → Type 0
IsCollect s = s.stage ≡ Stage.collect

module _ (strip lower : String → String) where
  -- `db'` is `db` with the keywords copied to `job_id` behind the others.
  pub record KeywordsCopied (job_id : ℕ) (keywords : List Keyword) (db db' : AcquisitionDb)
      : Type 0 where
    pub copies : List Keyword
    pub appended : db'.keywords ≡ db.keywords ++ copies
    pub same : AreCopies strip lower job_id keywords copies
    pub same_campaigns : db'.campaigns ≡ db.campaigns

-- `w'` has the campaign of the retried job and its keywords once more, for the job `j`.
pub record AcquisitionCopied (strip lower : String → String) (campaign : Campaign)
    (keywords : List Keyword) (w w' : AcquisitionDb) (j : Job) : Type 0 where
  pub copy : Campaign
  pub appended : w'.campaigns ≡ w.campaigns ++ copy ∷ []
  pub same : IsTargetingCopy strip lower campaign.targeting copy.targeting
  pub owned : copy.job_id ≡ j.id
  pub copies : List Keyword
  pub keywords_appended : w'.keywords ≡ w.keywords ++ copies
  pub same_keywords : AreCopies strip lower j.id keywords copies
