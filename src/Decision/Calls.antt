-- ===== src/Decision/Calls.antt =====
-- The decisions as their callers use them: a sequence of calls of the gate, of the one who waits, of
-- humans, and of cancellations, each in its sessions.
use tiktok_b2b_bot_mirror.Prelude.{ℕ, String, List, [], ◌∷◌, committed}
use tiktok_b2b_bot_mirror.JobStore.Rows.{Db}
use tiktok_b2b_bot_mirror.JobStore.Cancel.{request_cancel}
use tiktok_b2b_bot_mirror.Decision.Texts.{Texts}
use tiktok_b2b_bot_mirror.Decision.Checkpoints.{Answer, NewCheckpoint}
use tiktok_b2b_bot_mirror.Decision.Definitions.{CheckpointDefinition}
use tiktok_b2b_bot_mirror.Decision.Gate.{open_session, resolve, poll, cleanup}

-- One call, with the arguments of its method; the first number is the time.
pub data GateCall : Type 0 where
  opens : ℕ → ℕ → ℕ → NewCheckpoint → GateCall
  answers : ℕ → ℕ → ℕ → Answer → GateCall
  turns : ℕ → ℕ → ℕ → CheckpointDefinition → String → ℕ → GateCall
  gives_up : ℕ → ℕ → ℕ → String → GateCall
  cancels : ℕ → ℕ → GateCall

module _ (texts : Texts) where
  unfoldable pub serve : GateCall → Db → Db
  unfolding open_session resolve poll cleanup request_cancel
  serve (opens clock id job_id new) db = committed db (open_session texts clock id job_id new db)
  serve (answers clock job_id id answer) db = (resolve texts clock job_id id answer db).1
  serve (turns clock job_id id definition default version) db =
      (poll texts clock job_id id definition default version db).1
  serve (gives_up clock job_id id stage) db = (cleanup texts clock job_id id stage db).1
  serve (cancels now job_id) db = committed db (request_cancel now job_id db)

  unfoldable pub serve_all : List GateCall → Db → Db
  unfolding serve
  serve_all [] db = db
  serve_all (c ∷ rest) db = serve_all rest (serve c db)
