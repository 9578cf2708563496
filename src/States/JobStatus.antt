-- ===== src/States/JobStatus.antt =====
-- models/pipeline_states.py, the Job part: JOB_STATUSES, TERMINAL_JOB_STATUSES,
-- JOB_STATUS_TRANSITIONS, validate_job_status and validate_job_transition.
use tiktok_b2b_bot_mirror.Prelude.{
  String, Comparable, from_discrete, Bool, true, false, Option, List, [], ◌∷◌, contains, find_name,
  Result, ok, raise_if, or_raise, not, ◌>>=◌, ◌>>◌, string_eq,
}

pub data JobStatus : Type 0 where
  queued running waiting_decision succeeded partial_failed failed cancelling cancelled : JobStatus
  interrupted : JobStatus

unfoldable pub JobStatus-discrete : Discrete JobStatus
JobStatus-discrete = hlevel

instance abbrev pub job_status_eq : Comparable JobStatus
unfolding JobStatus-discrete
job_status_eq = from_discrete JobStatus-discrete

-- The text of each status: JOB_STATUS_QUEUED and the other constants.
unfoldable pub name : JobStatus → String
name queued = "queued"
name running = "running"
name waiting_decision = "waiting_decision"
name succeeded = "succeeded"
name partial_failed = "partial_failed"
name failed = "failed"
name cancelling = "cancelling"
name cancelled = "cancelled"
name interrupted = "interrupted"

abbrev pub all : List JobStatus
all =
    queued ∷ running ∷ waiting_decision ∷ succeeded ∷ partial_failed ∷ failed ∷ cancelling
    ∷ cancelled ∷ interrupted ∷ []

-- `text in JOB_STATUSES`, with the status it names.
unfoldable pub parse : String → Option JobStatus
unfolding find_name name
parse text = find_name name text all

-- TERMINAL_JOB_STATUSES
unfoldable pub is_terminal : JobStatus → Bool
is_terminal succeeded = true
is_terminal partial_failed = true
is_terminal failed = true
is_terminal cancelled = true
is_terminal interrupted = true
is_terminal _ = false

-- JOB_STATUS_TRANSITIONS
unfoldable pub transitions : JobStatus → List JobStatus
transitions queued = running ∷ cancelled ∷ []
transitions running =
    waiting_decision ∷ succeeded ∷ partial_failed ∷ failed ∷ cancelling ∷ interrupted ∷ []
transitions waiting_decision = running ∷ cancelled ∷ interrupted ∷ []
transitions cancelling = cancelled ∷ interrupted ∷ []
transitions _ = []

pub data StateError : Type 0 where
  unknown_status : String → StateError
  invalid_transition : JobStatus → JobStatus → StateError

unfoldable pub validate_job_status : String → Result StateError JobStatus
unfolding parse
validate_job_status text = or_raise (parse text) (unknown_status text)

-- The last test of `validate_job_transition`, on the two statuses already known to be valid.
unfoldable pub validate_known_transition : JobStatus → JobStatus → Result StateError Bool
unfolding transitions JobStatus-discrete ◌>>=◌
validate_known_transition current target = do
  raise_if (not (contains target (transitions current))) (invalid_transition current target)
  ok true

unfoldable pub validate_job_transition : String → String → Result StateError Bool
unfolding validate_job_status validate_known_transition ◌>>=◌
validate_job_transition current target = do
  c ← validate_job_status current
  t ← validate_job_status target
  validate_known_transition c t
