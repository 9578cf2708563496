-- ===== src/States/StageStatus.antt =====
-- models/pipeline_states.py, the Stage part: STAGE_STATUSES, TERMINAL_STAGE_STATUSES,
-- STAGE_STATUS_TRANSITIONS, validate_stage_status and validate_stage_transition.
use tiktok_b2b_bot_mirror.Prelude.{
  String, Comparable, from_discrete, Bool, true, false, Option, List, [], ◌∷◌, ◌++◌, contains,
  find_name, Result, ok, raise_if, or_raise, not, ◌>>=◌, ◌>>◌, string_eq,
}

pub data StageStatus : Type 0 where
  pending running waiting_decision succeeded failed skipped cancelled : StageStatus

unfoldable pub StageStatus-discrete : Discrete StageStatus
StageStatus-discrete = hlevel

instance abbrev pub stage_status_eq : Comparable StageStatus
unfolding StageStatus-discrete
stage_status_eq = from_discrete StageStatus-discrete

unfoldable pub name : StageStatus → String
name pending = "pending"
name running = "running"
name waiting_decision = "waiting_decision"
name succeeded = "succeeded"
name failed = "failed"
name skipped = "skipped"
name cancelled = "cancelled"

abbrev pub all : List StageStatus
all = pending ∷ running ∷ waiting_decision ∷ succeeded ∷ failed ∷ skipped ∷ cancelled ∷ []

unfoldable pub parse : String → Option StageStatus
unfolding find_name name
parse text = find_name name text all

-- TERMINAL_STAGE_STATUSES
abbrev pub terminal_stage_statuses : List StageStatus
terminal_stage_statuses = succeeded ∷ failed ∷ skipped ∷ cancelled ∷ []

unfoldable pub is_terminal : StageStatus → Bool
is_terminal succeeded = true
is_terminal failed = true
is_terminal skipped = true
is_terminal cancelled = true
is_terminal _ = false

-- STAGE_STATUS_TRANSITIONS
unfoldable pub transitions : StageStatus → List StageStatus
transitions pending = running ∷ skipped ∷ cancelled ∷ []
transitions running = terminal_stage_statuses ++ waiting_decision ∷ []
transitions waiting_decision = running ∷ failed ∷ cancelled ∷ []
transitions failed = running ∷ []
transitions _ = []

pub data StateError : Type 0 where
  unknown_status : String → StateError
  invalid_transition : StageStatus → StageStatus → StateError

unfoldable pub validate_stage_status : String → Result StateError StageStatus
unfolding parse
validate_stage_status text = or_raise (parse text) (unknown_status text)

unfoldable pub validate_known_transition : StageStatus → StageStatus → Result StateError Bool
unfolding transitions StageStatus-discrete ◌>>=◌
validate_known_transition current target = do
  raise_if (not (contains target (transitions current))) (invalid_transition current target)
  ok true

unfoldable pub validate_stage_transition : String → String → Result StateError Bool
unfolding validate_stage_status validate_known_transition ◌>>=◌
validate_stage_transition current target = do
  c ← validate_stage_status current
  t ← validate_stage_status target
  validate_known_transition c t
