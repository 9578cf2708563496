-- ===== src/States/StagePaths.antt =====
-- The life cycle of one stage as a step relation, and what validate_stage_transition accepts.
use tiktok_b2b_bot_mirror.Prelude.{
  name-find_name, String, ◌≡◌, refl, ◌↔◌, Bool, true, Option, none, some, ok, arith,
}
use tiktok_b2b_bot_mirror.States.StageStatus.{
  StageStatus, pending, running, waiting_decision, succeeded, failed, skipped, cancelled, name, all,
  parse, validate_known_transition, validate_stage_transition,
}

infix 40 ◌⟶◌ ◌⟶*◌
pub data ◌⟶◌ : StageStatus → StageStatus → Type 0 where
  start : pending ⟶ running
  skip : pending ⟶ skipped
  drop : pending ⟶ cancelled
  succeed : running ⟶ succeeded
  fail : running ⟶ failed
  skip_running : running ⟶ skipped
  cancel_running : running ⟶ cancelled
  pause : running ⟶ waiting_decision
  resume : waiting_decision ⟶ running
  fail_waiting : waiting_decision ⟶ failed
  cancel_waiting : waiting_decision ⟶ cancelled
  restart : failed ⟶ running

pub data ◌⟶*◌ : StageStatus → StageStatus → Type 0 where
  here : {s : StageStatus} → s ⟶* s
  then : {s t u : StageStatus} → s ⟶ t → t ⟶* u → s ⟶* u

pub ruleset edges = (
  start, skip, drop, succeed, fail, skip_running, cancel_running, pause, resume, fail_waiting,
  cancel_waiting, restart,
)

parse-name : (s : StageStatus) → parse (name s) ≡ some s
unfolding parse name
parse-name pending = refl
parse-name _ = refl

parse_sound : (text : String) {s : StageStatus} → parse text ≡ some s → text ≡ name s
unfolding parse name
parse_sound text h = name-find_name name text all h

pub known-step : (c t : StageStatus) → validate_known_transition c t ≡ ok true → c ⟶ t
unfolding validate_known_transition
known-step pending t h = grind (arith, edges)
known-step _ t h = grind (arith, edges)

step-known : {c t : StageStatus} → c ⟶ t → validate_known_transition c t ≡ ok true
unfolding validate_known_transition
step-known start = refl
step-known _ = refl

-- `validate_stage_transition` accepts two texts exactly when they are the names of two statuses
-- that an edge of the stage life cycle joins.
pub validate_stage_transition_iff :
    (current target : String)
    → (validate_stage_transition current target ≡ ok true)
      ↔ ((c : StageStatus) × (t : StageStatus) × (current ≡ name c) × (target ≡ name t) × (c ⟶ t))
unfolding validate_stage_transition
validate_stage_transition_iff current target =
    (accepted (parse current) (parse target) refl refl, listed)
  where
    accepted :
        (c t : Option StageStatus)
        → parse current ≡ c
        → parse target ≡ t
        → validate_stage_transition current target ≡ ok true
        → (c : StageStatus) × (t : StageStatus) × (current ≡ name c) × (target ≡ name t) × (c ⟶ t)
    accepted none t p q h = absurd (ground (arith, p))
    accepted (some c) none p q h = absurd (ground (arith, p, q))
    accepted (some c) (some t) p q h =
        (c, t, parse_sound current p, parse_sound target q, known-step c t (ground (arith, p, q)))

    listed :
        (c : StageStatus) × (t : StageStatus) × (current ≡ name c) × (target ≡ name t) × (c ⟶ t)
        → validate_stage_transition current target ≡ ok true
    listed (c, t, p, q, e) = rw (p, q, parse-name, parse-name) (step-known e)

-- A stage that was done, skipped or cancelled is never touched again; `failed` is the one
-- terminal stage status that can be left, to run the stage once more.
pub data IsClosed : StageStatus → Type 0 where
  done : IsClosed succeeded
  passed_over : IsClosed skipped
  given_up : IsClosed cancelled

IsClosed-stuck : {s t : StageStatus} → s ⟶ t → ¬ (IsClosed s)
IsClosed-stuck start c = elim c [ ]
IsClosed-stuck skip c = elim c [ ]
IsClosed-stuck drop c = elim c [ ]
IsClosed-stuck succeed c = elim c [ ]
IsClosed-stuck fail c = elim c [ ]
IsClosed-stuck skip_running c = elim c [ ]
IsClosed-stuck cancel_running c = elim c [ ]
IsClosed-stuck pause c = elim c [ ]
IsClosed-stuck resume c = elim c [ ]
IsClosed-stuck fail_waiting c = elim c [ ]
IsClosed-stuck cancel_waiting c = elim c [ ]
IsClosed-stuck restart c = elim c [ ]

pub closed_absorbs : {s t : StageStatus} → s ⟶* t → IsClosed s → t ≡ s
closed_absorbs here c = refl
closed_absorbs (then e p) c = absurd (IsClosed-stuck e c)

pub ⟶*_trans : {s t u : StageStatus} → s ⟶* t → t ⟶* u → s ⟶* u
⟶*_trans here q = q
⟶*_trans (then e p) q = then e (⟶*_trans p q)

-- One edge, out of a status that is known by an equation.
pub one_step : {s t u : StageStatus} → s ≡ t → t ⟶ u → s ⟶* u
one_step e step = rw e (then step here)

-- The check returns, whatever it returns, for the edges only.
pub passed-step : (c t : StageStatus) (b : Bool) → validate_known_transition c t ≡ ok b → c ⟶ t
unfolding validate_known_transition
passed-step pending t b h = grind (arith, edges)
passed-step _ t b h = grind (arith, edges)
