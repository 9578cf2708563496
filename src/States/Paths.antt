-- ===== src/States/Paths.antt =====
-- The life cycles as step relations, and what the validators of models/pipeline_states.py accept.
use tiktok_b2b_bot_mirror.Prelude.{
  or_raise-ok, name-find_name, Bool-cases, String, ◌≡◌, ◌≢◌, refl, sym, ap, ◌∙◌, same_value, ◌↔◌,
  inl, inr, Bool, true, false, Option, none, some, ok, arith,
}
use tiktok_b2b_bot_mirror.States.JobStatus.{
  JobStatus, queued, running, waiting_decision, succeeded, partial_failed, failed, cancelling,
  cancelled, interrupted, name, all, parse, is_terminal, validate_known_transition,
  validate_job_status, validate_job_transition, validate_job_status,
}

infix 40 ◌⟶◌ ◌⟶*◌
-- The edges of the job life cycle.
pub data ◌⟶◌ : JobStatus → JobStatus → Type 0 where
  claim : queued ⟶ running
  drop : queued ⟶ cancelled
  pause : running ⟶ waiting_decision
  resume : waiting_decision ⟶ running
  abandon : waiting_decision ⟶ cancelled
  succeed : running ⟶ succeeded
  fall_short : running ⟶ partial_failed
  fail : running ⟶ failed
  ask_to_stop : running ⟶ cancelling
  stop : cancelling ⟶ cancelled
  lose_running : running ⟶ interrupted
  lose_waiting : waiting_decision ⟶ interrupted
  lose_cancelling : cancelling ⟶ interrupted

pub data ◌⟶*◌ : JobStatus → JobStatus → Type 0 where
  here : {s : JobStatus} → s ⟶* s
  then : {s t u : JobStatus} → s ⟶ t → t ⟶* u → s ⟶* u

pub ruleset edges = (
  claim, drop, pause, resume, abandon, succeed, fall_short, fail, ask_to_stop, stop, lose_running,
  lose_waiting, lose_cancelling,
)

-- The text of a status names it and no other.
pub parse-name : (s : JobStatus) → parse (name s) ≡ some s
unfolding parse name
parse-name queued = refl
parse-name _ = refl

pub parse_sound : (text : String) {s : JobStatus} → parse text ≡ some s → text ≡ name s
unfolding parse name
parse_sound text h = name-find_name name text all h

pub known-step : (c t : JobStatus) → validate_known_transition c t ≡ ok true → c ⟶ t
unfolding validate_known_transition
known-step queued t h = grind (arith, edges)
known-step _ t h = grind (arith, edges)

step-known : {c t : JobStatus} → c ⟶ t → validate_known_transition c t ≡ ok true
unfolding validate_known_transition
step-known claim = refl
step-known _ = refl

-- `validate_job_transition` accepts two texts exactly when they are the names of two statuses that
-- an edge of the job life cycle joins.
pub validate_job_transition_iff :
    (current target : String)
    → (validate_job_transition current target ≡ ok true)
      ↔ ((c : JobStatus) × (t : JobStatus) × (current ≡ name c) × (target ≡ name t) × (c ⟶ t))
unfolding validate_job_transition
validate_job_transition_iff current target =
    (accepted (parse current) (parse target) refl refl, listed)
  where
    accepted :
        (c t : Option JobStatus)
        → parse current ≡ c
        → parse target ≡ t
        → validate_job_transition current target ≡ ok true
        → (c : JobStatus) × (t : JobStatus) × (current ≡ name c) × (target ≡ name t) × (c ⟶ t)
    accepted none t p q h = absurd (ground (arith, p))
    accepted (some c) none p q h = absurd (ground (arith, p, q))
    accepted (some c) (some t) p q h =
        (c, t, parse_sound current p, parse_sound target q, known-step c t (ground (arith, p, q)))

    listed :
        (c : JobStatus) × (t : JobStatus) × (current ≡ name c) × (target ≡ name t) × (c ⟶ t)
        → validate_job_transition current target ≡ ok true
    listed (c, t, p, q, e) = rw (p, q, parse-name, parse-name) (step-known e)

name_injective : (s t : JobStatus) → name s ≡ name t → s ≡ t
name_injective s t e = same_value (sym (parse-name s) ∙ ap (λ text. parse text) e ∙ parse-name t)

accepted_iff : (s t : JobStatus) → (validate_job_transition (name s) (name t) ≡ ok true) ↔ (s ⟶ t)
accepted_iff s t = (
  λ h.
      let (c, d, p, q, e) = (validate_job_transition_iff (name s) (name t)).0 h in
      rw (name_injective s c p, name_injective t d q) e,
  λ e. (validate_job_transition_iff (name s) (name t)).1 (s, t, refl, refl, e),
)

terminal_stuck : {s t : JobStatus} → s ⟶ t → is_terminal s ≡ false
unfolding is_terminal
terminal_stuck claim = refl
terminal_stuck _ = refl

unstuck : (s : JobStatus) → is_terminal s ≡ false → (t : JobStatus) × (s ⟶ t)
unfolding is_terminal
unstuck queued h = (running, claim)
unstuck running h = (failed, fail)
unstuck waiting_decision h = (running, resume)
unstuck cancelling h = (cancelled, stop)
unstuck succeeded h = cc
unstuck partial_failed h = cc
unstuck failed h = cc
unstuck cancelled h = cc
unstuck interrupted h = cc

-- A terminal status is kept for ever: no path of the life cycle leaves it.
pub terminal_absorbs : {s t : JobStatus} → s ⟶* t → is_terminal s ≡ true → t ≡ s
terminal_absorbs here h = refl
terminal_absorbs (then e p) h = cc (terminal_stuck e)

-- TERMINAL_JOB_STATUSES are exactly the statuses from which `validate_job_transition` accepts no
-- move.
pub terminal_iff_stuck :
    (s : JobStatus)
    → (is_terminal s ≡ true)
      ↔ ((t : JobStatus) → ¬ (validate_job_transition (name s) (name t) ≡ ok true))
terminal_iff_stuck s = ((λ h t e. cc (terminal_stuck ((accepted_iff s t).0 e))), ended)
  where
    ended :
        ((t : JobStatus) → ¬ (validate_job_transition (name s) (name t) ≡ ok true))
        → is_terminal s ≡ true
    ended none_left = elim (Bool-cases (is_terminal s)) [
      | inl h ↦ h
      | inr h ↦ let (t, e) = unstuck s h in absurd (none_left t ((accepted_iff s t).1 e))
    ]

no_edge_to_queued : {s t : JobStatus} → s ⟶ t → t ≢ queued
no_edge_to_queued claim = λ e. cc
no_edge_to_queued _ = λ e. cc

back_to_queued : {s t : JobStatus} → s ⟶* t → t ≡ queued → s ≡ queued
back_to_queued here e = e
back_to_queued (then first rest) e = absurd (no_edge_to_queued first (back_to_queued rest e))

-- A way from one status to another by moves that `validate_job_transition` accepts.
pub data AcceptedPath : JobStatus → JobStatus → Type 0 where
  arrived : {s : JobStatus} → AcceptedPath s s
  moved :
      {s t u : JobStatus}
      → validate_job_transition (name s) (name t) ≡ ok true
      → AcceptedPath t u
      → AcceptedPath s u

path_edges : {s t : JobStatus} → AcceptedPath s t → s ⟶* t
path_edges arrived = here
path_edges (moved {s} {t} h p) = then ((accepted_iff s t).0 h) (path_edges p)

edge_path : (s : JobStatus) {t : JobStatus} → s ⟶ t → AcceptedPath s t
edge_path s {t} e = moved ((accepted_iff s t).1 e) arrived

-- From every status a terminal one can be reached by moves that `validate_job_transition` accepts,
-- and no way of such moves comes back to `queued`.
pub lifecycle_ends :
    (s : JobStatus)
    → ((t : JobStatus) × AcceptedPath s t × (is_terminal t ≡ true))
      × (AcceptedPath s queued → s ≡ queued)
unfolding is_terminal
lifecycle_ends s = (to_end s, λ p. back_to_queued (path_edges p) refl)
  where
    to_end : (s : JobStatus) → (t : JobStatus) × AcceptedPath s t × (is_terminal t ≡ true)
    to_end queued = (cancelled, edge_path queued drop, refl)
    to_end running = (failed, edge_path running fail, refl)
    to_end waiting_decision = (cancelled, edge_path waiting_decision abandon, refl)
    to_end cancelling = (cancelled, edge_path cancelling stop, refl)
    to_end succeeded = (succeeded, arrived, refl)
    to_end partial_failed = (partial_failed, arrived, refl)
    to_end failed = (failed, arrived, refl)
    to_end cancelled = (cancelled, arrived, refl)
    to_end interrupted = (interrupted, arrived, refl)

pub ⟶*_trans : {s t u : JobStatus} → s ⟶* t → t ⟶* u → s ⟶* u
⟶*_trans here q = q
⟶*_trans (then e p) q = then e (⟶*_trans p q)

-- One edge, out of a status that is known by an equation.
pub one_step : {s t u : JobStatus} → s ≡ t → t ⟶ u → s ⟶* u
one_step e step = rw e (then step here)

-- The check returns, whatever it returns, for the edges only.
pub passed-step : (c t : JobStatus) (b : Bool) → validate_known_transition c t ≡ ok b → c ⟶ t
unfolding validate_known_transition
passed-step queued t b h = grind (arith, edges)
passed-step _ t b h = grind (arith, edges)

-- A text that is accepted is the name of the status it stands for.
pub validated-name :
    (text : String) (c : JobStatus) → validate_job_status text ≡ ok c → text ≡ name c
unfolding validate_job_status
validated-name text c h = parse_sound text (or_raise-ok _ _ c h)
