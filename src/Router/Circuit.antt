-- ===== src/Router/Circuit.antt =====
-- The circuits of LLMRouter. Each method holds the lock of one circuit, so it is a step. The clock
-- counts milliseconds. The dictionary of circuits is a function; `setdefault` reads a new circuit
-- where it has no entry, and stores it.
use tiktok_b2b_bot_mirror.Prelude.{
  ℕ, ◌+◌, ◌-◌, String, ◌==◌, nat_eq, string_eq, ltb, leb, Bool, true, false, not, ◌&&◌, ◌||◌,
  Option, none, some, List, [], ◌∷◌, Comparable, from_discrete, if◌then◌else◌,
}

pub data CircuitStatus : Type 0 where
  circuit_closed circuit_open circuit_half_open : CircuitStatus

unfoldable pub CircuitStatus-discrete : Discrete CircuitStatus
CircuitStatus-discrete = hlevel

instance abbrev pub circuit_status_eq : Comparable CircuitStatus
unfolding CircuitStatus-discrete
circuit_status_eq = from_discrete CircuitStatus-discrete

abbrev pub circuit_failure_threshold : ℕ
circuit_failure_threshold = 3

-- 60 seconds
abbrev pub circuit_cooldown : ℕ
circuit_cooldown = 60000

pub record CircuitState : Type 0 where
  pub state : CircuitStatus
  pub consecutive_failures : ℕ
  pub opened_at : ℕ
  pub probe_in_flight : Bool
  pub generation : ℕ

abbrev pub new_circuit : CircuitState
new_circuit = record {
  state = circuit_closed;
  consecutive_failures = 0;
  opened_at = 0;
  probe_in_flight = false;
  generation = 0;
}

pub record CircuitLease : Type 0 where
  pub provider_id : String
  pub generation : ℕ
  pub half_open : Bool

abbrev pub lease_of : String → CircuitState → Bool → CircuitLease
lease_of id c probe = record { provider_id = id; generation = c.generation; half_open = probe }

-- The end of `_claim_circuit`: one probe at a time.
unfoldable pub claim_probe : String → CircuitState → Option CircuitLease × CircuitState
claim_probe id c =
    if c.probe_in_flight
    then (none, c)
    else (some (lease_of id c true), record c { probe_in_flight = true })

-- `_claim_circuit` on the circuit of the provider
unfoldable pub claim : String → ℕ → CircuitState → Option CircuitLease × CircuitState
unfolding claim_probe CircuitStatus-discrete
claim id now c =
    if c.state == circuit_closed
    then (some (lease_of id c false), c)
    else if c.state == circuit_open && ltb (now - c.opened_at) circuit_cooldown
    then (none, c)
    else claim_probe id
        (if c.state == circuit_open then record c { state = circuit_half_open } else c)

-- The probe of the lease is no longer awaited.
unfoldable pub is_lost : CircuitLease → CircuitState → Bool
unfolding CircuitStatus-discrete
is_lost lease c = lease.half_open && (not (c.state == circuit_half_open) || not c.probe_in_flight)

-- What the success of a probe, of a request, and a failure that is not retryable write.
unfoldable pub close : CircuitState → CircuitState
close c = record c {
  state = circuit_closed;
  consecutive_failures = 0;
  opened_at = 0;
  probe_in_flight = false;
}

abbrev pub next_generation : CircuitState → CircuitState
next_generation c = record c { generation = c.generation + 1 }

-- `_provider_succeeded` on the circuit
unfoldable pub succeeded : CircuitLease → CircuitState → CircuitState
unfolding is_lost close
succeeded lease c =
    if not (lease.generation == c.generation) || is_lost lease c
    then c
    else close (if lease.half_open then next_generation c else c)

-- What a failed or aborted probe writes.
unfoldable pub reopen : ℕ → CircuitState → CircuitState
reopen now c = record c {
  generation = c.generation + 1;
  state = circuit_open;
  consecutive_failures = circuit_failure_threshold;
  opened_at = now;
  probe_in_flight = false;
}

-- The retryable failure of a request: the circuit opens at the threshold.
unfoldable pub count_failure : ℕ → CircuitState → CircuitState
count_failure now c =
    let failures = c.consecutive_failures + 1 in
    if leb circuit_failure_threshold failures
    then record {
      state = circuit_open;
      consecutive_failures = failures;
      opened_at = now;
      probe_in_flight = false;
      generation = c.generation + 1;
    }
    else record c { consecutive_failures = failures; probe_in_flight = false }

-- `_provider_failed` on the circuit
unfoldable pub failed : CircuitLease → Bool → ℕ → CircuitState → CircuitState
unfolding is_lost close reopen count_failure
failed lease retryable now c =
    if not (lease.generation == c.generation) || is_lost lease c
    then c
    else if lease.half_open
    then reopen now c
    else if not retryable
    then close c
    else count_failure now c

-- `_provider_aborted` on the circuit
unfoldable pub aborted : CircuitLease → ℕ → CircuitState → CircuitState
unfolding is_lost reopen
aborted lease now c =
    if not (lease.generation == c.generation) || not lease.half_open || is_lost lease c
    then c
    else reopen now c

abbrev pub Circuits : Type 0
Circuits = String → Option CircuitState

abbrev pub or_new : Option CircuitState → CircuitState
or_new none = new_circuit
or_new (some c) = c

unfoldable pub circuit_of : String → Circuits → CircuitState
circuit_of id circuits = or_new (circuits id)

unfoldable pub set_circuit : String → CircuitState → Circuits → Circuits
set_circuit id c circuits k = if id == k then some c else circuits k

unfoldable pub claim_circuit : String → ℕ → Circuits → Option CircuitLease × Circuits
unfolding claim circuit_of set_circuit
claim_circuit id now circuits =
    let claimed = claim id now (circuit_of id circuits) in
    (claimed.0, set_circuit id claimed.1 circuits)

-- What the requests of the program do, in the order in which they get the locks.
pub data Step : Type 0 where
  claims : String → ℕ → Step
  succeeds : CircuitLease → Step
  fails : CircuitLease → Bool → ℕ → Step
  aborts : CircuitLease → ℕ → Step

-- The circuit that a step is about, and what it becomes.
unfoldable pub provider_of : Step → String
provider_of (claims id now) = id
provider_of (succeeds lease) = lease.provider_id
provider_of (fails lease retryable now) = lease.provider_id
provider_of (aborts lease now) = lease.provider_id

unfoldable pub advance : Step → CircuitState → CircuitState
unfolding claim succeeded failed aborted
advance (claims id now) c = (claim id now c).1
advance (succeeds lease) c = succeeded lease c
advance (fails lease retryable now) c = failed lease retryable now c
advance (aborts lease now) c = aborted lease now c

unfoldable pub step : Step → Circuits → Circuits
unfolding advance provider_of circuit_of set_circuit
step s circuits =
    set_circuit (provider_of s) (advance s (circuit_of (provider_of s) circuits)) circuits

unfoldable pub run : List Step → Circuits → Circuits
unfolding step
run [] circuits = circuits
run (s ∷ rest) circuits = run rest (step s circuits)
