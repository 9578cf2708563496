-- ===== src/Router/Tests.antt =====
-- A provider that fails three times in a row, and the reports of requests that began before.
use tiktok_b2b_bot_mirror.Prelude.{◌≡◌, refl, true, false, none, some, List, [], ◌∷◌, arith}
use tiktok_b2b_bot_mirror.Router.Circuit.{
  CircuitLease, Circuits, claim_circuit, run, circuit_of, Step,
}
use tiktok_b2b_bot_mirror.Router.Cooldown.{opens_for_cooldown}

abbrev request : CircuitLease
request = record { provider_id = "main"; generation = 0; half_open = false }

abbrev probe : CircuitLease
probe = record { provider_id = "main"; generation = 1; half_open = true }

abbrev unused : Circuits
unused = λ id. none

abbrev failed_twice : Circuits
failed_twice = run (Step.fails request true 1000 ∷ Step.fails request true 2000 ∷ []) unused

-- A request that began before succeeds, one is aborted, and a new one comes too early.
abbrev meanwhile : List Step
meanwhile =
    Step.succeeds request
    ∷ Step.aborts request 4000
    ∷ Step.claims "main" 62000
    ∷ Step.claims "other" 99000
    ∷ []

-- A success in between starts the count again.
run-closed :
    (circuit_of "main" (run (Step.succeeds request ∷ []) failed_twice)).consecutive_failures ≡ 0
unfolding run circuit_of
run-closed = refl

-- A failed probe opens the circuit again, for another minute.
run-reopened :
    (claim_circuit "main" 125000 (
      run
        (Step.fails request true 3000 ∷ Step.claims "main" 66000 ∷ Step.fails probe true 66000 ∷ [])
        failed_twice)).0
    ≡ none
unfolding run claim_circuit
run-reopened = refl

-- A probe that succeeds closes it.
run-recovered :
    (claim_circuit "main" 67000 (
      run
        (Step.fails request true 3000 ∷ Step.claims "main" 66000 ∷ Step.succeeds probe ∷ [])
        failed_twice)).0
    ≡ some record { provider_id = "main"; generation = 2; half_open = false }
unfolding run claim_circuit
run-recovered = refl

-- Two claims and the report of an old request while the probe is out.
abbrev waiting : List Step
waiting = Step.claims "main" 63500 ∷ Step.fails request true 63600 ∷ Step.claims "main" 125000 ∷ []

abbrev tripped : Circuits
tripped = run (Step.fails request true 3000 ∷ meanwhile) failed_twice

opens_for_cooldown_example :
    ((claim_circuit "main" 62000 tripped).0 ≡ none)
    × ((claim_circuit "main" 63000 tripped).0 ≡ some probe)
    × ((claim_circuit "main" 126000 (run waiting (claim_circuit "main" 63000 tripped).1)).0 ≡ none)
unfolding run circuit_of
opens_for_cooldown_example =
    opens_for_cooldown request 3000 62000 63000 126000 meanwhile waiting failed_twice refl refl
      (omega arith)
      ((λ e. omega arith), ((λ e. omega arith), ((λ e. omega arith), ((λ e. cc), tt))))
      (omega arith) (omega arith) (tt, ((λ e. omega arith), (tt, tt)))
