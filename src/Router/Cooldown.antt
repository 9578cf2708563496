-- ===== src/Router/Cooldown.antt =====
-- A circuit that has opened stays open while it cools down, and lets one probe through afterwards.
use tiktok_b2b_bot_mirror.Prelude.{
  ℕ, ◌+◌, ◌-◌, ◌<◌, ◌≤◌, ◌≡◌, ◌∙◌, refl, sym, subst, ap, String, ◌==◌, nat_eq, string_eq, eq_iff,
  true, false, not, none, some, List, [], ◌∷◌, All, inl, inr, Bool-cases, arith, nat_beq_iff, ltb,
  leb,
}
use tiktok_b2b_bot_mirror.Router.Circuit.{
  CircuitStatus, CircuitStatus-discrete, CircuitState, CircuitLease, Circuits, claim, claim_probe,
  claim_circuit, succeeded, failed, aborted, is_lost, count_failure, circuit_of, set_circuit,
  circuit_cooldown, circuit_failure_threshold, lease_of, Step, claims, succeeds, fails, aborts,
  provider_of, advance, step, run,
}

circuit-set_same :
    (id : String) (c : CircuitState) (d : Circuits) → circuit_of id (set_circuit id c d) ≡ c
unfolding circuit_of set_circuit
circuit-set_same id c d = rw ((eq_iff id id).1 refl) refl

circuit-set_other :
    (id key : String) (c : CircuitState) (d : Circuits)
    → (key == id) ≡ false
    → circuit_of id (set_circuit key c d) ≡ circuit_of id d
unfolding circuit_of set_circuit
circuit-set_other id key c d h = rw h refl

-- While a circuit cools down that has opened at a moment: a claim before the end of the minute, or
-- the report of a lease of the generation that has just ended, or of an earlier one.
abbrev pub IsStale : ℕ → ℕ → Step → Type 0
IsStale g opened_at (claims id now) = now < opened_at + circuit_cooldown
IsStale g opened_at (succeeds lease) = lease.generation ≤ g
IsStale g opened_at (fails lease retryable now) = lease.generation ≤ g
IsStale g opened_at (aborts lease now) = lease.generation ≤ g

-- So it is for the steps about one provider; those about others are free.
abbrev pub IsQuiet : String → ℕ → ℕ → Step → Type 0
IsQuiet id g opened_at s = provider_of s ≡ id → IsStale g opened_at s

claim_early :
    (id : String) (now : ℕ) (c : CircuitState)
    → c.state ≡ CircuitStatus.circuit_open
    → now < c.opened_at + circuit_cooldown
    → claim id now c ≡ (none, c)
unfolding claim CircuitStatus-discrete
claim_early id now c h early =
    let short : ltb (now - c.opened_at) circuit_cooldown ≡ true = ground arith in rw (h, short) refl

claim_late :
    (id : String) (now : ℕ) (c : CircuitState)
    → c.state ≡ CircuitStatus.circuit_open
    → c.probe_in_flight ≡ false
    → c.opened_at + circuit_cooldown ≤ now
    → claim id now c ≡ (
      some (lease_of id c true),
      record c { state = CircuitStatus.circuit_half_open; probe_in_flight = true },
    )
unfolding claim claim_probe CircuitStatus-discrete
claim_late id now c h idle late =
    let long : ltb (now - c.opened_at) circuit_cooldown ≡ false = ground arith in
    rw (h, long, idle) refl

claim_busy :
    (id : String) (now : ℕ) (c : CircuitState)
    → c.state ≡ CircuitStatus.circuit_half_open
    → c.probe_in_flight ≡ true
    → claim id now c ≡ (none, c)
unfolding claim claim_probe CircuitStatus-discrete
claim_busy id now c h busy = rw (h, busy) refl

old_lease : (g g' : ℕ) → g ≤ g' → not (g == (g' + 1)) ≡ true
old_lease g g' h = ground arith

abbrev opened_circuit : ℕ → ℕ → ℕ → CircuitState
opened_circuit failures g now = record {
  state = CircuitStatus.circuit_open;
  consecutive_failures = failures;
  opened_at = now;
  probe_in_flight = false;
  generation = g + 1;
}

advance_stale :
    (s : Step) (failures g now : ℕ)
    → IsStale g now s
    → advance s (opened_circuit failures g now) ≡ opened_circuit failures g now
unfolding advance succeeded failed aborted
advance_stale (claims id t) failures g now early = ap (λ r. r.1) (claim_early id t _ refl early)
advance_stale (succeeds lease) failures g now old = rw (old_lease lease.generation g old) refl
advance_stale (fails lease retryable t) failures g now old =
    rw (old_lease lease.generation g old) refl
advance_stale (aborts lease t) failures g now old = rw (old_lease lease.generation g old) refl

run_quiet :
    (id : String) (failures g now : ℕ) (steps : List Step) (d : Circuits)
    → All (IsQuiet id g now) steps
    → circuit_of id d ≡ opened_circuit failures g now
    → circuit_of id (run steps d) ≡ opened_circuit failures g now
unfolding run step
run_quiet id failures g now [] d quiet here = here
run_quiet id failures g now (s ∷ rest) d quiet here =
    run_quiet id failures g now rest (step s d) quiet.1 (elim (Bool-cases (provider_of s == id)) [
      | inr e ↦ rw (circuit-set_other id (provider_of s) _ d e) here
      | inl e ↦
          let same : provider_of s ≡ id = (eq_iff _ _).0 e in
          rw (same, here, advance_stale s failures g now (quiet.0 same)) (circuit-set_same id _ d)
    ])

failed_third :
    (lease : CircuitLease) (now : ℕ) (c : CircuitState)
    → lease.generation ≡ c.generation
    → lease.half_open ≡ false
    → circuit_failure_threshold ≤ c.consecutive_failures + 1
    → failed lease true now c ≡ opened_circuit (c.consecutive_failures + 1) lease.generation now
unfolding failed is_lost count_failure
failed_third lease now c current plain third =
    let same : (lease.generation == c.generation) ≡ true = (nat_beq_iff _ _).1 current in
    let reached : leb circuit_failure_threshold (c.consecutive_failures + 1) ≡ true =
      ground arith in
    rw (same, plain, reached, current) refl

-- While the probe is out: a claim at any moment, or the report of a lease of the generation that had
-- ended when the circuit opened, or of an earlier one. What other providers do is free.
abbrev pub IsUnrelated : String → ℕ → Step → Type 0
IsUnrelated id g (claims id' now) = Unit
IsUnrelated id g (succeeds lease) = lease.provider_id ≡ id → lease.generation ≤ g
IsUnrelated id g (fails lease retryable now) = lease.provider_id ≡ id → lease.generation ≤ g
IsUnrelated id g (aborts lease now) = lease.provider_id ≡ id → lease.generation ≤ g

abbrev probed_circuit : ℕ → ℕ → ℕ → CircuitState
probed_circuit failures g now = record (opened_circuit failures g now) {
  state = CircuitStatus.circuit_half_open;
  probe_in_flight = true;
}

advance_unrelated :
    (s : Step) (failures g now : ℕ)
    → IsUnrelated (provider_of s) g s
    → advance s (probed_circuit failures g now) ≡ probed_circuit failures g now
unfolding advance succeeded failed aborted provider_of
advance_unrelated (claims id t) failures g now u =
    ap (λ r. r.1) (claim_busy id t (probed_circuit failures g now) refl refl)
advance_unrelated (succeeds lease) failures g now u =
    rw (old_lease lease.generation g (u refl)) refl
advance_unrelated (fails lease retryable t) failures g now u =
    rw (old_lease lease.generation g (u refl)) refl
advance_unrelated (aborts lease t) failures g now u =
    rw (old_lease lease.generation g (u refl)) refl

run_unrelated :
    (id : String) (failures g now : ℕ) (steps : List Step) (d : Circuits)
    → All (IsUnrelated id g) steps
    → circuit_of id d ≡ probed_circuit failures g now
    → circuit_of id (run steps d) ≡ probed_circuit failures g now
unfolding run step
run_unrelated id failures g now [] d free here = here
run_unrelated id failures g now (s ∷ rest) d free here =
    run_unrelated id failures g now rest (step s d) free.1
      (elim (Bool-cases (provider_of s == id)) [
        | inr e ↦ rw (circuit-set_other id (provider_of s) _ d e) here
        | inl e ↦
            let same : provider_of s ≡ id = (eq_iff _ _).0 e in
            let u = subst (λ p. IsUnrelated p g s) (sym same) free.0 in
            rw (same, here, advance_unrelated s failures g now u) (circuit-set_same id _ d)
      ])

-- When a request reports a retryable failure with a current lease, and it is the third in a row,
-- then, as long as its provider only sees claims in the next minute and reports of leases of this
-- generation or earlier ones, a claim in this minute is refused; a later one gets the probe of the
-- next generation; and as long as the provider then only sees claims, however many and whenever, and
-- reports of leases of the old generation or earlier ones, every further claim is refused.
pub opens_for_cooldown :
    (lease : CircuitLease) (now early late again : ℕ) (steps waiting : List Step) (d : Circuits)
    → lease.generation ≡ (circuit_of lease.provider_id d).generation
    → lease.half_open ≡ false
    → circuit_failure_threshold ≤ (circuit_of lease.provider_id d).consecutive_failures + 1
    → All (IsQuiet lease.provider_id lease.generation now) steps
    → early < now + circuit_cooldown
    → now + circuit_cooldown ≤ late
    → All (IsUnrelated lease.provider_id lease.generation) waiting
    → let after = run (fails lease true now ∷ steps) d in
      let probed = claim_circuit lease.provider_id late after in
      ((claim_circuit lease.provider_id early after).0 ≡ none)
      × (probed.0
          ≡ some record {
            provider_id = lease.provider_id;
            generation = lease.generation + 1;
            half_open = true;
          })
      × ((claim_circuit lease.provider_id again (run waiting probed.1)).0 ≡ none)
unfolding run step claim_circuit
opens_for_cooldown lease now early late again steps waiting d current plain third quiet soon later
      free =
    let id = lease.provider_id in
    let failures = (circuit_of id d).consecutive_failures + 1 in
    let tripped : circuit_of id (step (fails lease true now) d)
        ≡ opened_circuit failures lease.generation now =
      circuit-set_same id _ d ∙ failed_third lease now (circuit_of id d) current plain third in
    let cooling = opened_circuit failures lease.generation now in
    let after = run steps (step (fails lease true now) d) in
    let kept : circuit_of id after ≡ cooling =
      run_quiet id failures lease.generation now steps _ quiet tripped in
    let probe = claim_late id late cooling refl refl later in
    let probed : circuit_of id (claim_circuit id late after).1
        ≡ probed_circuit failures lease.generation now =
      circuit-set_same id _ after ∙ ap (λ c. (claim id late c).1) kept ∙ ap (λ r. r.1) probe in
    let waited = run_unrelated id failures lease.generation now waiting _ free probed in
    (
      rw kept (ap (λ r. r.0) (claim_early id early cooling refl soon)),
      rw kept (ap (λ r. r.0) probe),
      ap (λ c. (claim id again c).0) waited
          ∙ ap (λ r. r.0)
              (claim_busy id again (probed_circuit failures lease.generation now) refl refl),
    )
