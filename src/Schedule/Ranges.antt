-- ===== src/Schedule/Ranges.antt =====
-- The values of a cron range are its multiples of the step, and all in the limits of the field.
use tiktok_b2b_bot_mirror.Prelude.{
  ℕ, zero, suc, ◌+◌, ◌-◌, ◌*◌, ◌≤◌, ◌≡◌, ◌↔◌, sym, inl, inr, true, Option, none, some, Memᴰ,
  mem_cases, leb, ltb, ◌||◌, Bool-cases, ok, bind-ok, ok-injective, arith,
}
use tiktok_b2b_bot_mirror.Schedule.Text.{Text, ℤ, pos, negsuc}
use tiktok_b2b_bot_mirror.Schedule.Field.{
  Range, in_limits, parse_component, values_from, values_of, step_of, positive,
}

-- `v` is one of the values of `range(start, last + 1, step)`.
pub record InRange (r : Range) (v : ℕ) : Type 0 where
  pub steps : ℕ
  pub reached : v ≡ r.start + steps * r.step
  pub below : v ≤ r.last

suc_mul : (k step : ℕ) → suc k * step ≡ step + k * step
suc_mul k step = grind arith

values_from_sound :
    (rounds x last step : ℕ) {v : ℕ}
    → Memᴰ v (values_from rounds x last step)
    → (k : ℕ) × (v ≡ x + k * step) × (v ≤ last)
unfolding values_from
values_from_sound zero x last step m = elim m [ ]
values_from_sound (suc rounds) x last step {v} m = elim (Bool-cases (leb x last)) [
  | inr e ↦ elim (rw e at m) [ ]
  | inl e ↦ elim (mem_cases (rw e at m)) [
    | inl here ↦ (0, omega (arith, here), ground (arith, here))
    | inr later ↦
        let (k, reached, below) = values_from_sound rounds (x + step) last step later in
        (suc k, omega (arith, suc_mul k step, reached), below)
  ]
]

values_from_complete :
    (rounds x last step k v : ℕ)
    → v ≡ x + k * step
    → v ≤ last
    → last + 1 - x ≤ rounds
    → 1 ≤ step
    → Memᴰ v (values_from rounds x last step)
unfolding values_from
values_from_complete zero x last step k v e h r s = absurd (omega arith)
values_from_complete (suc rounds) x last step zero v e h r s =
    let inside : leb x last ≡ true = ground arith in rw inside (Memᴰ.head (omega arith))
values_from_complete (suc rounds) x last step (suc k) v e h r s =
    let split : suc k * step ≡ step + k * step = suc_mul k step in
    let inside : leb x last ≡ true = ground arith in
    rw inside (
      Memᴰ.tail
        (values_from_complete rounds (x + step) last step k v (omega arith) h (omega arith) s))

pub values_of_iff : (r : Range) (v : ℕ) → 1 ≤ r.step → (Memᴰ v (values_of r)) ↔ InRange r v
unfolding values_of
values_of_iff r v s = (
  (λ m.
      let (k, reached, below) = values_from_sound _ r.start r.last r.step m in
      record { steps = k; reached = reached; below = below }),
  (λ i. values_from_complete _ r.start r.last r.step i.steps v i.reached i.below (omega arith) s),
)

-- What the tests of one component let through.
pub record Within (minimum maximum : ℕ) (r : Range) : Type 0 where
  pub low : minimum ≤ r.start
  pub high : r.last ≤ maximum
  pub ordered : r.start ≤ r.last
  pub moving : 1 ≤ r.step

limits-Within :
    (minimum maximum step : ℕ) (ends : ℤ × ℤ) (r : Range)
    → 1 ≤ step
    → in_limits minimum maximum step ends ≡ ok r
    → Within minimum maximum r
unfolding in_limits
limits-Within minimum maximum step (pos start, pos last) r s h =
    elim (Bool-cases (ltb start minimum || ltb maximum last || ltb last start)) [
      | inl e ↦ absurd (cc (rw e at h))
      | inr e ↦
          let same : record { start = start; last = last; step = step } ≡ r =
            ok-injective (rw e at h) in
          rw (sym same) (record {
            low = ground (arith, e);
            high = ground (arith, e);
            ordered = ground (arith, e);
            moving = s;
          })
    ]
limits-Within minimum maximum step (pos start, negsuc last) r s h = cc
limits-Within minimum maximum step (negsuc start, last) r s h = cc

positive-le : (n : ℤ) (step : ℕ) → positive n ≡ ok step → 1 ≤ step
unfolding positive
positive-le (pos zero) step h = cc
positive-le (pos (suc n)) step h = rw (sym (ok-injective h)) (omega arith)
positive-le (negsuc n) step h = cc

step_of-le : (o : Option Text) (step : ℕ) → step_of o ≡ ok step → 1 ≤ step
unfolding step_of
step_of-le none step h = rw (sym (ok-injective h)) (omega arith)
step_of-le (some s) step h = let (n, _, h1) = bind-ok _ _ step h in positive-le n step h1

pub component-Within :
    (minimum maximum : ℕ) (c : Text) (r : Range)
    → parse_component minimum maximum c ≡ ok r
    → Within minimum maximum r
unfolding parse_component
component-Within minimum maximum c r h =
    let (_, _, h1) = bind-ok _ _ r h in
    let (step, stepped, h2) = bind-ok _ _ r h1 in
    let (ends, _, h3) = bind-ok _ _ r h2 in
    limits-Within minimum maximum step ends r (step_of-le _ step stepped) h3
