-- ===== src/Schedule/Runs.antt =====
-- The runs that the two searches find.
use tiktok_b2b_bot_mirror.Prelude.{
  same_value, ℕ, zero, suc, ◌+◌, ◌*◌, ◌/◌, ◌≤◌, ◌<◌, ◌≡◌, refl, sym, ◌∙◌, inl, inr, ◌⊎◌, Bool, true,
  false, Bool-cases, Option, some, or_raise-ok, String, ok, bind-ok, ok-injective, ◌>>=◌, arith,
}
use tiktok_b2b_bot_mirror.Schedule.Text.{Text}
use tiktok_b2b_bot_mirror.Schedule.Cron.{
  CronExpression, LocalTime, parse, matches, microseconds, search_rounds, search_forward,
  search_back, next_cron_run, previous_cron_run,
}

-- `m` is the first minute from `cursor` on, and among `rounds` of them, that passes the test.
pub record IsFirst (test : ℕ → Bool) (cursor rounds m : ℕ) : Type 0 where
  pub from : cursor ≤ m
  pub within : m < cursor + rounds
  pub passes : test m ≡ true
  pub none_before : (u : ℕ) → cursor ≤ u → u < m → test u ≡ false

forward-IsFirst :
    (rounds : ℕ) (test : ℕ → Bool) (cursor m : ℕ)
    → search_forward rounds test cursor ≡ ok m
    → IsFirst test cursor rounds m
unfolding search_forward
forward-IsFirst zero test cursor m h = cc
forward-IsFirst (suc rounds) test cursor m h = elim (Bool-cases (test cursor)) [
  | inl e ↦
      let same : cursor ≡ m = ground (arith, e) in
      record {
        from = omega arith;
        within = omega arith;
        passes = rw (sym same) e;
        none_before = λ u low high. absurd (omega arith);
      }
  | inr e ↦
      let h' : search_forward rounds test (cursor + 1) ≡ ok m = ground (arith, e) in
      let f = forward-IsFirst rounds test (cursor + 1) m h' in
      let from : cursor + 1 ≤ m = f.from in
      let within : m < cursor + 1 + rounds = f.within in
      record {
        from = omega arith;
        within = omega arith;
        passes = f.passes;
        none_before = λ u low high. elim (later_or_here cursor u low) [
          | inl here ↦ rw (sym here) e
          | inr later ↦ f.none_before u later high
        ];
      }
]
  where
    later_or_here : (a b : ℕ) → a ≤ b → (a ≡ b) ⊎ (a + 1 ≤ b)
    later_or_here a b h = ground arith

back_step :
    (rounds : ℕ) (test : ℕ → Bool) (cursor : ℕ)
    → test (suc cursor) ≡ false
    → search_back (suc rounds) test (suc cursor) ≡ search_back rounds test cursor
unfolding search_back
back_step rounds test cursor e = rw (e, search_back) refl

-- Where the last minute that passes the test is in reach, the search back finds it.
back_finds :
    (rounds : ℕ) (test : ℕ → Bool) (cursor m : ℕ)
    → m ≤ cursor
    → cursor < m + rounds
    → test m ≡ true
    → ((u : ℕ) → m < u → u ≤ cursor → test u ≡ false)
    → search_back rounds test cursor ≡ ok m
unfolding search_back
back_finds zero test cursor m h k t missing = absurd (omega arith)
back_finds (suc rounds) test zero m h k t missing =
    let same : m ≡ 0 = omega arith in
    let at_zero : test 0 ≡ true = rw (sym same) t in ground (arith, at_zero, same)
back_finds (suc rounds) test (suc cursor) m h k t missing = elim (reached m cursor h) [
  | inl same ↦ let here : test (suc cursor) ≡ true = rw (sym same) t in ground (arith, here, same)
  | inr before ↦
      let missed : test (suc cursor) ≡ false = missing (suc cursor) (omega arith) (omega arith) in
      let further =
        back_finds rounds test cursor m before (omega arith) t
          λ u low high. missing u low (omega arith) in
      back_step rounds test cursor missed ∙ further
]
  where
    reached : (m cursor : ℕ) → m ≤ suc cursor → (m ≡ suc cursor) ⊎ (m ≤ cursor)
    reached m cursor h = ground arith

module _ (zone_info : String → Option (ℕ → LocalTime)) where
  -- The run is the first one after `after`: a whole minute that matches the expression at its local
  -- time.
  pub record IsNextRun (expression : Text) (zone : String) (after run : ℕ) : Type 0 where
    pub cron : CronExpression
    pub local : ℕ → LocalTime
    pub minute : ℕ
    pub parsed : parse expression ≡ ok cron
    pub zoned : zone_info zone ≡ some local
    pub whole : run ≡ minute * microseconds
    pub later : after < run
    pub matched : matches cron (local minute) ≡ true
    pub soon : minute < after / microseconds + 1 + search_rounds
    pub none_between :
        (u : ℕ) → after < u * microseconds → u < minute → matches cron (local u) ≡ false

  -- When `next_cron_run` returns, it returns the first run strictly after `after`, at most five
  -- years of 366 days later.
  pub next_is_first :
      (expression : Text) (zone : String) (after run : ℕ)
      → next_cron_run zone_info expression zone after ≡ ok run
      → IsNextRun expression zone after run
  unfolding next_cron_run
  next_is_first expression zone after run h =
      let (cron, parsed, h1) = bind-ok _ _ run h in
      let (local, zoned, h2) = bind-ok _ _ run h1 in
      let (minute, found, h3) = bind-ok _ _ run h2 in
      let f = forward-IsFirst search_rounds _ (after / microseconds + 1) minute found in
      let from : after / microseconds + 1 ≤ minute = f.from in
      let whole : run ≡ minute * microseconds = sym (ok-injective h3) in
      record {
        cron = cron;
        local = local;
        minute = minute;
        parsed = parsed;
        zoned = or_raise-ok _ _ local zoned;
        whole = whole;
        later = omega arith;
        matched = f.passes;
        soon = f.within;
        none_between = λ u low high. f.none_before u (omega arith) high;
      }

  -- Between two runs that follow each other, the previous run is the first of the two: this is what
  -- the scheduler takes for the latest run.
  pub previous-next :
      (expression : Text) (zone : String) (before run following now : ℕ)
      → next_cron_run zone_info expression zone before ≡ ok run
      → next_cron_run zone_info expression zone run ≡ ok following
      → run ≤ now
      → now < following
      → previous_cron_run zone_info expression zone now ≡ ok run
  unfolding previous_cron_run ◌>>=◌
  previous-next expression zone before run following now h k low high =
      let a = next_is_first expression zone before run h in
      let b = next_is_first expression zone run following k in
      let same_cron : a.cron ≡ b.cron = ok-injective (sym a.parsed ∙ b.parsed) in
      let same_local : a.local ≡ b.local = same_value (sym a.zoned ∙ b.zoned) in
      let run_minute : run ≡ a.minute * microseconds = a.whole in
      let following_minute : following ≡ b.minute * microseconds = b.whole in
      let soon : b.minute < run / microseconds + 1 + search_rounds = b.soon in
      let found : search_back search_rounds (λ m. matches a.cron (a.local m)) (now / microseconds)
          ≡ ok a.minute =
        back_finds search_rounds (λ m. matches a.cron (a.local m)) (now / microseconds) a.minute
          (omega arith) (omega arith) a.matched
          λ u after until.
            rw (same_cron, same_local) (b.none_between u (omega arith) (omega arith)) in
      rw (a.parsed, a.zoned, found) (rw run_minute refl)
