-- ===== src/Concurrency/Limits.antt =====
-- The counters of the manager are right, and its limits are kept.
use tiktok_b2b_bot_mirror.Prelude.{
  ℕ, ◌+◌, ◌-◌, ◌≤◌, ◌<◌, ◌≡◌, ◌∙◌, refl, sym, String, ◌==◌, string_eq, eq_iff, ltb, true, false,
  not, ◌&&◌, Option, List, [], ◌∷◌, inl, inr, Bool-cases, arith, zero, suc,
}
use tiktok_b2b_bot_mirror.Concurrency.Manager.{
  Account, Manager, active_count, limit_of, can_acquire, occupy, try_acquire, remaining, vacate,
  quarantine, release, new_manager, Step, step, run, has_account, remove_account, is_same,
  get_or_zero,
}
use tiktok_b2b_bot_mirror.Concurrency.Counts.{
  int, times, on_platform, is_same_refl, same_account, times-remove, on_platform-remove,
  times-absent, times-absent_iff, times-remove_only, remove-times_le,
}

-- The counter of each platform is the number of its active accounts and within its limit, and no
-- account is twice active, twice quarantined, or both.
pub record IsExact (m : Manager) : Type 0 where
  pub counted : (p : String) → active_count m p ≡ on_platform p m.active_accounts
  pub single : (a : Account) → times a m.active_accounts + times a m.quarantined_accounts ≤ 1
  pub within : (p : String) → active_count m p ≤ limit_of m p

new_manager-IsExact : (limits : String → Option ℕ) → IsExact (new_manager limits)
unfolding new_manager active_count
new_manager-IsExact limits = record {
  counted = λ p. refl;
  single = λ a. omega arith;
  within = λ p. omega arith;
}

-- The new count of a platform, and that of the others.
occupied_count :
    (a : Account) (m : Manager) (p : String)
    → active_count (occupy a m) p ≡ int (a.platform == p) + active_count m p
unfolding active_count occupy
occupied_count a m p = elim (Bool-cases (a.platform == p)) [
  | inl e ↦ let same : a.platform ≡ p = (eq_iff _ _).0 e in rw e (rw same (omega arith))
  | inr e ↦ rw e (omega arith)
]

remaining_count : (n : ℕ) → get_or_zero (remaining n) ≡ n
unfolding remaining
remaining_count zero = refl
remaining_count (suc n) = refl

occupy-IsExact :
    (a : Account) (m : Manager) → can_acquire a m ≡ true → IsExact m → IsExact (occupy a m)
unfolding occupy can_acquire limit_of
occupy-IsExact a m free x = record {
  counted = λ p. rw (occupied_count a m p, x.counted p) refl;
  single = λ b. elim (Bool-cases (is_same a b)) [
    | inl e ↦
        let same : a ≡ b = same_account a b e in
        let away : has_account a m.active_accounts ≡ false = ground arith in
        let clear : has_account a m.quarantined_accounts ≡ false = ground arith in
        let none_active : times b m.active_accounts ≡ 0 = rw (sym same) (times-absent a _ away) in
        let none_quarantined : times b m.quarantined_accounts ≡ 0 =
          rw (sym same) (times-absent a _ clear) in
        rw e (omega arith)
    | inr e ↦ let before = x.single b in rw e (omega arith)
  ];
  within = λ p. elim (Bool-cases (a.platform == p)) [
    | inl e ↦
        let same : a.platform ≡ p = (eq_iff _ _).0 e in
        let room : active_count m a.platform < limit_of m a.platform = ground arith in
        let room_there : active_count m p < limit_of m p = rw same at room in
        rw (occupied_count a m p, e) (omega arith)
    | inr e ↦ let before = x.within p in rw (occupied_count a m p, e) (omega arith)
  ];
}

-- One active account of the platform fewer, if this one was active.
vacated_count :
    (a : Account) (m : Manager) (p : String)
    → has_account a m.active_accounts ≡ true
    → active_count (vacate a m) p ≡ active_count m p - int (a.platform == p)
unfolding active_count vacate
vacated_count a m p h = elim (Bool-cases (a.platform == p)) [
  | inl e ↦ let same : a.platform ≡ p = (eq_iff _ _).0 e in rw (h, e) (rw same (remaining_count _))
  | inr e ↦ rw (h, e) (omega arith)
]

vacate-IsExact : (a : Account) (m : Manager) → IsExact m → IsExact (vacate a m)
unfolding vacate limit_of
vacate-IsExact a m x = elim (Bool-cases (has_account a m.active_accounts)) [
  | inr away ↦ rw away x
  | inl there ↦ record {
    counted = λ p.
        let before = x.counted p in
        let removed = on_platform-remove p a m.active_accounts there in
        vacated_count a m p there ∙ rw there (omega arith);
    single = λ b.
        let before = x.single b in
        let removed = times-remove b a m.active_accounts there in rw there (omega arith);
    within =
        λ p. let before = x.within p in rw (vacated_count a m p there) (rw there (omega arith));
  }
]

vacate-quarantined :
    (a : Account) (m : Manager) → (vacate a m).quarantined_accounts ≡ m.quarantined_accounts
unfolding vacate
vacate-quarantined a m = ground arith

-- A vacated account is not active.
vacated_times : (a : Account) (m : Manager) → IsExact m → times a (vacate a m).active_accounts ≡ 0
unfolding vacate
vacated_times a m x = elim (Bool-cases (has_account a m.active_accounts)) [
  | inl there ↦
      let before = x.single a in
      let removed : times a m.active_accounts ≡ 1 + times a (remove_account a m.active_accounts) =
        rw (is_same_refl a) at (times-remove a a m.active_accounts there) in
      rw there (omega arith)
  | inr away ↦ rw away (times-absent a m.active_accounts away)
]

quarantine-IsExact : (a : Account) (m : Manager) → IsExact m → IsExact (quarantine a m)
unfolding quarantine active_count limit_of
quarantine-IsExact a m x = elim (Bool-cases (has_account a m.quarantined_accounts)) [
  | inl there ↦ rw there x
  | inr away ↦
      let y = vacate-IsExact a m x in
      rw away record {
        counted = y.counted;
        within = y.within;
        single = λ b.
            let before : times b (vacate a m).active_accounts + times b m.quarantined_accounts ≤ 1 =
              rw (vacate-quarantined a m) at (y.single b) in
            elim (Bool-cases (is_same a b)) [
              | inr e ↦ rw e (omega arith)
              | inl e ↦
                  let same : a ≡ b = same_account a b e in
                  let gone : times b (vacate a m).active_accounts ≡ 0 =
                    rw (sym same) (vacated_times a m x) in
                  let clear : times b m.quarantined_accounts ≡ 0 =
                    rw (sym same) (times-absent a _ away) in
                  rw e (omega arith)
            ];
      }
]

release-IsExact : (a : Account) (m : Manager) → IsExact m → IsExact (release a m)
unfolding release active_count limit_of
release-IsExact a m x =
    elim (Bool-cases
      (not (has_account a m.active_accounts) && not (has_account a m.quarantined_accounts))) [
        | inl away ↦ rw away x
        | inr there ↦
            let y = vacate-IsExact a m x in
            rw there record {
              counted = y.counted;
              within = y.within;
              single = λ b.
                  let before : times b (vacate a m).active_accounts + times b m.quarantined_accounts
                      ≤ 1 =
                    rw (vacate-quarantined a m) at (y.single b) in
                  let fewer = remove-times_le b a m.quarantined_accounts in omega arith;
            }
      ]

try_acquire-IsExact : (a : Account) (m : Manager) → IsExact m → IsExact (try_acquire a m).1
unfolding try_acquire
try_acquire-IsExact a m x = elim (Bool-cases (ltb 0 (limit_of m a.platform))) [
  | inr none_allowed ↦ rw none_allowed x
  | inl allowed ↦ elim (Bool-cases (can_acquire a m)) [
    | inl free ↦ rw (allowed, free) (occupy-IsExact a m free x)
    | inr busy ↦ rw (allowed, busy) x
  ]
]

step-IsExact : (s : Step) (m : Manager) → IsExact m → IsExact (step s m)
unfolding step
step-IsExact (Step.acquires a) m x = try_acquire-IsExact a m x
step-IsExact (Step.quarantines a) m x = quarantine-IsExact a m x
step-IsExact (Step.releases a) m x = release-IsExact a m x

run-IsExact_from : (steps : List Step) (m : Manager) → IsExact m → IsExact (run steps m)
unfolding run
run-IsExact_from [] m x = x
run-IsExact_from (s ∷ rest) m x = run-IsExact_from rest (step s m) (step-IsExact s m x)

-- The limits are never written.
step-limits : (s : Step) (m : Manager) → (step s m).limits ≡ m.limits
unfolding step try_acquire occupy quarantine release vacate
step-limits (Step.acquires a) m = ground arith
step-limits (Step.quarantines a) m = ground arith
step-limits (Step.releases a) m = ground arith

run-limits : (steps : List Step) (m : Manager) → (run steps m).limits ≡ m.limits
unfolding run
run-limits [] m = refl
run-limits (s ∷ rest) m = run-limits rest (step s m) ∙ step-limits s m

-- However tasks acquire, quarantine and release accounts, in whatever order: the counter of each
-- platform is the number of its active accounts, which is within the platform's limit (0 without
-- one), and no account is twice active, twice quarantined, or both.
pub run-IsExact :
    (limits : String → Option ℕ) (steps : List Step)
    → IsExact (run steps (new_manager limits))
      × ((p : String)
          → on_platform p (run steps (new_manager limits)).active_accounts ≤ get_or_zero (limits p))
unfolding limit_of new_manager run
run-IsExact limits steps =
    let x = run-IsExact_from steps (new_manager limits) (new_manager-IsExact limits) in
    (
      x,
      λ p.
          let bound : active_count (run steps (new_manager limits)) p ≤ get_or_zero (limits p) =
            rw (run-limits steps (new_manager limits)) at (x.within p) in
          rw (x.counted p) at bound,
    )

released :
    (a : Account) (m : Manager)
    → IsExact m
    → (has_account a (release a m).active_accounts ≡ false)
      × (has_account a (release a m).quarantined_accounts ≡ false)
unfolding release
released a m x =
    elim (Bool-cases
      (not (has_account a m.active_accounts) && not (has_account a m.quarantined_accounts))) [
        | inl away ↦
            let idle : has_account a m.active_accounts ≡ false = ground arith in
            let clear : has_account a m.quarantined_accounts ≡ false = ground arith in
            rw away (idle, clear)
        | inr there ↦
            let before = x.single a in
            let once : times a m.quarantined_accounts ≤ 1 = omega arith in
            rw there (
              times-absent_iff a _ (vacated_times a m x),
              times-absent_iff a _ (times-remove_only a m.quarantined_accounts once),
            )
      ]

-- After the release of an account in a manager whose counters are exact, `try_acquire` gives it a
-- lease again, if the platform then has fewer active accounts than its limit.
pub release_frees :
    (a : Account) (m : Manager)
    → IsExact m
    → active_count (release a m) a.platform < limit_of (release a m) a.platform
    → try_acquire a (release a m) ≡ (true, occupy a (release a m))
unfolding try_acquire can_acquire
release_frees a m x room =
    let (idle, clear) = released a m x in
    let allowed : ltb 0 (limit_of (release a m) a.platform) ≡ true = ground arith in
    let below : ltb (active_count (release a m) a.platform) (limit_of (release a m) a.platform)
        ≡ true =
      ground arith in
    rw (allowed, below, idle, clear) refl
