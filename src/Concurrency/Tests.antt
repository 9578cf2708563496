-- ===== src/Concurrency/Tests.antt =====
-- The theorems on the concurrency manager at a platform with room for two jobs.
use tiktok_b2b_bot_mirror.Prelude.{
  ℕ, ◌≤◌, ◌≡◌, refl, String, true, Option, none, some, List, [], ◌∷◌, ◌==◌, string_eq,
  if◌then◌else◌, arith,
}
use tiktok_b2b_bot_mirror.Concurrency.Manager.{
  Account, Manager, Step, run, new_manager, active_count, release, try_acquire, occupy, can_acquire,
  get_or_zero,
}
use tiktok_b2b_bot_mirror.Concurrency.Counts.{on_platform}
use tiktok_b2b_bot_mirror.Concurrency.Limits.{IsExact, run-IsExact, release_frees}

abbrev two_on_douyin : String → Option ℕ
two_on_douyin platform = if platform == "douyin" then some 2 else none

abbrev account : ℕ → Account
account id = record { platform = "douyin"; id = id }

-- The third account finds no room; the second is put in quarantine and gets no lease again, but the
-- fourth gets one.
abbrev steps : List Step
steps =
    Step.acquires (account 1)
    ∷ Step.acquires (account 2)
    ∷ Step.acquires (account 3)
    ∷ Step.quarantines (account 2)
    ∷ Step.acquires (account 2)
    ∷ Step.acquires (account 4)
    ∷ []

abbrev busy : Manager
busy = run steps (new_manager two_on_douyin)

active-busy : busy.active_accounts ≡ account 4 ∷ account 1 ∷ []
unfolding run new_manager can_acquire
active-busy = refl

run-IsExact_example :
    IsExact (run steps (new_manager two_on_douyin))
    × ((p : String)
        → on_platform p (run steps (new_manager two_on_douyin)).active_accounts
          ≤ get_or_zero (two_on_douyin p))
run-IsExact_example = run-IsExact two_on_douyin steps

release_frees_example :
    try_acquire (account 1) (release (account 1) busy)
    ≡ (true, occupy (account 1) (release (account 1) busy))
unfolding run new_manager can_acquire release active_count
release_frees_example =
    release_frees (account 1) busy (run-IsExact two_on_douyin steps).0 (omega arith)
