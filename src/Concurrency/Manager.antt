-- ===== src/Concurrency/Manager.antt =====
-- PipelineConcurrencyManager. Each operation runs under the condition's lock, so it is one step;
-- names of platforms are those that `_platform_name` gives. A dictionary is a function, and a set
-- of accounts is a list without repetitions.
use tiktok_b2b_bot_mirror.Prelude.{
  ℕ, zero, suc, ◌+◌, ◌-◌, String, ◌==◌, nat_eq, string_eq, ltb, Bool, true, false, not, ◌&&◌, ◌||◌,
  Option, none, some, List, [], ◌∷◌, if◌then◌else◌,
}

pub record Account : Type 0 where
  pub platform : String
  pub id : ℕ

unfoldable pub is_same : Account → Account → Bool
is_same a b = a.platform == b.platform && a.id == b.id

unfoldable pub has_account : Account → List Account → Bool
unfolding is_same
has_account a [] = false
has_account a (b ∷ rest) = is_same b a || has_account a rest

-- `set.remove` and `set.discard`
unfoldable pub remove_account : Account → List Account → List Account
unfolding is_same
remove_account a [] = []
remove_account a (b ∷ rest) =
    let later = remove_account a rest in if is_same b a then rest else b ∷ later

pub record Manager : Type 0 where
  pub limits : String → Option ℕ
  pub active_by_platform : String → Option ℕ
  pub active_accounts : List Account
  pub quarantined_accounts : List Account

abbrev pub get_or_zero : Option ℕ → ℕ
get_or_zero none = 0
get_or_zero (some n) = n

unfoldable pub active_count : Manager → String → ℕ
active_count m platform = get_or_zero (m.active_by_platform platform)

unfoldable pub limit_of : Manager → String → ℕ
limit_of m platform = get_or_zero (m.limits platform)

abbrev pub set_item : String → Option ℕ → (String → Option ℕ) → String → Option ℕ
set_item key v dict k = if key == k then v else dict k

-- `_can_acquire`
unfoldable pub can_acquire : Account → Manager → Bool
unfolding active_count limit_of has_account
can_acquire a m =
    ltb 0 (limit_of m a.platform)
    && ltb (active_count m a.platform) (limit_of m a.platform)
    && not (has_account a m.active_accounts)
    && not (has_account a m.quarantined_accounts)

-- What `acquire` and `try_acquire` write once they may.
unfoldable pub occupy : Account → Manager → Manager
unfolding active_count
occupy a m = record m {
  active_by_platform =
      set_item a.platform (some (active_count m a.platform + 1)) m.active_by_platform;
  active_accounts = a ∷ m.active_accounts;
}

-- `try_acquire`: whether there is a lease. A platform without a positive limit gets none.
unfoldable pub try_acquire : Account → Manager → Bool × Manager
unfolding limit_of occupy
try_acquire a m =
    if not (ltb 0 (limit_of m a.platform))
    then (false, m)
    else if not (can_acquire a m)
    then (false, m)
    else (true, occupy a m)

-- The entry for a platform when one of its accounts is no longer active: none for the last.
unfoldable pub remaining : ℕ → Option ℕ
remaining zero = none
remaining (suc n) = some (suc n)

unfoldable pub vacate : Account → Manager → Manager
unfolding has_account remove_account active_count remaining
vacate a m =
    if has_account a m.active_accounts
    then record m {
      active_by_platform =
          set_item a.platform (remaining (active_count m a.platform - 1)) m.active_by_platform;
      active_accounts = remove_account a m.active_accounts;
    }
    else m

-- `_quarantine`
unfoldable pub quarantine : Account → Manager → Manager
unfolding has_account vacate
quarantine a m =
    if has_account a m.quarantined_accounts
    then m
    else record (vacate a m) { quarantined_accounts = a ∷ m.quarantined_accounts }

-- `_release`
unfoldable pub release : Account → Manager → Manager
unfolding has_account vacate remove_account
release a m =
    if not (has_account a m.active_accounts) && not (has_account a m.quarantined_accounts)
    then m
    else record (vacate a m) { quarantined_accounts = remove_account a m.quarantined_accounts }

-- A manager before any lease.
unfoldable pub new_manager : (String → Option ℕ) → Manager
new_manager limits = record {
  limits = limits;
  active_by_platform = λ _. none;
  active_accounts = [];
  quarantined_accounts = [];
}

-- What the tasks of the program do, in the order in which they get the lock.
pub data Step : Type 0 where
  acquires quarantines releases : Account → Step

unfoldable pub step : Step → Manager → Manager
unfolding try_acquire quarantine release
step (acquires a) m = (try_acquire a m).1
step (quarantines a) m = quarantine a m
step (releases a) m = release a m

unfoldable pub run : List Step → Manager → Manager
unfolding step
run [] m = m
run (s ∷ rest) m = run rest (step s m)
