-- ===== src/Leases/Manager.antt =====
-- AccountLeaseManager. Its operations run under one lock, so each is a step. Keys and owners are
-- those that PlatformType.parse, `_normalize_account_key` and `_normalize_owner` give. The new
-- `object()` of each lease is a number that has not been used.
use tiktok_b2b_bot_mirror.Prelude.{
  ℕ, ◌+◌, String, ◌==◌, nat_eq, string_eq, Bool, false, ◌&&◌, Option, none, some, List, [], ◌∷◌,
  Result, ok, err, committed, if◌then◌else◌,
}

pub record Key : Type 0 where
  pub platform : String
  pub account_key : String

unfoldable pub is_key : Key → Key → Bool
is_key a b = a.platform == b.platform && a.account_key == b.account_key

pub record Holder : Type 0 where
  pub owner : String
  pub lease_id : ℕ

pub record Manager : Type 0 where
  pub leases : Key → Option Holder
  pub next_lease_id : ℕ

pub record Lease : Type 0 where
  pub key : Key
  pub owner : String
  pub lease_id : ℕ

pub data LeaseError : Type 0 where
  account_busy : Key → String → String → LeaseError

unfoldable pub set_holder : Key → Option Holder → (Key → Option Holder) → Key → Option Holder
unfolding is_key
set_holder key holder leases k = if is_key key k then holder else leases k

unfoldable pub grant : Key → String → Manager → Option Holder → Result LeaseError (Lease × Manager)
unfolding set_holder
grant key owner m (some current) = err (account_busy key owner current.owner)
grant key owner m none = ok (
  record { key = key; owner = owner; lease_id = m.next_lease_id },
  record {
    leases = set_holder key (some record { owner = owner; lease_id = m.next_lease_id }) m.leases;
    next_lease_id = m.next_lease_id + 1;
  },
)

unfoldable pub acquire : Key → String → Manager → Result LeaseError (Lease × Manager)
unfolding grant
acquire key owner m = grant key owner m (m.leases key)

unfoldable pub is_held_by : ℕ → Option Holder → Bool
is_held_by lease_id none = false
is_held_by lease_id (some current) = current.lease_id == lease_id

-- AccountLease.release, which calls `_release` with the key and the object of its lease.
unfoldable pub release : Key → ℕ → Manager → Manager
unfolding is_held_by set_holder
release key lease_id m =
    if is_held_by lease_id (m.leases key)
    then record m { leases = set_holder key none m.leases }
    else m

-- What the tasks of the program do, in the order in which they get the lock.
pub data Step : Type 0 where
  acquires : Key → String → Step
  releases : Key → ℕ → Step

unfoldable pub step : Step → Manager → Manager
unfolding acquire release
step (acquires key owner) m = committed m (acquire key owner m)
step (releases key lease_id) m = release key lease_id m

unfoldable pub run : List Step → Manager → Manager
unfolding step
run [] m = m
run (s ∷ rest) m = run rest (step s m)
