-- ===== src/Leases/Tests.antt =====
-- The theorems on account leases where two tasks want one account.
use tiktok_b2b_bot_mirror.Prelude.{◌≡◌, arith, refl, none, [], ◌∷◌, err}
use tiktok_b2b_bot_mirror.Leases.Manager.{
  Key, Manager, Lease, account_busy, acquire, release, acquires, releases, run,
}
use tiktok_b2b_bot_mirror.Leases.Exclusion.{acquire_excludes, release_once}

abbrev account : Key
account = record { platform = "tiktok"; account_key = "7" }

abbrev empty : Manager
empty = record { leases = λ _. none; next_lease_id = 3 }

abbrev lease : Lease
lease = record { key = account; owner = "pipeline"; lease_id = 3 }

abbrev taken : Manager
taken = run (acquires account "pipeline" ∷ []) empty

acquire_excludes_example :
    acquire account "login" (run (releases account 8 ∷ acquires account "login" ∷ []) taken)
    ≡ err (account_busy account "login" "pipeline")
unfolding acquire run
acquire_excludes_example =
    acquire_excludes account "pipeline" "login" lease empty taken
      (releases account 8 ∷ acquires account "login" ∷ []) refl ((λ e. omega arith), (tt, tt))

release_once_example :
    release account 3 (run (acquires account "login" ∷ []) (release account 3 taken))
    ≡ run (acquires account "login" ∷ []) (release account 3 taken)
unfolding acquire run
release_once_example =
    release_once account "pipeline" lease empty taken (acquires account "login" ∷ []) refl
