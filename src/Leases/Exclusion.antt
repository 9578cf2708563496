-- ===== src/Leases/Exclusion.antt =====
-- A lease excludes others until it is released, and is released once.
use tiktok_b2b_bot_mirror.Prelude.{
  ℕ, ◌<◌, ◌≡◌, ◌≢◌, refl, sym, ap, String, nat_eq, nat_beq_iff, string_eq, eq_iff, true, false,
  Option, none, some, List, [], ◌∷◌, All, ok, err, committed, inl, inr, Bool-cases, arith,
  ok-injective,
}
use tiktok_b2b_bot_mirror.Leases.Manager.{
  Key, Holder, Manager, Lease, account_busy, is_key, set_holder, grant, acquire, is_held_by,
  release, Step, acquires, releases, step, run,
}

same_key : (a b : Key) → is_key a b ≡ true → a ≡ b
unfolding is_key
same_key a b h =
    let names : a.platform ≡ b.platform = ground (arith, eq_iff a.platform b.platform) in
    let accounts : a.account_key ≡ b.account_key =
      ground (arith, eq_iff a.account_key b.account_key) in
    cc

is_key_refl : (a : Key) → is_key a a ≡ true
unfolding is_key
is_key_refl a = ground (arith, eq_iff a.platform a.platform, eq_iff a.account_key a.account_key)

-- A step other than the release of this lease.
abbrev pub IsOther : Lease → Step → Type 0
IsOther l (acquires key owner) = Unit
IsOther l (releases key lease_id) = lease_id ≢ l.lease_id

abbrev pub holder_of : Lease → Holder
holder_of l = record { owner = l.owner; lease_id = l.lease_id }

abbrev Holds : Lease → Manager → Type 0
Holds l m = m.leases l.key ≡ some (holder_of l)

grant-Holds :
    (l : Lease) (key : Key) (owner : String) (m : Manager) (current : Option Holder)
    → m.leases key ≡ current
    → Holds l m
    → Holds l (committed m (grant key owner m current))
unfolding grant set_holder
grant-Holds l key owner m (some current) e h = h
grant-Holds l key owner m none e h = elim (Bool-cases (is_key key l.key)) [
  | inl s ↦ let same : key ≡ l.key = same_key key l.key s in absurd (cc (rw same at e))
  | inr s ↦ rw s h
]

held_by :
    (lease_id : ℕ) (l : Lease)
    → is_held_by lease_id (some (holder_of l)) ≡ true
    → lease_id ≡ l.lease_id
unfolding is_held_by
held_by lease_id l h = sym ((nat_beq_iff _ _).0 h)

release-Holds :
    (l : Lease) (key : Key) (lease_id : ℕ) (m : Manager)
    → lease_id ≢ l.lease_id
    → Holds l m
    → Holds l (release key lease_id m)
unfolding release set_holder
release-Holds l key lease_id m other h = elim (Bool-cases (is_held_by lease_id (m.leases key))) [
  | inr miss ↦ rw miss h
  | inl hit ↦ elim (Bool-cases (is_key key l.key)) [
    | inr s ↦ rw (hit, s) h
    | inl s ↦
        let same : key ≡ l.key = same_key key l.key s in
        absurd (other (held_by lease_id l (rw (same, h) at hit)))
  ]
]

run-Holds :
    (l : Lease) (steps : List Step) (m : Manager)
    → All (IsOther l) steps
    → Holds l m
    → Holds l (run steps m)
unfolding run step acquire
run-Holds l [] m others h = h
run-Holds l (acquires key owner ∷ rest) m others h =
    run-Holds l rest _ others.1 (grant-Holds l key owner m (m.leases key) refl h)
run-Holds l (releases key lease_id ∷ rest) m others h =
    run-Holds l rest _ others.1 (release-Holds l key lease_id m others.0 h)

acquired :
    (key : Key) (owner : String) (l : Lease) (m m' : Manager) (current : Option Holder)
    → grant key owner m current ≡ ok (l, m')
    → (l.key ≡ key) × (l.owner ≡ owner) × Holds l m' × (l.lease_id < m'.next_lease_id)
unfolding grant set_holder
acquired key owner l m m' (some current) h = cc
acquired key owner l m m' none h =
    let made = ok-injective h in
    let lease = ap (λ r. r.0) made in
    let after = ap (λ r. r.1) made in
    rw (sym lease, sym after) (refl, refl, rw (is_key_refl key) refl, omega arith)

-- Once a lease has been given for an account, and until it is released, every attempt to acquire the
-- account is refused as busy with the owner of the lease, whatever happens in between.
pub acquire_excludes :
    (key : Key) (owner other : String) (l : Lease) (m m' : Manager) (steps : List Step)
    → acquire key owner m ≡ ok (l, m')
    → All (IsOther l) steps
    → acquire key other (run steps m') ≡ err (account_busy key other owner)
unfolding acquire grant
acquire_excludes key owner other l m m' steps h others =
    let (at_key, by_owner, holds, _) = acquired key owner l m m' (m.leases key) h in
    let kept : (run steps m').leases l.key ≡ some (holder_of l) =
      run-Holds l steps m' others holds in
    rw (sym at_key, kept, sym by_owner) refl

-- The lease has been released: its number is used up and stands nowhere under its key.
record IsSpent (l : Lease) (m : Manager) : Type 0 where
  used : l.lease_id < m.next_lease_id
  gone : is_held_by l.lease_id (m.leases l.key) ≡ false

IsSpent-release :
    (l : Lease) (m : Manager)
    → Holds l m
    → l.lease_id < m.next_lease_id
    → IsSpent l (release l.key l.lease_id m)
unfolding release set_holder is_held_by
IsSpent-release l m h used =
    let ours : is_held_by l.lease_id (m.leases l.key) ≡ true = rw h ((nat_beq_iff _ _).1 refl) in
    record { used = rw ours used; gone = rw ours (rw (is_key_refl l.key) refl) }

grant-IsSpent :
    (l : Lease) (key : Key) (owner : String) (m : Manager) (current : Option Holder)
    → IsSpent l m
    → IsSpent l (committed m (grant key owner m current))
unfolding grant set_holder is_held_by
grant-IsSpent l key owner m (some current) x = x
grant-IsSpent l key owner m none x = record {
  used = let before = x.used in omega arith;
  gone =
      let before = x.used in
      elim (Bool-cases (is_key key l.key)) [ inl s ↦ rw s (ground arith) | inr s ↦ rw s x.gone ];
}

release-IsSpent :
    (l : Lease) (key : Key) (lease_id : ℕ) (m : Manager)
    → IsSpent l m
    → IsSpent l (release key lease_id m)
unfolding release set_holder is_held_by
release-IsSpent l key lease_id m x = elim (Bool-cases (is_held_by lease_id (m.leases key))) [
  | inr miss ↦ rw miss x
  | inl hit ↦ record {
    used = rw hit x.used;
    gone = elim (Bool-cases (is_key key l.key)) [
      | inl s ↦ rw (hit, s) refl
      | inr s ↦ rw (hit, s) x.gone
    ];
  }
]

run-IsSpent : (l : Lease) (steps : List Step) (m : Manager) → IsSpent l m → IsSpent l (run steps m)
unfolding run step acquire
run-IsSpent l [] m x = x
run-IsSpent l (acquires key owner ∷ rest) m x =
    run-IsSpent l rest _ (grant-IsSpent l key owner m (m.leases key) x)
run-IsSpent l (releases key lease_id ∷ rest) m x =
    run-IsSpent l rest _ (release-IsSpent l key lease_id m x)

-- Once a lease has been released, releasing it again changes nothing, whatever happens in between:
-- it does not end a lease that another has got for the same account.
pub release_once :
    (key : Key) (owner : String) (l : Lease) (m m' : Manager) (steps : List Step)
    → acquire key owner m ≡ ok (l, m')
    → release l.key l.lease_id (run steps (release l.key l.lease_id m'))
      ≡ run steps (release l.key l.lease_id m')
unfolding acquire release
release_once key owner l m m' steps h =
    let (_, _, holds, used) = acquired key owner l m m' (m.leases key) h in
    let x = run-IsSpent l steps (release l.key l.lease_id m') (IsSpent-release l m' holds used) in
    rw x.gone refl
