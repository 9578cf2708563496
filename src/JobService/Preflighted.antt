-- ===== src/JobService/Preflighted.antt =====
-- What `preflight_job` asks for.
use tiktok_b2b_bot_mirror.Prelude.{
  ℕ, String, ◌==◌, nat_eq, string_eq, Bool, true, false, ◌&&◌, Bool-cases, Option, none, some, List,
  [], ◌∷◌, Memᴰ, mem_cases, first, select, select_mem, mem-select, sort_by, mem-sort_by,
  sort_by_mem, ◌≡◌, ◌≢◌, refl, sym, ◌↔◌, inl, inr, ok, or_raise-ok, bind-ok, subst, raise_if-ok,
  raise_if-not, ok-injective, ◌>>=◌, arith,
}
use tiktok_b2b_bot_mirror.JobStore.Create.{is_empty}
use tiktok_b2b_bot_mirror.JobService.Rows.{Account, Failure, Availability}
use tiktok_b2b_bot_mirror.JobService.Preflight.{
  fingerprint_failure, keep_failure, needs_profile, check_accounts, eligible_accounts,
  specified_account, automatic_accounts, is_logged_in, logged_in_before, platform_name,
  validate_job_request, preflight_job,
}
use tiktok_b2b_bot_mirror.JobService.Validated.{IsMode, IsSupported, validate_iff}

-- An account of another platform, or one with a fingerprint provider and a browser profile.
pub data IsEquipped (platform : String) (a : Account) : Type 0 where
  elsewhere : platform ≢ "tiktok" → IsEquipped platform a
  profiled : a.browser_provider ≢ "" → a.browser_profile_id ≢ "" → IsEquipped platform a

needs_profile-IsEquipped :
    (platform : String) (a : Account) → (needs_profile platform a ≡ false) ↔ IsEquipped platform a
unfolding needs_profile
needs_profile-IsEquipped platform a = (
  λ h. elim (Bool-cases (platform == "tiktok")) [
    | inr e ↦ IsEquipped.elsewhere (differs _ _ e)
    | inl e ↦ elim (Bool-cases (a.browser_provider == "")) [
      | inl p ↦ absurd (ground (arith, e, p))
      | inr p ↦ elim (Bool-cases (a.browser_profile_id == "")) [
        | inl q ↦ absurd (ground (arith, e, p, q))
        | inr q ↦ IsEquipped.profiled (differs _ _ p) (differs _ _ q)
      ]
    ]
  ],
  λ h. unneeded h,
)
  where
    differs : (x y : String) → (x == y) ≡ false → x ≢ y
    differs x y e same = cc (e, (string_eq.equals_iff x y).1 same)

    apart : (x y : String) → x ≢ y → (x == y) ≡ false
    apart x y n = elim (Bool-cases (x == y)) [
      | inl e ↦ absurd (n ((string_eq.equals_iff x y).0 e))
      | inr e ↦ e
    ]

    unneeded : IsEquipped platform a → needs_profile platform a ≡ false
    unneeded (IsEquipped.elsewhere n) = rw (apart platform "tiktok" n) refl
    unneeded (IsEquipped.profiled p q) =
        rw (apart a.browser_provider "" p, apart a.browser_profile_id "" q)
          (elim (Bool-cases (platform == "tiktok")) [ inl e ↦ rw e refl | inr e ↦ rw e refl ])

-- The provider answers for the account, and the account has what its platform asks for.
pub record IsUsable (platform : String) (check : Account → Availability) (a : Account)
    : Type 0 where
  pub answers : (check a).available ≡ true
  pub equipped : IsEquipped platform a

check_some :
    (platform : String) (check : Account → Availability) (f : Option Failure) (xs : List Account)
    → check_accounts platform check f xs ≡ ok tt
    → (a : Account) × Memᴰ a xs × IsUsable platform check a
unfolding check_accounts
check_some platform check f [] h = cc
check_some platform check f (x ∷ rest) h = elim (Bool-cases (check x).available) [
  | inl e ↦ elim (Bool-cases (needs_profile platform x)) [
    | inl n ↦
        let h' : check_accounts platform check (some fingerprint_failure) rest ≡ ok tt =
          ground (arith, e, n) in
        let (a, m, u) = check_some platform check _ rest h' in (a, Memᴰ.tail m, u)
    | inr n ↦ (
      x,
      Memᴰ.head refl,
      record { answers = e; equipped = (needs_profile-IsEquipped platform x).0 n },
    )
  ]
  | inr e ↦
      let h' : check_accounts platform check (some (keep_failure f (check x))) rest ≡ ok tt =
        ground (arith, e) in
      let (a, m, u) = check_some platform check _ rest h' in (a, Memᴰ.tail m, u)
]

check_finds :
    (platform : String) (check : Account → Availability) (f : Option Failure) (xs : List Account)
    {a : Account}
    → Memᴰ a xs
    → IsUsable platform check a
    → check_accounts platform check f xs ≡ ok tt
unfolding check_accounts
check_finds platform check f [] m u = elim m [ ]
check_finds platform check f (x ∷ rest) {a} m u = elim (mem_cases m) [
  | inl same ↦
      let e : (check x).available ≡ true = subst (λ b. (check b).available ≡ true) same u.answers in
      let n : needs_profile platform x ≡ false =
        (needs_profile-IsEquipped platform x).1 (subst (IsEquipped platform) same u.equipped) in
      ground (arith, e, n)
  | inr later ↦ elim (Bool-cases (check x).available) [
    | inl e ↦ elim (Bool-cases (needs_profile platform x)) [
      | inl n ↦
          let further = check_finds platform check (some fingerprint_failure) rest later u in
          ground (arith, e, n, further)
      | inr n ↦ ground (arith, e, n)
    ]
    | inr e ↦
        let further = check_finds platform check (some (keep_failure f (check x))) rest later u in
        ground (arith, e, further)
  ]
]

-- The accounts that a request may use: the chosen one, or any that is logged in to the platform.
pub data IsEligible (platform : String) (accounts : List Account) (a : Account)
    : String → Option ℕ → Type 0 where
  one :
      (id : ℕ)
      → first (λ b. b.id == id) accounts ≡ some a
      → a.platform ≡ platform
      → a.status ≡ "logged_in"
      → IsEligible platform accounts a "specified" (some id)
  any :
      Memᴰ a accounts
      → a.platform ≡ platform
      → a.status ≡ "logged_in"
      → IsEligible platform accounts a "auto" none

-- What `first` finds meets its test.
chosen_first :
    (platform : String) (id : ℕ) (accounts found : List Account) {a : Account}
    → specified_account platform id accounts ≡ ok found
    → Memᴰ a found
    → IsEligible platform accounts a "specified" (some id)
unfolding specified_account
chosen_first platform id accounts found {a} h m =
    let (b, got, h1) = bind-ok _ _ found h in
    let (p, h2) = raise_if-not _ _ _ found h1 in
    let (s, h3) = raise_if-not _ _ _ found h2 in
    elim (mem_cases (subst (Memᴰ a) (sym (ok-injective h3)) m)) [
      | inl same ↦ rw same (
          IsEligible.one id (or_raise-ok _ _ b got) ((string_eq.equals_iff b.platform platform).0 p)
            ((string_eq.equals_iff b.status "logged_in").0 s))
      | inr later ↦ elim later [ ]
    ]

any_mem :
    (platform : String) (accounts found : List Account) {a : Account}
    → automatic_accounts platform accounts ≡ ok found
    → Memᴰ a found
    → IsEligible platform accounts a "auto" none
unfolding automatic_accounts is_logged_in
any_mem platform accounts found {a} h m =
    let (_, h1) = raise_if-ok _ _ _ found h in
    let (n, both) =
      select_mem (is_logged_in platform) accounts
        (sort_by_mem logged_in_before _ (subst (Memᴰ a) (sym (ok-injective h1)) m)) in
    let (p, s) = and_true (a.platform == platform) (a.status == "logged_in") both in
    IsEligible.any n ((string_eq.equals_iff a.platform platform).0 p)
      ((string_eq.equals_iff a.status "logged_in").0 s)
  where
    and_true : (b c : Bool) → (b && c) ≡ true → (b ≡ true) × (c ≡ true)
    and_true true c h = (refl, h)
    and_true false c h = cc

mem-is_empty : {A : Type 0} (xs : List A) {a : A} → Memᴰ a xs → is_empty xs ≡ false
mem-is_empty [] m = elim m [ ]
mem-is_empty (x ∷ xs) m = refl

eligible_found :
    (platform mode : String) (account_id : Option ℕ) (accounts : List Account) (a : Account)
    → IsEligible platform accounts a mode account_id
    → (found : List Account) × (eligible_accounts platform mode account_id accounts ≡ ok found)
      × Memᴰ a found
unfolding eligible_accounts specified_account automatic_accounts is_logged_in ◌>>=◌
eligible_found platform _ _ accounts a (IsEligible.one id got p s) =
    let p' : (a.platform == platform) ≡ true = (string_eq.equals_iff a.platform platform).1 p in
    let s' : (a.status == "logged_in") ≡ true = (string_eq.equals_iff a.status "logged_in").1 s in
    (a ∷ [], rw (got, p', s') refl, Memᴰ.head refl)
eligible_found platform _ _ accounts a (IsEligible.any m p s) =
    let p' : (a.platform == platform) ≡ true = (string_eq.equals_iff a.platform platform).1 p in
    let s' : (a.status == "logged_in") ≡ true = (string_eq.equals_iff a.status "logged_in").1 s in
    let n =
      mem-sort_by logged_in_before _
        (mem-select (is_logged_in platform) accounts m (rw (p', s') refl)) in
    (
      sort_by logged_in_before (select (is_logged_in platform) accounts),
      rw (mem-is_empty _ n) refl,
      n,
    )

IsEligible-mem :
    (platform mode : String) (account_id : Option ℕ) (accounts found : List Account) {a : Account}
    → IsMode mode account_id
    → eligible_accounts platform mode account_id accounts ≡ ok found
    → Memᴰ a found
    → IsEligible platform accounts a mode account_id
unfolding eligible_accounts
IsEligible-mem platform _ _ accounts found (IsMode.chosen id) h m =
    chosen_first platform id accounts found h m
IsEligible-mem platform _ _ accounts found IsMode.automatic h m =
    any_mem platform accounts found h m

module _ (strip lower : String → String)
    (providers : String → Option (Account → Availability)) where
  -- What makes a job request acceptable to `preflight_job`.
  pub record IsReady (text mode : String) (account_id : Option ℕ) (accounts : List Account)
      : Type 0 where
    pub platform : String
    pub named : platform ≡ lower (strip text)
    pub supported : IsSupported platform
    pub moded : IsMode mode account_id
    pub check : Account → Availability
    pub provided : providers (lower (strip platform)) ≡ some check
    pub account : Account
    pub eligible : IsEligible platform accounts account mode account_id
    pub usable : IsUsable platform check account

  -- `preflight_job` returns exactly when the request is valid, its platform has a provider, and one
  -- of the accounts that it may use is logged in, available, and, on TikTok, has both a fingerprint
  -- provider and a browser profile.
  pub preflight_iff :
      (text mode : String) (account_id : Option ℕ) (accounts : List Account)
      → (preflight_job strip lower providers text mode account_id accounts ≡ ok tt)
        ↔ IsReady text mode account_id accounts
  unfolding preflight_job platform_name ◌>>=◌
  preflight_iff text mode account_id accounts = (
    λ h.
        let (platform, v, h1) =
          bind-ok (validate_job_request strip lower text mode account_id) _ tt h in
        let (found, f, h2) =
          bind-ok (eligible_accounts platform mode account_id accounts) _ tt h1 in
        let (check, c, h3) = bind-ok _ _ tt h2 in
        let (named, s, i) = (validate_iff strip lower text mode account_id platform).0 v in
        let (a, m, u) = check_some platform check none found h3 in
        record {
          platform = platform;
          named = named;
          supported = s;
          moded = i;
          check = check;
          provided = or_raise-ok _ _ check c;
          account = a;
          eligible = IsEligible-mem platform mode account_id accounts found i f m;
          usable = u;
        },
    λ r.
        let v =
          (validate_iff strip lower text mode account_id r.platform).1
            (r.named, r.supported, r.moded) in
        let (found, f, m) =
          eligible_found r.platform mode account_id accounts r.account r.eligible in
        rw (v, f, r.provided) (check_finds r.platform r.check none found m r.usable),
  )
