-- ===== src/JobService/Validated.antt =====
-- What `_validate_job_request` and `preflight_job` ask for.
use tiktok_b2b_bot_mirror.Prelude.{
  ℕ, String, ◌==◌, nat_eq, string_eq, true, false, not, ◌&&◌, Option, none, some, mem_cases,
  contains, contains_mem, ◌≡◌, refl, sym, ◌↔◌, inl, inr, ok, subst, raise_if-ok, raise_if-not,
  ok-injective, ◌>>=◌,
}
use tiktok_b2b_bot_mirror.JobService.Preflight.{
  platform_name, validate_job_request, is_none, supported_platforms, account_modes,
}

-- The request names one account exactly in the mode `specified`.
pub data IsMode : String → Option ℕ → Type 0 where
  automatic : IsMode "auto" none
  chosen : (id : ℕ) → IsMode "specified" (some id)

pub data IsSupported : String → Type 0 where
  tiktok : IsSupported "tiktok"
  douyin : IsSupported "douyin"

supported : (p : String) → contains p supported_platforms ≡ true → IsSupported p
supported p h = elim (mem_cases (contains_mem p supported_platforms h)) [
  | inl e ↦ rw e IsSupported.tiktok
  | inr m ↦ elim (mem_cases m) [ inl e ↦ rw e IsSupported.douyin | inr n ↦ elim n [ ] ]
]

auto-IsMode :
    (mode : String) (account_id : Option ℕ)
    → mode ≡ "auto"
    → (mode == "auto" && not (is_none account_id)) ≡ false
    → IsMode mode account_id
auto-IsMode mode none e h = rw e IsMode.automatic
auto-IsMode mode (some id) e h = let stuck = rw e at h in cc

specified-IsMode :
    (mode : String) (account_id : Option ℕ)
    → mode ≡ "specified"
    → (mode == "specified" && is_none account_id) ≡ false
    → IsMode mode account_id
specified-IsMode mode none e h = let stuck = rw e at h in cc
specified-IsMode mode (some id) e h = rw e (IsMode.chosen id)

moded :
    (mode : String) (account_id : Option ℕ)
    → contains mode account_modes ≡ true
    → (mode == "specified" && is_none account_id) ≡ false
    → (mode == "auto" && not (is_none account_id)) ≡ false
    → IsMode mode account_id
moded mode account_id h k l = elim (mem_cases (contains_mem mode account_modes h)) [
  | inl e ↦ auto-IsMode mode account_id e l
  | inr m ↦ elim (mem_cases m) [ inl e ↦ specified-IsMode mode account_id e k | inr n ↦ elim n [ ] ]
]

module _ (strip lower : String → String) where
  accepted :
      (text mode : String) (account_id : Option ℕ) (platform : String)
      → platform ≡ lower (strip text)
      → IsSupported platform
      → IsMode mode account_id
      → validate_job_request strip lower text mode account_id ≡ ok platform
  unfolding validate_job_request platform_name ◌>>=◌
  accepted text _ _ _ e IsSupported.tiktok IsMode.automatic = rw (sym e) refl
  accepted text _ _ _ e IsSupported.tiktok (IsMode.chosen id) = rw (sym e) refl
  accepted text _ _ _ e IsSupported.douyin IsMode.automatic = rw (sym e) refl
  accepted text _ _ _ e IsSupported.douyin (IsMode.chosen id) = rw (sym e) refl

  -- A request passes the validation exactly when its platform, stripped and in lower case, is
  -- supported, and it names an account exactly in the mode `specified`; what is returned is the
  -- platform's name.
  pub validate_iff :
      (text mode : String) (account_id : Option ℕ) (platform : String)
      → (validate_job_request strip lower text mode account_id ≡ ok platform)
        ↔ (platform ≡ lower (strip text)) × IsSupported platform × IsMode mode account_id
  unfolding validate_job_request platform_name
  validate_iff text mode account_id platform = (
    λ h.
        let (a, h1) = raise_if-not _ _ _ platform h in
        let (b, h2) = raise_if-not _ _ _ platform h1 in
        let (c, h3) = raise_if-ok _ _ _ platform h2 in
        let (d, h4) = raise_if-ok _ _ _ platform h3 in
        let same : lower (strip text) ≡ platform = ok-injective h4 in
        (sym same, subst IsSupported same (supported _ a), moded mode account_id b c d),
    λ h. accepted text mode account_id platform h.0 h.1 h.2,
  )
