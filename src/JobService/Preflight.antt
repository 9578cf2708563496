-- ===== src/JobService/Preflight.antt =====
-- PipelineJobService._validate_job_request, _eligible_accounts, _check_provider_preflight and
-- preflight_job. `strip` and `lower` are the methods of `str`; `providers` is the registry's table:
-- the provider of a platform, as what its `check_available` answers for an account.
use Prim.Native.String.{◌++◌ as concat}
use tiktok_b2b_bot_mirror.Prelude.{
  ℕ, String, ◌==◌, nat_eq, string_eq, Bool, true, false, not, ◌&&◌, ◌||◌, Option, none, some, List,
  [], ◌∷◌, contains, first, select, sort_by, Result, ok, err, raise_if, or_raise, ◌>>=◌, ◌>>◌,
  if◌then◌else◌, ltb, leb,
}
use tiktok_b2b_bot_mirror.JobStore.Create.{is_empty}
use tiktok_b2b_bot_mirror.JobService.Rows.{
  Account, Availability, Failure, ServiceError, invalid_platform, invalid_account_mode,
  unknown_provider, no_available_account, account_required, auto_account_id_forbidden,
  account_not_found, platform_account_mismatch, account_not_logged_in, unavailable,
}

abbrev pub supported_platforms : List String
supported_platforms = "tiktok" ∷ "douyin" ∷ []

abbrev pub account_modes : List String
account_modes = "auto" ∷ "specified" ∷ []

abbrev pub is_none {ℓ} : {A : Type ℓ} → Option A → Bool
is_none none = true
is_none (some _) = false

-- ORDER BY last_login_at DESC NULLS LAST, id ASC
unfoldable pub logged_in_before : Account → Account → Bool
logged_in_before a b = elim a.last_login_at [
  | none ↦ elim b.last_login_at [ none ↦ leb a.id b.id | some _ ↦ false ]
  | some t ↦ elim b.last_login_at [ none ↦ true | some u ↦ ltb u t || t == u && leb a.id b.id ]
]

unfoldable pub is_logged_in : String → Account → Bool
is_logged_in platform a = a.platform == platform && a.status == "logged_in"

unfoldable pub specified_account : String → ℕ → List Account → Result ServiceError (List Account)
specified_account platform account_id accounts = do
  account ← or_raise (first (λ a. a.id == account_id) accounts) account_not_found
  raise_if (not (account.platform == platform)) platform_account_mismatch
  raise_if (not (account.status == "logged_in")) account_not_logged_in
  ok (account ∷ [])

unfoldable pub automatic_accounts : String → List Account → Result ServiceError (List Account)
unfolding logged_in_before is_logged_in sort_by
automatic_accounts platform accounts = do
  let found = sort_by logged_in_before (select (is_logged_in platform) accounts)
  raise_if (is_empty found) (no_available_account platform)
  ok found

unfoldable pub eligible_accounts :
    String → String → Option ℕ → List Account → Result ServiceError (List Account)
unfolding specified_account automatic_accounts
eligible_accounts platform mode account_id accounts =
    if mode == "specified"
    then elim account_id [
      | none ↦ err account_not_found
      | some id ↦ specified_account platform id accounts
    ]
    else automatic_accounts platform accounts

-- `first_failure or availability`
unfoldable pub keep_failure : Option Failure → Availability → Failure
keep_failure none v = record { code = v.code; message = v.message }
keep_failure (some f) v = f

unfoldable pub needs_profile : String → Account → Bool
needs_profile platform a =
    platform == "tiktok" && (a.browser_provider == "" || a.browser_profile_id == "")

abbrev pub fingerprint_failure : Failure
fingerprint_failure = record {
  code = "fingerprint_profile_required";
  message = "TikTok account requires a fingerprint provider and browser profile";
}

abbrev pub or_text : String → String → String
or_text text default = if text == "" then default else text

unfoldable pub refusal : String → Option Failure → ServiceError
refusal platform none = unavailable (record {
  code = "browser_provider_unavailable";
  message = concat "No " (concat platform " browser provider is available");
})
refusal platform (some f) = unavailable (record {
  code = or_text f.code "browser_provider_unavailable";
  message = or_text f.message "Browser provider is unavailable";
})

-- The loop of `_check_provider_preflight`.
unfoldable pub check_accounts :
    String
    → (Account → Availability)
    → Option Failure
    → List Account
    → Result ServiceError (Unit {0})
unfolding refusal keep_failure needs_profile
check_accounts platform check first_failure [] = err (refusal platform first_failure)
check_accounts platform check first_failure (a ∷ rest) = elim (check a).available [
  | false ↦ check_accounts platform check (some (keep_failure first_failure (check a))) rest
  | true ↦ elim (needs_profile platform a) [
    | true ↦ check_accounts platform check (some fingerprint_failure) rest
    | false ↦ ok tt
  ]
]

module _ (strip lower : String → String) where
  -- `_platform_name`
  unfoldable pub platform_name : String → String
  platform_name text = lower (strip text)

  unfoldable pub validate_job_request : String → String → Option ℕ → Result ServiceError String
  unfolding platform_name
  validate_job_request text mode account_id = do
    let platform = platform_name text
    raise_if (not (contains platform supported_platforms)) (invalid_platform platform)
    raise_if (not (contains mode account_modes)) (invalid_account_mode mode)
    raise_if (mode == "specified" && is_none account_id) account_required
    raise_if (mode == "auto" && not (is_none account_id)) auto_account_id_forbidden
    ok platform

  unfoldable pub preflight_job :
      (String → Option (Account → Availability))
      → String
      → String
      → Option ℕ
      → List Account
      → Result ServiceError (Unit {0})
  unfolding validate_job_request eligible_accounts check_accounts platform_name
  preflight_job providers text mode account_id accounts = do
    platform ← validate_job_request text mode account_id
    found ← eligible_accounts platform mode account_id accounts
    check ← or_raise (providers (platform_name platform)) (unknown_provider platform)
    check_accounts platform check none found
