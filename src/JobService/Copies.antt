-- ===== src/JobService/Copies.antt =====
-- What the copy of a campaign or of a keyword says, column by column, beside the original. The texts
-- are cleaned: `strip` takes away the blanks around them, and empty ones are left out of lists.
use tiktok_b2b_bot_mirror.Prelude.{
  ℕ, String, ◌==◌, string_eq, not, Bool-cases, List, [], ◌∷◌, map, select, ◌≡◌, refl, ap, inl, inr,
  if◌then◌else◌,
}
use tiktok_b2b_bot_mirror.Acquisition.Rows.{Targeting, Keyword}
use tiktok_b2b_bot_mirror.Acquisition.Store.{clean_list, clean_targeting, clean_keyword}

module _ (strip : String → String) where
  -- The texts without the blanks around them, and without those that are only blanks.
  abbrev pub stripped : List String → List String
  stripped texts = select (λ text. not (text == "")) (map strip texts)

  clean_list-stripped : (texts : List String) → clean_list strip texts ≡ stripped texts
  unfolding clean_list
  clean_list-stripped [] = refl
  clean_list-stripped (text ∷ rest) = elim (Bool-cases (strip text == "")) [
    | inl e ↦ rw e (clean_list-stripped rest)
    | inr e ↦ rw e (ap (λ texts. strip text ∷ texts) (clean_list-stripped rest))
  ]

module _ (strip lower : String → String) where
  pub record IsTargetingCopy (t copy : Targeting) : Type 0 where
    pub platform : copy.platform ≡ lower (strip t.platform)
    pub countries : copy.countries ≡ stripped strip t.countries
    pub languages : copy.languages ≡ stripped strip t.languages
    pub industries : copy.industries ≡ stripped strip t.industries
    pub products : copy.products ≡ stripped strip t.products
    pub customer_roles : copy.customer_roles ≡ stripped strip t.customer_roles
    pub hard_conditions : copy.hard_conditions ≡ t.hard_conditions
    pub preference_conditions : copy.preference_conditions ≡ t.preference_conditions
    pub excluded_targets : copy.excluded_targets ≡ stripped strip t.excluded_targets
    pub search_budget : copy.search_budget ≡ t.search_budget
    pub keyword_mix : copy.keyword_mix ≡ t.keyword_mix

  pub clean-IsTargetingCopy : (t : Targeting) → IsTargetingCopy t (clean_targeting strip lower t)
  unfolding clean_targeting
  clean-IsTargetingCopy t = record {
    platform = refl;
    countries = clean_list-stripped strip t.countries;
    languages = clean_list-stripped strip t.languages;
    industries = clean_list-stripped strip t.industries;
    products = clean_list-stripped strip t.products;
    customer_roles = clean_list-stripped strip t.customer_roles;
    hard_conditions = refl;
    preference_conditions = refl;
    excluded_targets = clean_list-stripped strip t.excluded_targets;
    search_budget = refl;
    keyword_mix = refl;
  }

  pub record IsKeywordCopy (job_id : ℕ) (k copy : Keyword) : Type 0 where
    pub owner : copy.job_id ≡ job_id
    pub platform : copy.content.platform ≡ lower (strip k.content.platform)
    pub text : copy.content.text ≡ strip k.content.text
    pub language : copy.content.language ≡ lower (strip k.content.language)
    pub keyword_type :
        copy.content.keyword_type
        ≡ (if strip k.content.keyword_type == "" then "industry" else strip k.content.keyword_type)
    pub source :
        copy.content.source
        ≡ (if strip k.content.source == "" then "manual" else strip k.content.source)
    pub status : copy.content.status ≡ k.content.status

  pub clean-IsKeywordCopy :
      (job_id : ℕ) (k copy : Keyword)
      → copy.job_id ≡ job_id
      → copy.content ≡ clean_keyword strip lower k.content
      → IsKeywordCopy job_id k copy
  unfolding clean_keyword
  clean-IsKeywordCopy job_id k copy owner e = record {
    owner = owner;
    platform = ap (λ c. c.platform) e;
    text = ap (λ c. c.text) e;
    language = ap (λ c. c.language) e;
    keyword_type = ap (λ c. c.keyword_type) e;
    source = ap (λ c. c.source) e;
    status = ap (λ c. c.status) e;
  }

  -- One copy for each keyword, in the same order.
  pub data AreCopies (job_id : ℕ) : List Keyword → List Keyword → Type 0 where
    none_left : AreCopies job_id [] []
    one_more :
        {k copy : Keyword} {keywords copies : List Keyword}
        → IsKeywordCopy job_id k copy
        → AreCopies job_id keywords copies
        → AreCopies job_id (k ∷ keywords) (copy ∷ copies)
