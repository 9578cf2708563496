-- ===== src/Acquisition/Store.antt =====
-- AcquisitionStore.create_campaign, get_campaign, create_keyword and list_keywords. `strip` and
-- `lower` are the methods of `str`; `now` is what `datetime.utcnow()` gives.
use tiktok_b2b_bot_mirror.Prelude.{
  ℕ, ◌+◌, String, ◌==◌, nat_eq, string_eq, Bool, ◌&&◌, Option, List, [], ◌∷◌, ◌++◌, exists_row,
  first, select, Result, ok, raise_if, ◌>>◌, if◌then◌else◌,
}
use tiktok_b2b_bot_mirror.Acquisition.Rows.{
  Targeting, Campaign, KeywordText, Keyword, AcquisitionDb, AcquisitionError, campaign_exists,
  empty_platform, empty_text, keyword_taken, validate_keyword_status,
}

unfoldable pub get_campaign : ℕ → AcquisitionDb → Option Campaign
get_campaign job_id db = first (λ c. c.job_id == job_id) db.campaigns

-- `ORDER BY id`: the table is in the order of its keys.
unfoldable pub list_keywords : ℕ → AcquisitionDb → List Keyword
list_keywords job_id db = select (λ k. k.job_id == job_id) db.keywords

abbrev pub or_default : String → String → String
or_default text default = if text == "" then default else text

module _ (strip : String → String) where
  unfoldable pub clean_list : List String → List String
  clean_list [] = []
  clean_list (value ∷ rest) =
      if strip value == "" then clean_list rest else strip value ∷ clean_list rest

module _ (strip lower : String → String) where
  unfoldable pub clean_targeting : Targeting → Targeting
  unfolding clean_list
  clean_targeting t = record {
    platform = lower (strip t.platform);
    countries = clean_list strip t.countries;
    languages = clean_list strip t.languages;
    industries = clean_list strip t.industries;
    products = clean_list strip t.products;
    customer_roles = clean_list strip t.customer_roles;
    hard_conditions = t.hard_conditions;
    preference_conditions = t.preference_conditions;
    excluded_targets = clean_list strip t.excluded_targets;
    search_budget = t.search_budget;
    keyword_mix = t.keyword_mix;
  }

  unfoldable pub create_campaign :
      ℕ → ℕ → Targeting → AcquisitionDb → Result AcquisitionError (Campaign × AcquisitionDb)
  unfolding clean_targeting
  create_campaign now job_id t db = do
    raise_if (exists_row (λ c. c.job_id == job_id) db.campaigns) (campaign_exists job_id)
    raise_if (lower (strip t.platform) == "") empty_platform
    let campaign : Campaign = record {
      id = db.next_campaign_id;
      job_id = job_id;
      targeting = clean_targeting t;
      created_at = now;
    }
    ok (
      campaign,
      record db {
        campaigns = db.campaigns ++ campaign ∷ [];
        next_campaign_id = db.next_campaign_id + 1;
      },
    )

  unfoldable pub clean_keyword : KeywordText → KeywordText
  clean_keyword k = record {
    platform = lower (strip k.platform);
    text = strip k.text;
    language = lower (strip k.language);
    keyword_type = or_default (strip k.keyword_type) "industry";
    source = or_default (strip k.source) "manual";
    status = k.status;
  }

  -- UNIQUE (job_id, platform, text, language)
  unfoldable pub same_keyword : ℕ → KeywordText → Keyword → Bool
  same_keyword job_id c k =
      k.job_id == job_id
      && k.content.platform == c.platform
      && k.content.text == c.text
      && k.content.language == c.language

  unfoldable pub create_keyword :
      ℕ → ℕ → KeywordText → AcquisitionDb → Result AcquisitionError (Keyword × AcquisitionDb)
  unfolding clean_keyword same_keyword
  create_keyword now job_id k db = do
    validate_keyword_status k.status
    raise_if (strip k.text == "") empty_text
    raise_if (exists_row (same_keyword job_id (clean_keyword k)) db.keywords) keyword_taken
    let keyword : Keyword = record {
      id = db.next_keyword_id;
      job_id = job_id;
      content = clean_keyword k;
      created_at = now;
    }
    ok (
      keyword,
      record db {
        keywords = db.keywords ++ keyword ∷ [];
        next_keyword_id = db.next_keyword_id + 1;
      },
    )
