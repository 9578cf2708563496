-- ===== src/Acquisition/Rows.antt =====
-- models/entities.py and models/pipeline_states.py: the rows of acquisition_campaigns and
-- acquisition_keywords, and the statuses of a keyword. A JSON object is its text.
use tiktok_b2b_bot_mirror.Prelude.{ℕ, String, string_eq, List, [], ◌∷◌, find_name, Result, or_raise}

pub data KeywordStatus : Type 0 where
  new testing effective cooling low_yield disabled : KeywordStatus

unfoldable pub keyword_status_name : KeywordStatus → String
keyword_status_name new = "new"
keyword_status_name testing = "testing"
keyword_status_name effective = "effective"
keyword_status_name cooling = "cooling"
keyword_status_name low_yield = "low_yield"
keyword_status_name disabled = "disabled"

-- The keyword arguments of `create_campaign` after the job.
pub record Targeting : Type 0 where
  pub platform : String
  pub countries : List String
  pub languages : List String
  pub industries : List String
  pub products : List String
  pub customer_roles : List String
  pub hard_conditions : String
  pub preference_conditions : String
  pub excluded_targets : List String
  pub search_budget : String
  pub keyword_mix : String

-- A row of acquisition_campaigns: its keys, and the columns that the arguments fill.
pub record Campaign : Type 0 where
  pub id : ℕ
  pub job_id : ℕ
  pub targeting : Targeting
  pub created_at : ℕ

-- The keyword arguments of `create_keyword` after the job.
pub record KeywordText : Type 0 where
  pub platform : String
  pub text : String
  pub language : String
  pub keyword_type : String
  pub source : String
  pub status : String

-- A row of acquisition_keywords: its keys, and the columns that the arguments fill. The counters of
-- a new row are 0.
pub record Keyword : Type 0 where
  pub id : ℕ
  pub job_id : ℕ
  pub content : KeywordText
  pub created_at : ℕ

pub data AcquisitionError : Type 0 where
  campaign_exists : ℕ → AcquisitionError
  empty_platform empty_text keyword_taken : AcquisitionError
  unknown_keyword_status : String → AcquisitionError

unfoldable pub validate_keyword_status : String → Result AcquisitionError KeywordStatus
unfolding find_name keyword_status_name
validate_keyword_status status =
    or_raise
      (find_name keyword_status_name status
        (new ∷ testing ∷ effective ∷ cooling ∷ low_yield ∷ disabled ∷ []))
      (unknown_keyword_status status)

pub record AcquisitionDb : Type 0 where
  pub campaigns : List Campaign
  pub keywords : List Keyword
  pub next_campaign_id : ℕ
  pub next_keyword_id : ℕ
