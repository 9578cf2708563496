-- ===== src/States/Stage.antt =====
-- models/pipeline_states.py: PIPELINE_STAGES, KNOWN_PIPELINE_STAGES and validate_pipeline_stage.
use tiktok_b2b_bot_mirror.Prelude.{
  String, Comparable, from_discrete, Option, List, [], ◌∷◌, find_name, Result, or_raise, string_eq,
}

pub data Stage : Type 0 where
  collect filter strategy outreach report iterate : Stage

unfoldable pub Stage-discrete : Discrete Stage
Stage-discrete = hlevel

instance abbrev pub stage_eq : Comparable Stage
unfolding Stage-discrete
stage_eq = from_discrete Stage-discrete

unfoldable pub name : Stage → String
name collect = "collect"
name filter = "filter"
name strategy = "strategy"
name outreach = "outreach"
name report = "report"
name iterate = "iterate"

-- PIPELINE_STAGES, in the order in which a job runs them.
abbrev pub pipeline_stages : List Stage
pipeline_stages = collect ∷ filter ∷ strategy ∷ outreach ∷ report ∷ iterate ∷ []

unfoldable pub parse : String → Option Stage
unfolding find_name name
parse text = find_name name text pipeline_stages

pub data StageError : Type 0 where
  unknown_stage : String → StageError

unfoldable pub validate_pipeline_stage : String → Result StageError Stage
unfolding parse
validate_pipeline_stage text = or_raise (parse text) (unknown_stage text)
