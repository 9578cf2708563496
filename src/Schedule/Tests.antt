-- ===== src/Schedule/Tests.antt =====
-- The theorems on schedules at concrete expressions.
use tiktok_b2b_bot_mirror.Prelude.{
  ℕ, ◌+◌, ◌*◌, ◌/◌, ◌%◌, String, ◌==◌, string_eq, true, false, Option, none, some, List, [], ◌∷◌,
  ◌++◌, length, All, Memᴰ, committed, ◌≡◌, ◌≢◌, refl, ◌↔◌, ok, err, ◌>>=◌, if◌then◌else◌, arith,
}
use tiktok_b2b_bot_mirror.Schedule.Text.{Text, codes, split_on, partition, int_of}
use tiktok_b2b_bot_mirror.Schedule.Field.{
  CronField, Range, parse_components, step_of, positive, ends_of, in_limits, parse_component,
  parse_field, out_of_range, step_not_positive, invalid_field,
}
use tiktok_b2b_bot_mirror.Schedule.Cron.{
  CronExpression, LocalTime, parse, parse_parts, search_forward, search_back, matches, microseconds,
  next_cron_run, previous_cron_run,
}
use tiktok_b2b_bot_mirror.Schedule.Values.{Selected, CountsAs, field_values_iff}
use tiktok_b2b_bot_mirror.Schedule.Bounds.{IsInLimits, parse-IsInLimits}
use tiktok_b2b_bot_mirror.Schedule.Components.{Denotes}
use tiktok_b2b_bot_mirror.Schedule.Errors.{field_accepted_iff}
use tiktok_b2b_bot_mirror.Schedule.Runs.{IsNextRun, next_is_first, previous-next}
use tiktok_b2b_bot_mirror.States.Stage
use tiktok_b2b_bot_mirror.JobStore.Rows.{Job}
use tiktok_b2b_bot_mirror.JobService.Rows.{Account, Availability, Tables}
use tiktok_b2b_bot_mirror.Schedule.Tick.{Schedule, World, Snapshot, snapshot_of, process, tick}
use tiktok_b2b_bot_mirror.Schedule.Firing.{fires_once}
use tiktok_b2b_bot_mirror.Schedule.Ticks.{IsForDue, tick_adds}

-- A zone that is UTC within its first day.
abbrev first_day : ℕ → LocalTime
first_day m = record { minute = m % 60; hour = m / 60 % 24; day = 1; month = 1; weekday = 0 }

abbrev zones : String → Option (ℕ → LocalTime)
zones name = if name == "UTC" then some first_day else none

abbrev every_five : Text
every_five = codes "*/5 * * * *"

next_is_first_example : IsNextRun zones every_five "UTC" (7 * microseconds + 30) (10 * microseconds)
unfolding next_cron_run previous_cron_run ◌>>=◌ parse matches parse_field parse_components
    parse_component step_of partition int_of positive ends_of in_limits search_forward search_back
next_is_first_example =
    next_is_first zones every_five "UTC" (7 * microseconds + 30) (10 * microseconds) refl

previous-next_example :
    previous_cron_run zones every_five "UTC" (12 * microseconds + 1) ≡ ok (10 * microseconds)
unfolding next_cron_run previous_cron_run ◌>>=◌ parse matches parse_field parse_components
    parse_component step_of partition int_of positive ends_of in_limits search_forward search_back
previous-next_example =
    previous-next zones every_five "UTC" (7 * microseconds + 30) (10 * microseconds)
      (15 * microseconds) (12 * microseconds + 1) refl refl (omega arith) (omega arith)

abbrev weekend : CronField
weekend = record { values = 6 ∷ 0 ∷ []; wildcard = false }

field_values_iff_example :
    Memᴰ 0 weekend.values
    ↔ ((v : ℕ) × Selected 0 7 (split_on b',' (codes "6-7")) v × CountsAs true v 0)
unfolding ◌>>=◌ parse_field parse_components parse_component step_of partition int_of positive
    ends_of in_limits
field_values_iff_example = field_values_iff 0 7 true (codes "6-7") weekend 0 refl

abbrev every_five_parsed : CronExpression
every_five_parsed = record {
  minute = record {
    values = 0 ∷ 5 ∷ 10 ∷ 15 ∷ 20 ∷ 25 ∷ 30 ∷ 35 ∷ 40 ∷ 45 ∷ 50 ∷ 55 ∷ [];
    wildcard = false;
  };
  hour = record { values = 3 ∷ []; wildcard = false };
  day = record { values = 1 ∷ []; wildcard = false };
  month = record { values = 2 ∷ 3 ∷ []; wildcard = false };
  weekday = record { values = 0 ∷ []; wildcard = false };
}

parse-IsInLimits_example : IsInLimits every_five_parsed
unfolding ◌>>=◌ parse parse_parts parse_field parse_components parse_component step_of partition
    int_of positive ends_of in_limits
parse-IsInLimits_example = parse-IsInLimits (codes "*/5 3 1 2,3 7") every_five_parsed refl

-- A list, a range, a step, and what is refused: an end beyond the limit, ends out of order, a start
-- below the limit, a step of zero, and a component without text.
fields-parsed :
    (parse_field 1 12 false (codes "1,7-9,*/6")
      ≡ ok (record { values = 1 ∷ 7 ∷ 8 ∷ 9 ∷ 1 ∷ 7 ∷ []; wildcard = false }))
    × (parse_field 1 12 false (codes "1,7-13") ≡ err out_of_range)
    × (parse_field 1 12 false (codes "9-7") ≡ err out_of_range)
    × (parse_field 1 12 false (codes "0-7") ≡ err out_of_range)
    × (parse_field 1 12 false (codes "*/0") ≡ err step_not_positive)
    × (parse_field 1 12 false (codes "1,,2") ≡ err invalid_field)
unfolding ◌>>=◌ parse_field parse_components parse_component step_of partition int_of positive
    ends_of in_limits
fields-parsed = (refl, refl, refl, refl, refl, refl)

field_accepted_iff_example :
    ((f : CronField) × (parse_field 1 12 false (codes "1,7-9,*/6") ≡ ok f))
    ↔ ((c : Text) → Memᴰ c (split_on b',' (codes "1,7-9,*/6")) → (r : Range) × Denotes 1 12 c r)
field_accepted_iff_example = field_accepted_iff 1 12 false (codes "1,7-9,*/6")

abbrev same_text : String → String
same_text s = s

abbrev all_available : Account → Availability
all_available a = record { available = true; code = ""; message = "" }

abbrev douyin_only : String → Option (Account → Availability)
douyin_only name = if name == "douyin" then some all_available else none

abbrev empty_tables : Tables
empty_tables = record {
  db = record { jobs = []; stages = []; checkpoints = []; next_stage_id = 1 };
  accounts =
      record {
        id = 2;
        platform = "douyin";
        status = "logged_in";
        last_login_at = none;
        browser_provider = "";
        browser_profile_id = "";
      }
      ∷ [];
  acquisition = record { campaigns = []; keywords = []; next_campaign_id = 1; next_keyword_id = 1 };
}

-- One schedule, due at minute 5.
abbrev due_schedule : Schedule
due_schedule = record {
  id = 4;
  platform = "douyin";
  account_mode = "auto";
  account_id = none;
  stages_json = "collect" ∷ [];
  cron_expression = every_five;
  timezone = "UTC";
  enabled = true;
  config_json = "{}";
  next_run_at = some (5 * microseconds);
  last_run_at = none;
  updated_at = 0;
}

abbrev due_world : World
due_world = record { schedules = due_schedule ∷ []; tables = empty_tables }

abbrev due_snapshot : Snapshot
due_snapshot = snapshot_of due_schedule (5 * microseconds)

abbrev fresh_id : ℕ → ℕ
fresh_id id = id + 100

abbrev after_due : World
after_due = committed due_world (
    process zones same_text same_text douyin_only fresh_id 8 (7 * microseconds) due_snapshot
      due_world)

fires_once_example :
    process zones same_text same_text douyin_only fresh_id 9
      (8 * microseconds)
      due_snapshot
      after_due
    ≢ ok (true, after_due)
unfolding process next_cron_run previous_cron_run ◌>>=◌ parse matches parse_field parse_components
    parse_component step_of partition int_of positive ends_of in_limits search_forward search_back
    snapshot_of Stage.parse
fires_once_example =
    fires_once zones same_text same_text douyin_only fresh_id fresh_id 8 (7 * microseconds) 9
      (8 * microseconds) due_snapshot due_world after_due after_due after_due (omega arith) refl
      refl

tick_adds_example :
    let (created, w') =
      tick zones same_text same_text douyin_only fresh_id 8 (7 * microseconds) due_world in
    (added : List Job) × (w'.tables.db.jobs ≡ [] ++ added)
    × (length added ≡ created)
    × All (IsForDue (7 * microseconds) due_world.schedules) added
tick_adds_example =
    tick_adds same_text same_text douyin_only fresh_id zones 8 (7 * microseconds) due_world
