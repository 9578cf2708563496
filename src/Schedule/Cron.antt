-- ===== src/Schedule/Cron.antt =====
-- CronExpression, next_cron_run and previous_cron_run. A moment is a number of microseconds from
-- the first minute of the calendar, and a minute is the number of minutes before it; `local` is what
-- `astimezone` gives for a minute.
use tiktok_b2b_bot_mirror.Prelude.{
  ℕ, zero, suc, ◌+◌, ◌*◌, ◌/◌, ◌%◌, nat_eq, Bool, true, false, not, ◌&&◌, ◌||◌, contains, Option,
  List, [], ◌∷◌, Result, ok, err, or_raise, ◌>>=◌, if◌then◌else◌, String,
}
use tiktok_b2b_bot_mirror.Schedule.Text.{Text, split_words}
use tiktok_b2b_bot_mirror.Schedule.Field.{
  CronError, not_five_fields, unknown_zone, no_run, before_first_minute, CronField, parse_field,
}

pub record CronExpression : Type 0 where
  pub minute : CronField
  pub hour : CronField
  pub day : CronField
  pub month : CronField
  pub weekday : CronField

unfoldable pub parse_parts : List Text → Result CronError CronExpression
parse_parts (a ∷ b ∷ c ∷ d ∷ e ∷ []) = do
  minute ← parse_field 0 59 false a
  hour ← parse_field 0 23 false b
  day ← parse_field 1 31 false c
  month ← parse_field 1 12 false d
  weekday ← parse_field 0 7 true e
  ok (record { minute = minute; hour = hour; day = day; month = month; weekday = weekday })
parse_parts _ = err not_five_fields

unfoldable pub parse : Text → Result CronError CronExpression
unfolding parse_parts split_words
parse expression = parse_parts (split_words expression)

-- What `matches` reads of a datetime; Monday is weekday 0.
pub record LocalTime : Type 0 where
  pub minute : ℕ
  pub hour : ℕ
  pub day : ℕ
  pub month : ℕ
  pub weekday : ℕ

unfoldable pub matches : CronExpression → LocalTime → Bool
matches cron t =
    if not (contains t.minute cron.minute.values)
      || not (contains t.hour cron.hour.values)
      || not (contains t.month cron.month.values)
    then false
    else if cron.day.wildcard || cron.weekday.wildcard
    then contains t.day cron.day.values && contains ((t.weekday + 1) % 7) cron.weekday.values
    else contains t.day cron.day.values || contains ((t.weekday + 1) % 7) cron.weekday.values

abbrev pub microseconds : ℕ
microseconds = 60_000_000

abbrev pub search_rounds : ℕ
search_rounds = 60 * 24 * 366 * 5

-- The loop of `next_cron_run`.
unfoldable pub search_forward : ℕ → (ℕ → Bool) → ℕ → Result CronError ℕ
search_forward zero test cursor = err no_run
search_forward (suc rounds) test cursor = elim (test cursor) [
  | true ↦ ok cursor
  | false ↦ search_forward rounds test (cursor + 1)
]

-- The loop of `previous_cron_run`; the calendar ends at its first minute.
unfoldable pub search_back : ℕ → (ℕ → Bool) → ℕ → Result CronError ℕ
search_back zero test cursor = err no_run
search_back (suc rounds) test zero = elim (test 0) [ true ↦ ok 0 | false ↦ err before_first_minute ]
search_back (suc rounds) test (suc cursor) = elim (test (suc cursor)) [
  | true ↦ ok (suc cursor)
  | false ↦ search_back rounds test cursor
]

module _ (zone_info : String → Option (ℕ → LocalTime)) where
  unfoldable pub next_cron_run : Text → String → ℕ → Result CronError ℕ
  next_cron_run expression timezone_name after = do
    cron ← parse expression
    local ← or_raise (zone_info timezone_name) unknown_zone
    minute ← search_forward search_rounds (λ m. matches cron (local m)) (after / microseconds + 1)
    ok (minute * microseconds)

  unfoldable pub previous_cron_run : Text → String → ℕ → Result CronError ℕ
  previous_cron_run expression timezone_name at_or_before = do
    cron ← parse expression
    local ← or_raise (zone_info timezone_name) unknown_zone
    minute ← search_back search_rounds (λ m. matches cron (local m)) (at_or_before / microseconds)
    ok (minute * microseconds)
