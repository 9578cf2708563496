-- ===== src/Schedule/Bounds.antt =====
-- The limits of the fields of a cron expression.
use tiktok_b2b_bot_mirror.Prelude.{
  ℕ, ◌≤◌, List, [], ◌∷◌, Memᴰ, ◌≡◌, subst, ok, bind-ok, ok-injective,
}
use tiktok_b2b_bot_mirror.Schedule.Text.{Text, split_words}
use tiktok_b2b_bot_mirror.Schedule.Field.{CronField}
use tiktok_b2b_bot_mirror.Schedule.Cron.{CronExpression, parse_parts, parse}
use tiktok_b2b_bot_mirror.Schedule.Values.{field_bounds, weekday_bounds}

-- Every value of the field lies between the two limits.
pub record Between (minimum maximum : ℕ) (f : CronField) : Type 0 where
  pub between : (v : ℕ) → Memᴰ v f.values → (minimum ≤ v) × (v ≤ maximum)

pub record IsInLimits (cron : CronExpression) : Type 0 where
  pub minutes : Between 0 59 cron.minute
  pub hours : Between 0 23 cron.hour
  pub days : Between 1 31 cron.day
  pub months : Between 1 12 cron.month
  pub weekdays : (v : ℕ) → Memᴰ v cron.weekday.values → v ≤ 6

parts-IsInLimits :
    (parts : List Text) (cron : CronExpression) → parse_parts parts ≡ ok cron → IsInLimits cron
unfolding parse_parts
parts-IsInLimits [] cron h = cc
parts-IsInLimits (_ ∷ []) cron h = cc
parts-IsInLimits (_ ∷ _ ∷ []) cron h = cc
parts-IsInLimits (_ ∷ _ ∷ _ ∷ []) cron h = cc
parts-IsInLimits (_ ∷ _ ∷ _ ∷ _ ∷ []) cron h = cc
parts-IsInLimits (_ ∷ _ ∷ _ ∷ _ ∷ _ ∷ _ ∷ _) cron h = cc
parts-IsInLimits (a ∷ b ∷ c ∷ d ∷ e ∷ []) cron h =
    let (minute, p, h1) = bind-ok _ _ cron h in
    let (hour, q, h2) = bind-ok _ _ cron h1 in
    let (day, r, h3) = bind-ok _ _ cron h2 in
    let (month, s, h4) = bind-ok _ _ cron h3 in
    let (weekday, t, h5) = bind-ok _ _ cron h4 in
    subst IsInLimits (ok-injective h5) (record {
      minutes = record { between = λ v. field_bounds 0 59 a minute v p };
      hours = record { between = λ v. field_bounds 0 23 b hour v q };
      days = record { between = λ v. field_bounds 1 31 c day v r };
      months = record { between = λ v. field_bounds 1 12 d month v s };
      weekdays = λ v. weekday_bounds e weekday v t;
    })

-- The values of an expression that is accepted lie in the limits of their fields: minutes from 0 to
-- 59, hours from 0 to 23, days from 1 to 31, months from 1 to 12, and weekdays from 0 to 6.
pub parse-IsInLimits :
    (expression : Text) (cron : CronExpression) → parse expression ≡ ok cron → IsInLimits cron
unfolding parse
parse-IsInLimits expression cron h = parts-IsInLimits (split_words expression) cron h
