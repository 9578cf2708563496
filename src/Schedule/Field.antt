-- ===== src/Schedule/Field.antt =====
-- `_parse_field`: one field of a cron expression.
use tiktok_b2b_bot_mirror.Prelude.{
  ℕ, zero, suc, ◌+◌, ◌-◌, ltb, leb, nat_eq, ◌==◌, Bool, false, ◌&&◌, ◌||◌, Option, none, some, List,
  [], ◌∷◌, ◌++◌, map, Result, ok, err, raise_if, or_raise, ◌>>=◌, ◌>>◌, if◌then◌else◌,
}
use tiktok_b2b_bot_mirror.Schedule.Text.{
  Text, is_blank, has_code, split_on, partition, ℤ, pos, negsuc, int_of,
}

-- ValueError by its message, and the other exceptions of the module.
pub data CronError : Type 0 where
  invalid_field not_a_number step_not_positive out_of_range : CronError
  not_five_fields unknown_zone no_run before_first_minute : CronError

pub record Range : Type 0 where
  pub start : ℕ
  pub last : ℕ
  pub step : ℕ

abbrev pub is_star : Text → Bool
is_star [] = false
is_star (c ∷ []) = c == b'*'
is_star (_ ∷ _ ∷ _) = false

unfoldable pub number : Text → Result CronError ℤ
number s = or_raise (int_of s) not_a_number

unfoldable pub positive : ℤ → Result CronError ℕ
positive (pos zero) = err step_not_positive
positive (pos (suc n)) = ok (suc n)
positive (negsuc n) = err step_not_positive

-- `int(step_text) if separator else 1`, and the test that follows.
unfoldable pub step_of : Option Text → Result CronError ℕ
unfolding number
step_of none = ok 1
step_of (some s) = do n ← number s; positive n

unfoldable pub ends_of : ℕ → ℕ → Text → Result CronError (ℤ × ℤ)
unfolding number
ends_of minimum maximum base =
    if is_star base
    then ok (pos minimum, pos maximum)
    else if has_code b'-' base
    then (do
      start ← number (partition b'-' base).0
      last ← or_raise (partition b'-' base).1 not_a_number
      end ← number last
      ok (start, end))
    else (do value ← number base; ok (value, value))

-- `if start < minimum or end > maximum or start > end: raise`
unfoldable pub in_limits : ℕ → ℕ → ℕ → ℤ × ℤ → Result CronError Range
in_limits minimum maximum step (pos start, pos last) =
    if ltb start minimum || ltb maximum last || ltb last start
    then err out_of_range
    else ok (record { start = start; last = last; step = step })
in_limits minimum maximum step _ = err out_of_range

unfoldable pub parse_component : ℕ → ℕ → Text → Result CronError Range
parse_component minimum maximum component = do
  raise_if (is_blank component) invalid_field
  step ← step_of (partition b'/' component).1
  ends ← ends_of minimum maximum (partition b'/' component).0
  in_limits minimum maximum step ends

-- `range(start, end + 1, step)`; there are at most as many values as rounds.
unfoldable pub values_from : ℕ → ℕ → ℕ → ℕ → List ℕ
values_from zero x last step = []
values_from (suc rounds) x last step =
    let rest = values_from rounds (x + step) last step in if leb x last then x ∷ rest else []

unfoldable pub values_of : Range → List ℕ
unfolding values_from
values_of r = values_from (r.last + 1 - r.start) r.start r.last r.step

-- The loop over the components.
unfoldable pub parse_components : ℕ → ℕ → List Text → Result CronError (List ℕ)
unfolding values_of
parse_components minimum maximum [] = ok []
parse_components minimum maximum (c ∷ rest) = do
  range ← parse_component minimum maximum c
  values ← parse_components minimum maximum rest
  ok (values_of range ++ values)

unfoldable pub sunday_first : Bool → ℕ → ℕ
sunday_first normalize v = if normalize && v == 7 then 0 else v

pub record CronField : Type 0 where
  pub values : List ℕ
  pub wildcard : Bool

unfoldable pub parse_field : ℕ → ℕ → Bool → Text → Result CronError CronField
unfolding sunday_first split_on
parse_field minimum maximum normalize_weekday text = do
  values ← parse_components minimum maximum (split_on b',' text)
  ok (record { values = map (sunday_first normalize_weekday) values; wildcard = is_star text })
