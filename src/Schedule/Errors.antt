-- ===== src/Schedule/Errors.antt =====
-- Which cron fields and expressions are refused.
use tiktok_b2b_bot_mirror.Prelude.{
  ℕ, Bool, List, [], ◌∷◌, ◌++◌, map, Memᴰ, ◌≡◌, refl, ◌↔◌, ok, ◌>>=◌, bind-ok, mem_cases, inl, inr,
}
use tiktok_b2b_bot_mirror.Schedule.Text.{Text, split_on}
use tiktok_b2b_bot_mirror.Schedule.Field.{
  Range, CronField, parse_component, parse_components, parse_field, values_of, sunday_first,
  is_star,
}
use tiktok_b2b_bot_mirror.Schedule.Components.{Denotes, parse_component_iff}

components_accepted :
    (minimum maximum : ℕ) (components : List Text)
    → ((c : Text) → Memᴰ c components → (r : Range) × (parse_component minimum maximum c ≡ ok r))
    → (values : List ℕ) × (parse_components minimum maximum components ≡ ok values)
unfolding parse_components ◌>>=◌
components_accepted minimum maximum [] h = ([], refl)
components_accepted minimum maximum (c ∷ rest) h =
    let (range, here) = h c (Memᴰ.head refl) in
    let (values, later) = components_accepted minimum maximum rest λ d m. h d (Memᴰ.tail m) in
    (values_of range ++ values, rw (here, later) refl)

components_each :
    (minimum maximum : ℕ) (components : List Text) (values : List ℕ) {c : Text}
    → parse_components minimum maximum components ≡ ok values
    → Memᴰ c components
    → (r : Range) × (parse_component minimum maximum c ≡ ok r)
unfolding parse_components
components_each minimum maximum [] values h m = elim m [ ]
components_each minimum maximum (x ∷ rest) values h m =
    let (range, here, h1) = bind-ok _ _ values h in
    let (others, later, _) = bind-ok _ _ values h1 in
    elim (mem_cases m) [
      | inl same ↦ (range, rw same here)
      | inr n ↦ components_each minimum maximum rest others later n
    ]

field_values :
    (minimum maximum : ℕ) (weekday : Bool) (text : Text) (values : List ℕ)
    → parse_components minimum maximum (split_on b',' text) ≡ ok values
    → parse_field minimum maximum weekday text
      ≡ ok (record { values = map (sunday_first weekday) values; wildcard = is_star text })
unfolding parse_field ◌>>=◌
field_values minimum maximum weekday text values e = rw e refl

-- A field is accepted exactly when each of its components, split at the commas, stands for a range: a
-- star, a number, or two numbers around a dash, perhaps with a slash and a positive step behind it,
-- whose ends are in order and within the limits.
pub field_accepted_iff :
    (minimum maximum : ℕ) (weekday : Bool) (text : Text)
    → ((f : CronField) × (parse_field minimum maximum weekday text ≡ ok f))
      ↔ ((c : Text) → Memᴰ c (split_on b',' text) → (r : Range) × Denotes minimum maximum c r)
unfolding parse_field
field_accepted_iff minimum maximum weekday text = (
  λ (f, h) c m.
      let (values, parsed, _) = bind-ok _ _ f h in
      let (r, accepted) = components_each minimum maximum _ values parsed m in
      (r, (parse_component_iff minimum maximum c r).0 accepted),
  λ h.
      let (values, parsed) =
        components_accepted minimum maximum _
          λ c m. let (r, d) = h c m in (r, (parse_component_iff minimum maximum c r).1 d) in
      (
        record { values = map (sunday_first weekday) values; wildcard = is_star text },
        field_values minimum maximum weekday text values parsed,
      ),
)
