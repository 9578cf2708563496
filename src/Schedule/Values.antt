-- ===== src/Schedule/Values.antt =====
-- Which values a field of a cron expression allows, and when the field is refused.
use tiktok_b2b_bot_mirror.Prelude.{
  ℕ, ◌+◌, ◌*◌, ◌≤◌, ◌≡◌, ◌↔◌, refl, sym, ap, ◌∙◌, inl, inr, Bool, true, false, nat_eq, nat_beq_iff,
  ◌==◌, Bool-cases, List, [], ◌∷◌, ◌++◌, map, mem_map, mem-map, Memᴰ, mem_cases, mem-append,
  mem_append_left, mem_append_right, ok, bind-ok, ok-injective, arith, subst,
}
use tiktok_b2b_bot_mirror.Schedule.Text.{Text, split_on}
use tiktok_b2b_bot_mirror.Schedule.Field.{
  Range, CronField, parse_component, parse_components, values_of, sunday_first, parse_field,
}
use tiktok_b2b_bot_mirror.Schedule.Ranges.{InRange, component-Within, values_of_iff}

-- One of the components stands for a range that has `v`.
pub record Selected (minimum maximum : ℕ) (components : List Text) (v : ℕ) : Type 0 where
  pub component : Text
  pub range : Range
  pub there : Memᴰ component components
  pub parsed : parse_component minimum maximum component ≡ ok range
  pub reached : InRange range v

Selected-later :
    {minimum maximum v : ℕ} (c : Text) {rest : List Text}
    → Selected minimum maximum rest v
    → Selected minimum maximum (c ∷ rest) v
Selected-later c s = record {
  component = s.component;
  range = s.range;
  there = Memᴰ.tail s.there;
  parsed = s.parsed;
  reached = s.reached;
}

components_sound :
    (minimum maximum : ℕ) (cs : List Text) (values : List ℕ) (v : ℕ)
    → parse_components minimum maximum cs ≡ ok values
    → Memᴰ v values
    → Selected minimum maximum cs v
unfolding parse_components
components_sound minimum maximum [] values v h m =
    elim (subst (λ vs. Memᴰ v vs) (sym (ok-injective h)) m) [ ]
components_sound minimum maximum (c ∷ rest) values v h m =
    let (r, parsed, h1) = bind-ok _ _ values h in
    let (later, parsed_later, h2) = bind-ok _ _ values h1 in
    let m2 : Memᴰ v (values_of r ++ later) = subst (λ vs. Memᴰ v vs) (sym (ok-injective h2)) m in
    elim (mem-append (values_of r) later m2) [
      | inl n ↦ record {
        component = c;
        range = r;
        there = Memᴰ.head refl;
        parsed = parsed;
        reached = (values_of_iff r v (component-Within minimum maximum c r parsed).moving).0 n;
      }
      | inr n ↦ Selected-later c (components_sound minimum maximum rest later v parsed_later n)
    ]

components_complete :
    (minimum maximum : ℕ) (cs : List Text) (values : List ℕ) (v : ℕ)
    → parse_components minimum maximum cs ≡ ok values
    → (c : Text) (r : Range) → Memᴰ c cs
    → parse_component minimum maximum c ≡ ok r
    → InRange r v
    → Memᴰ v values
unfolding parse_components
components_complete minimum maximum [] values v h c r m p i = elim m [ ]
components_complete minimum maximum (k ∷ rest) values v h c r m p i =
    let (r', parsed, h1) = bind-ok _ _ values h in
    let (later, parsed_later, h2) = bind-ok _ _ values h1 in
    subst (λ vs. Memᴰ v vs) (ok-injective h2)
      (elim (mem_cases m) [
        | inl here ↦
            let same : r ≡ r' = ok-injective (sym p ∙ rw here parsed) in
            mem_append_left (values_of r') later (
              (values_of_iff r' v (component-Within minimum maximum k r' parsed).moving).1
                (rw (sym same) i))
        | inr behind ↦
            mem_append_right (values_of r') later
              (components_complete minimum maximum rest later v parsed_later c r behind p i)
      ])

-- What a value of a component counts as: in the weekday field 7 is another name of 0.
pub data CountsAs (weekday : Bool) : ℕ → ℕ → Type 0 where
  itself : (v : ℕ) → ¬ ((weekday ≡ true) × (v ≡ 7)) → CountsAs weekday v v
  sunday : weekday ≡ true → CountsAs weekday 7 0

sunday_first-CountsAs :
    (weekday : Bool) (v w : ℕ) → (w ≡ sunday_first weekday v) ↔ CountsAs weekday v w
unfolding sunday_first
sunday_first-CountsAs weekday v w = (
  λ e. rw e (elim (Bool-cases (v == 7)) [
    | inl seven ↦ rw ((nat_beq_iff v 7).0 seven) (elim (Bool-cases weekday) [
      | inl on ↦ rw on (CountsAs.sunday refl)
      | inr off ↦ rw off (CountsAs.itself 7 λ (on, _). cc)
    ])
    | inr other ↦ elim (Bool-cases weekday) [
      | inl on ↦
          rw (on, other) (CountsAs.itself v λ (_, seven). cc (other, (nat_beq_iff v 7).1 seven))
      | inr off ↦ rw off (CountsAs.itself v λ (on, _). cc)
    ]
  ]),
  counted,
)
  where
    counted : {v w : ℕ} → CountsAs weekday v w → w ≡ sunday_first weekday v
    counted (CountsAs.itself v other) = elim (Bool-cases (v == 7)) [
      | inl seven ↦ elim (Bool-cases weekday) [
        | inl on ↦ absurd (other (on, (nat_beq_iff v 7).0 seven))
        | inr off ↦ rw off refl
      ]
      | inr e ↦ elim (Bool-cases weekday) [ inl on ↦ rw (on, e) refl | inr off ↦ rw off refl ]
    ]
    counted (CountsAs.sunday on) = rw on refl

parsed_values_iff :
    (minimum maximum : ℕ) (weekday : Bool) (text : Text) (f : CronField) (w : ℕ)
    → parse_field minimum maximum weekday text ≡ ok f
    → Memᴰ w f.values
      ↔ ((v : ℕ) × Selected minimum maximum (split_on b',' text) v × (w ≡ sunday_first weekday v))
unfolding parse_field
parsed_values_iff minimum maximum weekday text f w h =
    let (values, parsed, h1) = bind-ok _ _ f h in
    let same : map (sunday_first weekday) values ≡ f.values =
      ap (λ g. g.values) (ok-injective h1) in
    (
      (λ m.
          let (v, n, e) =
            mem_map (sunday_first weekday) values (subst (λ vs. Memᴰ w vs) (sym same) m) in
          (v, components_sound minimum maximum _ values v parsed n, e)),
      (λ (v, s, e).
          subst (λ vs. Memᴰ w vs) same
            (rw e (
              mem-map (sunday_first weekday) (
                components_complete minimum maximum _ values v parsed s.component s.range s.there
                  s.parsed s.reached)))),
    )

-- When a field is accepted, its values are exactly those that one of its components reaches in steps
-- from its start and up to its end, where a weekday 7 counts as 0.
pub field_values_iff :
    (minimum maximum : ℕ) (weekday : Bool) (text : Text) (f : CronField) (w : ℕ)
    → parse_field minimum maximum weekday text ≡ ok f
    → Memᴰ w f.values
      ↔ ((v : ℕ) × Selected minimum maximum (split_on b',' text) v × CountsAs weekday v w)
field_values_iff minimum maximum weekday text f w h =
    let values = parsed_values_iff minimum maximum weekday text f w h in
    (
      λ m. let (v, s, e) = values.0 m in (v, s, (sunday_first-CountsAs weekday v w).0 e),
      λ (v, s, c). values.1 (v, s, (sunday_first-CountsAs weekday v w).1 c),
    )

Selected-bounds :
    {minimum maximum v : ℕ} {cs : List Text}
    → Selected minimum maximum cs v
    → (minimum ≤ v) × (v ≤ maximum)
Selected-bounds {minimum} {maximum} {v} s =
    let w = component-Within minimum maximum s.component s.range s.parsed in
    let start : minimum ≤ s.range.start = w.low in
    let end : s.range.last ≤ maximum = w.high in
    let reached : v ≡ s.range.start + s.reached.steps * s.range.step = s.reached.reached in
    let below : v ≤ s.range.last = s.reached.below in (omega arith, omega arith)

pub field_bounds :
    (minimum maximum : ℕ) (text : Text) (f : CronField) (v : ℕ)
    → parse_field minimum maximum false text ≡ ok f
    → Memᴰ v f.values
    → (minimum ≤ v) × (v ≤ maximum)
unfolding sunday_first
field_bounds minimum maximum text f v h m =
    let (a, s, e) = (parsed_values_iff minimum maximum false text f v h).0 m in
    let (low, high) = Selected-bounds s in (ground (arith, e, low), ground (arith, e, high))

pub weekday_bounds :
    (text : Text) (f : CronField) (v : ℕ)
    → parse_field 0 7 true text ≡ ok f
    → Memᴰ v f.values
    → v ≤ 6
unfolding sunday_first
weekday_bounds text f v h m =
    let (a, s, e) = (parsed_values_iff 0 7 true text f v h).0 m in
    let (_, top) = Selected-bounds s in ground (arith, e, top)
