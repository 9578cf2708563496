-- ===== src/Schedule/Components.antt =====
-- Which texts are components of a cron field, and the range that each stands for.
use tiktok_b2b_bot_mirror.Prelude.{
  ℕ, zero, suc, ◌≤◌, ◌≡◌, ◌≢◌, ◌↔◌, refl, sym, ap, ◌∙◌, subst, nat_eq, nat_beq_iff, true, false,
  Bool-cases, Option, none, some, [], ◌∷◌, ◌++◌, inl, inr, ok, bind-ok, ok-injective, or_raise-ok,
  raise_if-ok, ltb, ◌||◌, ◌>>=◌, arith,
}
use tiktok_b2b_bot_mirror.Schedule.Text.{
  Text, ℤ, pos, negsuc, is_blank, has_code, partition, int_of,
}
use tiktok_b2b_bot_mirror.Schedule.Field.{
  Range, is_star, positive, step_of, ends_of, in_limits, parse_component, number,
}
use tiktok_b2b_bot_mirror.Schedule.Ranges.{component-Within}
use tiktok_b2b_bot_mirror.Schedule.Splits.{
  IsFree, IsSplit, whole, cut, partition-IsSplit, IsSplit-partition, IsFree-has_code, cut-has_code,
}

-- The step behind a slash; without a slash it is 1.
pub data IsStep : Option Text → ℕ → Type 0 where
  absent : IsStep none 1
  given : (text : Text) (n : ℕ) → int_of text ≡ some (pos n) → 1 ≤ n → IsStep (some text) n

-- The ends of a range: all values for a star, two numbers around a dash, or one number.
pub data IsEnds (minimum maximum : ℕ) (base : Text) : ℕ → ℕ → Type 0 where
  star : base ≡ b'*' ∷ [] → IsEnds minimum maximum base minimum maximum
  span :
      (first last : Text) (start end : ℕ)
      → IsFree b'-' first
      → base ≡ first ++ b'-' ∷ last
      → int_of first ≡ some (pos start)
      → int_of last ≡ some (pos end)
      → IsEnds minimum maximum base start end
  single :
      (value : ℕ)
      → IsFree b'-' base
      → int_of base ≡ some (pos value)
      → IsEnds minimum maximum base value value

-- The text is a component that stands for the range: a base with its ends, and perhaps a slash and a
-- step; the ends are in order and within the limits.
pub record Denotes (minimum maximum : ℕ) (text : Text) (r : Range) : Type 0 where
  pub filled : text ≢ []
  pub base : Text
  pub step_text : Option Text
  pub split : IsSplit b'/' text base step_text
  pub stepped : IsStep step_text r.step
  pub ended : IsEnds minimum maximum base r.start r.last
  pub low : minimum ≤ r.start
  pub high : r.last ≤ maximum
  pub ordered : r.start ≤ r.last

step_of-IsStep : (o : Option Text) (step : ℕ) → step_of o ≡ ok step → IsStep o step
unfolding step_of number positive
step_of-IsStep none step h = rw (sym (ok-injective h)) IsStep.absent
step_of-IsStep (some s) step h =
    let (n, read, h1) = bind-ok _ _ step h in from_number n (or_raise-ok _ _ n read) h1
  where
    from_number : (n : ℤ) → int_of s ≡ some n → positive n ≡ ok step → IsStep (some s) step
    from_number (pos zero) read h = cc
    from_number (pos (suc n)) read h =
        subst (IsStep (some s)) (ok-injective h) (IsStep.given s (suc n) read (omega arith))
    from_number (negsuc n) read h = cc

step_complete : (o : Option Text) (step : ℕ) → IsStep o step → step_of o ≡ ok step
unfolding step_of number positive ◌>>=◌
step_complete _ _ IsStep.absent = refl
step_complete _ _ (IsStep.given text zero read h) = absurd (omega arith)
step_complete _ _ (IsStep.given text (suc n) read h) = rw read refl

star_text : (s : Text) → is_star s ≡ true → s ≡ b'*' ∷ []
star_text [] h = cc
star_text (c ∷ []) h = ap (λ x. x ∷ []) ((nat_beq_iff c b'*').0 h)
star_text (_ ∷ _ ∷ _) h = cc

-- The ends that one component gives, before the test against the limits.
ends_of-IsEnds :
    (minimum maximum start end : ℕ) (base : Text)
    → ends_of minimum maximum base ≡ ok (pos start, pos end)
    → IsEnds minimum maximum base start end
unfolding ends_of number
ends_of-IsEnds minimum maximum start end base h = elim (Bool-cases (is_star base)) [
  | inl e ↦
      let made = ok-injective (rw e at h) in
      let low : minimum ≡ start = cc in
      let high : maximum ≡ end = cc in
      subst (λ a. IsEnds minimum maximum base a end) low
        (subst (λ b. IsEnds minimum maximum base minimum b) high (IsEnds.star (star_text base e)))
  | inr e ↦ elim (Bool-cases (has_code b'-' base)) [
    | inl d ↦
        let (a, first, h1) = bind-ok _ _ (pos start, pos end) (rw (e, d) at h) in
        let (text, behind, h2) = bind-ok _ _ (pos start, pos end) h1 in
        let (b, last, h3) = bind-ok _ _ (pos start, pos end) h2 in
        let made = ok-injective h3 in
        let low : a ≡ pos start = ap (λ p. p.0) made in
        let high : b ≡ pos end = ap (λ p. p.1) made in
        spanned (partition-IsSplit b'-' base) (or_raise-ok _ _ a first ∙ ap some low)
          (or_raise-ok _ _ text behind) (or_raise-ok _ _ b last ∙ ap some high)
    | inr d ↦
        let (a, read, h1) = bind-ok _ _ (pos start, pos end) (rw (e, d) at h) in
        let made = ok-injective h1 in
        let low : a ≡ pos start = ap (λ p. p.0) made in
        let high : a ≡ pos end = ap (λ p. p.1) made in
        let same : start ≡ end = cc in
        subst (IsEnds minimum maximum base start) same
          (lone (partition-IsSplit b'-' base) d (or_raise-ok _ _ a read ∙ ap some low))
  ]
]
  where
    spanned :
        {before text : Text} {o : Option Text}
        → IsSplit b'-' base before o
        → int_of before ≡ some (pos start)
        → o ≡ some text
        → int_of text ≡ some (pos end)
        → IsEnds minimum maximum base start end
    spanned (whole free) f o l = cc
    spanned {text = text} (cut before behind free e) f o l =
        let same : text ≡ behind = cc in
        IsEnds.span before behind start end free e f (subst (λ t. int_of t ≡ some (pos end)) same l)

    lone :
        {before : Text} {o : Option Text}
        → IsSplit b'-' base before o
        → has_code b'-' base ≡ false
        → int_of base ≡ some (pos start)
        → IsEnds minimum maximum base start start
    lone (whole free) d read = IsEnds.single start free read
    lone (cut before behind free e) d read = cc (cut-has_code b'-' before behind, rw e at d)

unstarred : (first last : Text) → is_star (first ++ b'-' ∷ last) ≡ false
unstarred [] [] = refl
unstarred [] (_ ∷ _) = refl
unstarred (_ ∷ []) last = refl
unstarred (_ ∷ _ ∷ _) last = refl

numbered : (base : Text) (n : ℤ) → int_of base ≡ some n → is_star base ≡ false
unfolding int_of
numbered base n h = elim (Bool-cases (is_star base)) [
  | inl e ↦ absurd (cc (rw (star_text base e) at h))
  | inr e ↦ e
]

ends_complete :
    (minimum maximum start end : ℕ) (base : Text)
    → IsEnds minimum maximum base start end
    → ends_of minimum maximum base ≡ ok (pos start, pos end)
unfolding ends_of number ◌>>=◌
ends_complete minimum maximum _ _ base (IsEnds.star e) = rw e refl
ends_complete minimum maximum _ _ base (IsEnds.span first last start end free e f l) =
    rw
      (
        e,
        unstarred first last,
        cut-has_code b'-' first last,
        IsSplit-partition b'-' _ first (some last) (IsSplit.cut first last free refl),
        f,
        l,
      )
      refl
ends_complete minimum maximum _ _ base (IsEnds.single value free read) =
    rw (numbered base (pos value) read, IsFree-has_code b'-' base free, read) refl

-- Only ends that are not negative pass the test, and they are those of the range.
limits_ends :
    (minimum maximum step : ℕ) (ends : ℤ × ℤ) (r : Range)
    → in_limits minimum maximum step ends ≡ ok r
    → (ends ≡ (pos r.start, pos r.last)) × (step ≡ r.step)
unfolding in_limits
limits_ends minimum maximum step (pos start, pos last) r h =
    elim (Bool-cases (ltb start minimum || ltb maximum last || ltb last start)) [
      | inl e ↦ absurd (cc (rw e at h))
      | inr e ↦
          let same : record { start = start; last = last; step = step } ≡ r =
            ok-injective (rw e at h) in
          (ap (λ (x : Range). (pos x.start, pos x.last)) same, ap (λ (x : Range). x.step) same)
    ]
limits_ends minimum maximum step (pos start, negsuc last) r h = cc
limits_ends minimum maximum step (negsuc start, last) r h = cc

limits_pass :
    (minimum maximum : ℕ) (r : Range)
    → minimum ≤ r.start
    → r.last ≤ maximum
    → r.start ≤ r.last
    → in_limits minimum maximum r.step (pos r.start, pos r.last) ≡ ok r
unfolding in_limits
limits_pass minimum maximum r low high ordered =
    let passed : (ltb r.start minimum || ltb maximum r.last || ltb r.last r.start) ≡ false =
      ground arith in
    rw passed refl

filled_text : (text : Text) → is_blank text ≡ false → text ≢ []
filled_text [] h = cc
filled_text (c ∷ s) h = λ e. cc

not_blank : (text : Text) → text ≢ [] → is_blank text ≡ false
not_blank [] n = absurd (n refl)
not_blank (c ∷ s) n = refl

pub parse_component_iff :
    (minimum maximum : ℕ) (text : Text) (r : Range)
    → (parse_component minimum maximum text ≡ ok r) ↔ Denotes minimum maximum text r
unfolding parse_component ◌>>=◌
parse_component_iff minimum maximum text r = (
  λ h.
      let (filled, h1) = raise_if-ok _ _ _ r h in
      let (step, stepped, h2) = bind-ok (step_of (partition b'/' text).1) _ r h1 in
      let (ends, ended, h3) = bind-ok (ends_of minimum maximum (partition b'/' text).0) _ r h2 in
      let (same_ends, same_step) = limits_ends minimum maximum step ends r h3 in
      let w = component-Within minimum maximum text r h in
      record {
        filled = filled_text text filled;
        base = (partition b'/' text).0;
        step_text = (partition b'/' text).1;
        split = partition-IsSplit b'/' text;
        stepped = step_of-IsStep _ r.step (stepped ∙ ap ok same_step);
        ended = ends_of-IsEnds minimum maximum r.start r.last _ (ended ∙ ap ok same_ends);
        low = w.low;
        high = w.high;
        ordered = w.ordered;
      },
  λ d.
      rw
        (
          not_blank text d.filled,
          IsSplit-partition b'/' text d.base d.step_text d.split,
          step_complete d.step_text r.step d.stepped,
          ends_complete minimum maximum r.start r.last d.base d.ended,
        )
        (limits_pass minimum maximum r d.low d.high d.ordered),
)
