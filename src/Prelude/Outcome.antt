-- ===== src/Prelude/Outcome.antt =====
-- A call that may raise: its value, or the exception.
use mathlib.Core.Bool.{Bool, true, false, not}
use mathlib.Core.Path.{◌≡◌, refl, ap, subst}
use mathlib.Core.Logic.{◌⊎◌, inl, inr}
use native.Mathlib.Omega.{arith}
use tiktok_b2b_bot_mirror.Prelude.Tests.{if◌then◌else◌}
use mathlib.Core.Option.{Option, none, some}

pub data Result (E A : Type 0) : Type 0 where
  ok : A → Result E A
  err : E → Result E A

infixl 5 ◌>>=◌ ◌>>◌
-- It stays shut, so that `Yields-bind` meets the calls of a block one by one.
unfoldable pub ◌>>=◌ : {E A B : Type 0} → Result E A → (A → Result E B) → Result E B
ok a >>= f = f a
err e >>= f = err e

abbrev pub ◌>>◌ : {E A B : Type 0} → Result E A → Result E B → Result E B
m >> k = m >>= λ _. k

-- `if condition: raise error`
abbrev pub raise_if : {E : Type 0} → Bool → E → Result E (Unit {0})
raise_if true e = err e
raise_if false e = ok tt

-- `if value is None: raise error`
abbrev pub or_raise : {E A : Type 0} → Option A → E → Result E A
or_raise none e = err e
or_raise (some a) e = ok a

abbrev pub map_err : {E F A : Type 0} → (E → F) → Result E A → Result F A
map_err f (ok a) = ok a
map_err f (err e) = err (f e)

abbrev pub Holds : {E A S : Type 0} → (S → Type 0) → Result E (A × S) → Type 0
Holds P (ok (a, s)) = P s
Holds P (err e) = Unit

-- What holds of the state that a call leaves, if it returns; a call that raises is rolled back.
pub record Yields {E A S : Type 0} (P : S → Type 0) (r : Result E (A × S)) : Type 0 where
  pub holds : Holds P r

-- The state after a call in a session: an exception rolls it back.
abbrev pub committed : {E A S : Type 0} → S → Result E (A × S) → S
committed s (ok (a, t)) = t
committed s (err e) = s

module _ {E : Type 0} {S : Type 0} {P : S → Type 0} where
  pub Yields-ok : {A : Type 0} (a : A) {s : S} → P s → Yields {E = E} P (ok (a, s))
  Yields-ok a h = record { holds = h }

  -- A chain of calls is followed call by call.
  pub Yields-bind :
      {A B : Type 0} (m : Result E A) (f : A → Result E (B × S))
      → ((a : A) → m ≡ ok a → Yields P (f a))
      → Yields P (m >>= f)
  unfolding ◌>>=◌
  Yields-bind (ok a) f h = h a refl
  Yields-bind (err e) f h = record { holds = tt }

  -- So is a look-up, on both outcomes.
  pub Yields-option :
      {A B : Type 0} (o : Option A) (m : Result E (B × S)) (f : A → Result E (B × S))
      → Yields P m
      → ((a : A) → o ≡ some a → Yields P (f a))
      → Yields P (elim o [ none ↦ m | some a ↦ f a ])
  Yields-option none m f h k = h
  Yields-option (some a) m f h k = k a refl

  pub Yields-if :
      {B : Type 0} (b : Bool) (m n : Result E (B × S))
      → (b ≡ true → Yields P m)
      → (b ≡ false → Yields P n)
      → Yields P (if b then m else n)
  Yields-if true m n h k = h refl
  Yields-if false m n h k = k refl

pub map_err-ok :
    {E F A : Type 0} (f : E → F) (r : Result E A) (a : A) → map_err f r ≡ ok a → r ≡ ok a
map_err-ok f (ok b) a h = ground arith
map_err-ok f (err e) a h = cc

pub bind-ok :
    {E A B : Type 0} (m : Result E A) (f : A → Result E B) (b : B)
    → (m >>= f) ≡ ok b
    → (a : A) × (m ≡ ok a) × (f a ≡ ok b)
unfolding ◌>>=◌
bind-ok (ok a) f b h = (a, refl, h)
bind-ok (err e) f b h = cc

-- What one call leaves is what the rest starts from.
pub Yields-then :
    {E S A B : Type 0} {P Q : S → Type 0} (m : Result E (A × S)) (f : A × S → Result E (B × S))
    → Yields P m
    → ((a : A) (s : S) → P s → Yields Q (f (a, s)))
    → Yields Q (m >>= f)
unfolding ◌>>=◌
Yields-then (ok (a, s)) f h k = k a s h.holds
Yields-then (err e) f h k = record { holds = tt }

pub Yields-weaken :
    {E S A : Type 0} {P Q : S → Type 0} (m : Result E (A × S))
    → Yields P m
    → ((s : S) → P s → Q s)
    → Yields Q m
Yields-weaken (ok (a, s)) h k = record { holds = k s h.holds }
Yields-weaken (err e) h k = record { holds = tt }

pub ok-injective : {E A : Type 0} {a b : A} → ◌≡◌ {A = Result E A} (ok a) (ok b) → a ≡ b
ok-injective h = cc

pub or_raise-ok : {E A : Type 0} (o : Option A) (e : E) (a : A) → or_raise o e ≡ ok a → o ≡ some a
or_raise-ok none e a h = cc
or_raise-ok (some b) e a h = ap some (ok-injective h)

-- A guarded call returns when the guard is passed and the rest returns.
pub raise_if-ok :
    {E A : Type 0} (b : Bool) (e : E) (m : Result E A) (a : A)
    → (raise_if b e >> m) ≡ ok a
    → (b ≡ false) × (m ≡ ok a)
unfolding ◌>>=◌
raise_if-ok true e m a h = cc
raise_if-ok false e m a h = (refl, h)

-- ... where the guard is that a test fails.
pub raise_if-not :
    {E A : Type 0} (b : Bool) (e : E) (m : Result E A) (a : A)
    → (raise_if (not b) e >> m) ≡ ok a
    → (b ≡ true) × (m ≡ ok a)
unfolding ◌>>=◌
raise_if-not true e m a h = (refl, h)
raise_if-not false e m a h = cc

-- A chain goes on from what its first call is known to return.
pub bind_known :
    {E A B : Type 0} (m : Result E A) (f : A → Result E B) (a : A) (r : Result E B)
    → m ≡ ok a
    → (m >>= f) ≡ r
    → f a ≡ r
unfolding ◌>>=◌
bind_known (ok b) f a r e h = let same : b ≡ a = cc in subst (λ x. f x ≡ r) same h
bind_known (err x) f a r e h = cc

-- To split on what a call returns and keep the equation.
pub Result-cases :
    {E A : Type 0} (r : Result E A) → ((a : A) × (r ≡ ok a)) ⊎ ((e : E) × (r ≡ err e))
Result-cases (ok a) = inl (a, refl)
Result-cases (err e) = inr (e, refl)
