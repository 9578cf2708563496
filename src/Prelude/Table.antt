-- ===== src/Prelude/Table.antt =====
-- A database table as the list of its rows in key order, and the statements run on it.
use Prim.Native.Nat.{ℕ, suc}
use mathlib.Core.Path.{◌≡◌, refl, sym, ap, ◌∙◌}
use mathlib.Core.Logic.{◌≢◌, ◌⊎◌, inl, inr}
use mathlib.Core.Bool.{Bool, true, false, ◌||◌}
use mathlib.Core.Option.{Option, none, some}
use mathlib.Core.List.{List, [], ◌∷◌, ◌++◌, map, Memᴰ}
use native.Mathlib.Omega.{arith}
use tiktok_b2b_bot_mirror.Prelude.Tests.{if◌then◌else◌, Bool-cases}
use tiktok_b2b_bot_mirror.Prelude.Lists.{mem_map}

module _ {A : Type 0} where
  -- `SELECT ... WHERE p`
  abbrev pub select : (A → Bool) → List A → List A
  select p [] = []
  select p (x ∷ xs) = if p x then x ∷ select p xs else select p xs

  -- the first such row: `session.get`, `session.scalar`
  abbrev pub first : (A → Bool) → List A → Option A
  first p [] = none
  first p (x ∷ xs) = if p x then some x else first p xs

  abbrev pub exists_row : (A → Bool) → List A → Bool
  exists_row p [] = false
  exists_row p (x ∷ xs) = p x || exists_row p xs

  -- `result.rowcount`
  abbrev pub rowcount : (A → Bool) → List A → ℕ
  rowcount p [] = 0
  rowcount p (x ∷ xs) = if p x then suc (rowcount p xs) else rowcount p xs

  abbrev pub update_row : (A → Bool) → (A → A) → A → A
  update_row p f x = if p x then f x else x

  -- `UPDATE ... SET f WHERE p`
  abbrev pub update : (A → Bool) → (A → A) → List A → List A
  update p f = map (update_row p f)

  -- What statements have done to a table: each row that was there is in its place, changed by `R`
  -- at most, and rows may have been added behind them.
  pub data Grows (R : A → A → Type 0) : List A → List A → Type 0 where
    added : (new : List A) → Grows R [] new
    kept : {x y : A} {xs ys : List A} → R x y → Grows R xs ys → Grows R (x ∷ xs) (y ∷ ys)

  pub exists_row_mem :
      (p : A → Bool) (xs : List A) → exists_row p xs ≡ true → (x : A) × Memᴰ x xs × (p x ≡ true)
  exists_row_mem p [] h = cc
  exists_row_mem p (x ∷ xs) h = elim (Bool-cases (p x)) [
    | inl e ↦ (x, Memᴰ.head refl, e)
    | inr e ↦ let (y, m, q) = exists_row_mem p xs (rw e at h) in (y, Memᴰ.tail m, q)
  ]

  pub first_mem :
      (p : A → Bool) (xs : List A) {x : A} → first p xs ≡ some x → Memᴰ x xs × (p x ≡ true)
  first_mem p [] h = cc
  first_mem p (y ∷ ys) {x} h = elim (Bool-cases (p y)) [
    | inl e ↦ let same : x ≡ y = ground arith in (Memᴰ.head same, rw same e)
    | inr e ↦ let (m, q) = first_mem p ys (rw e at h) in (Memᴰ.tail m, q)
  ]

  -- What holds of no row is counted zero times.
  pub rowcount_absent :
      (p : A → Bool) (xs : List A) → ((x : A) → Memᴰ x xs → p x ≡ false) → rowcount p xs ≡ 0
  rowcount_absent p [] h = refl
  rowcount_absent p (x ∷ xs) h =
      rw (h x (Memᴰ.head refl)) (rowcount_absent p xs (λ y m. h y (Memᴰ.tail m)))

  pub update_none :
      (p : A → Bool) (f : A → A) (xs : List A)
      → ((x : A) → Memᴰ x xs → p x ≡ false)
      → update p f xs ≡ xs
  update_none p f [] h = refl
  update_none p f (x ∷ xs) h =
      rw (h x (Memᴰ.head refl)) (ap (λ ys. x ∷ ys) (update_none p f xs (λ y m. h y (Memᴰ.tail m))))

  pub update_mem :
      (p : A → Bool) (f : A → A) (xs : List A) {y : A}
      → Memᴰ y (update p f xs)
      → (x : A) × Memᴰ x xs × (y ≡ update_row p f x)
  update_mem p f = mem_map (update_row p f)

  pub mem-Grows :
      (R : A → A → Type 0) {x : A} (xs ys : List A)
      → Grows R xs ys
      → Memᴰ x xs
      → (y : A) × Memᴰ y ys × R x y
  mem-Grows R _ _ (added new) m = elim m [ ]
  mem-Grows R _ _ (kept {y = z} r rs) (Memᴰ.head e) = (z, Memᴰ.head refl, rw e r)
  mem-Grows R _ _ (kept r rs) (Memᴰ.tail m) =
      let (y, n, q) = mem-Grows R _ _ rs m in (y, Memᴰ.tail n, q)

  module _ (R : A → A → Type 0) where
    pub Grows-refl : ((x : A) → R x x) → (xs : List A) → Grows R xs xs
    Grows-refl h [] = added []
    Grows-refl h (x ∷ xs) = kept (h x) (Grows-refl h xs)

    pub Grows-append : ((x : A) → R x x) → (xs new : List A) → Grows R xs (xs ++ new)
    Grows-append h [] new = added new
    Grows-append h (x ∷ xs) new = kept (h x) (Grows-append h xs new)

    pub Grows-update :
        (p : A → Bool) (f : A → A)
        → ((x : A) → R x x)
        → ((x : A) → p x ≡ true → R x (f x))
        → (xs : List A) → Grows R xs (update p f xs)
    Grows-update p f h g [] = added []
    Grows-update p f h g (x ∷ xs) = elim (Bool-cases (p x)) [
      | inl e ↦ kept (rw e (g x e)) (Grows-update p f h g xs)
      | inr e ↦ kept (rw e (h x)) (Grows-update p f h g xs)
    ]

    pub Grows-trans :
        ((x y z : A) → R x y → R y z → R x z)
        → {xs ys zs : List A} → Grows R xs ys
        → Grows R ys zs
        → Grows R xs zs
    Grows-trans t {zs = zs} (added new) s = added zs
    Grows-trans t (kept {x = a} {y = b} r rs) (kept {y = c} s ss) =
        kept (t a b c r s) (Grows-trans t rs ss)

pub mem_cases {ℓ} : {A : Type ℓ} {a x : A} {xs : List A} → Memᴰ a (x ∷ xs) → (a ≡ x) ⊎ Memᴰ a xs
mem_cases (Memᴰ.head e) = inl e
mem_cases (Memᴰ.tail m) = inr m

module _ {A : Type 0} (p : A → Bool) where
  pub select_mem : (xs : List A) {a : A} → Memᴰ a (select p xs) → Memᴰ a xs × (p a ≡ true)
  select_mem [] m = elim m [ ]
  select_mem (x ∷ xs) {a} m = elim (Bool-cases (p x)) [
    | inl e ↦ elim (mem_cases (rw e at m)) [
      | inl same ↦ (Memᴰ.head same, rw same e)
      | inr later ↦ let (n, q) = select_mem xs later in (Memᴰ.tail n, q)
    ]
    | inr e ↦ let (n, q) = select_mem xs (rw e at m) in (Memᴰ.tail n, q)
  ]

  pub mem-select : (xs : List A) {a : A} → Memᴰ a xs → p a ≡ true → Memᴰ a (select p xs)
  mem-select [] m h = elim m [ ]
  mem-select (x ∷ xs) {a} m h = elim (mem_cases m) [
    | inl same ↦ let e : p x ≡ true = sym (ap p same) ∙ h in rw e (Memᴰ.head same)
    | inr later ↦ elim (Bool-cases (p x)) [
      | inl e ↦ rw e (Memᴰ.tail (mem-select xs later h))
      | inr e ↦ rw e (mem-select xs later h)
    ]
  ]

  pub first-ne-none : (xs : List A) {a : A} → Memᴰ a xs → p a ≡ true → first p xs ≢ none
  first-ne-none [] m h = elim m [ ]
  first-ne-none (x ∷ xs) m h = elim (mem_cases m) [
    | inl same ↦ λ k. let e : p x ≡ true = sym (ap p same) ∙ h in ground (arith, e)
    | inr later ↦ elim (Bool-cases (p x)) [
      | inl e ↦ λ k. ground (arith, e)
      | inr e ↦ λ k. first-ne-none xs later h (rw e at k)
    ]
  ]

  pub mem-update :
      (f : A → A) (xs : List A) {a : A} → Memᴰ a xs → Memᴰ (update_row p f a) (update p f xs)
  mem-update f [] m = elim m [ ]
  mem-update f (x ∷ xs) m = elim (mem_cases m) [
    | inl same ↦ Memᴰ.head (ap (update_row p f) same)
    | inr later ↦ Memᴰ.tail (mem-update f xs later)
  ]

  pub mem-exists_row : (xs : List A) {a : A} → Memᴰ a xs → p a ≡ true → exists_row p xs ≡ true
  mem-exists_row [] m h = elim m [ ]
  mem-exists_row (x ∷ xs) m h = elim (mem_cases m) [
    | inl same ↦ let e : p x ≡ true = sym (ap p same) ∙ h in rw e
    | inr later ↦ elim (Bool-cases (p x)) [
      | inl e ↦ rw e
      | inr e ↦ rw e (mem-exists_row xs later h)
    ]
  ]
