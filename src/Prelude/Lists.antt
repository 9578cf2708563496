-- ===== src/Prelude/Lists.antt =====
-- Lists with native lengths, membership in a set, and predicates over rows.
use Prim.Native.Nat.{ℕ, suc}
use mathlib.Core.Path.{◌≡◌, refl, sym, ap, subst}
use mathlib.Core.Logic.{◌⊎◌, inl, inr}
use mathlib.Core.Bool.{Bool, true, false, ◌||◌}
use mathlib.Core.List.{List, [], ◌∷◌, ◌++◌, map, Memᴰ}
use tiktok_b2b_bot_mirror.Prelude.Tests.{Comparable, ◌==◌, Bool-cases}

abbrev pub length {ℓ} : {A : Type ℓ} → List A → ℕ
length [] = 0
length (x ∷ xs) = suc (length xs)

-- `a in set`
module _ {A : Type 0} ⦃e : Comparable A⦄ where
  abbrev pub contains : A → List A → Bool
  contains a [] = false
  contains a (x ∷ xs) = a == x || contains a xs

module _ {ℓ κ} {A : Type ℓ} (Q : A → Type κ) where
  -- `Q` holds of each value of a list.
  abbrev pub All : List A → Type κ
  All [] = Unit
  All (y ∷ rest) = Q y × All rest

  pub All-mem : {a : A} (ys : List A) → All ys → Memᴰ a ys → Q a
  All-mem [] held m = elim m [ ]
  All-mem (y ∷ rest) held (Memᴰ.head same) = subst Q (sym same) held.0
  All-mem (y ∷ rest) held (Memᴰ.tail later) = All-mem rest held.1 later

pub mem_map {ℓ κ} :
    {A : Type ℓ} {B : Type κ} (f : A → B) (xs : List A) {y : B}
    → Memᴰ y (map f xs)
    → (x : A) × Memᴰ x xs × (y ≡ f x)
mem_map f [] m = elim m [ ]
mem_map f (x ∷ xs) (Memᴰ.head e) = (x, Memᴰ.head refl, e)
mem_map f (x ∷ xs) (Memᴰ.tail m) = let (z, old, e) = mem_map f xs m in (z, Memᴰ.tail old, e)

pub mem-append {ℓ} :
    {A : Type ℓ} (xs ys : List A) {a : A} → Memᴰ a (xs ++ ys) → Memᴰ a xs ⊎ Memᴰ a ys
mem-append [] ys m = inr m
mem-append (x ∷ xs) ys (Memᴰ.head e) = inl (Memᴰ.head e)
mem-append (x ∷ xs) ys (Memᴰ.tail m) = elim (mem-append xs ys m) [
  | inl p ↦ inl (Memᴰ.tail p)
  | inr q ↦ inr q
]

pub contains_mem :
    {A : Type 0} ⦃e : Comparable A⦄ (a : A) (xs : List A) → contains a xs ≡ true → Memᴰ a xs
contains_mem a [] h = cc
contains_mem ⦃e⦄ a (x ∷ xs) h = elim (Bool-cases (a == x)) [
  | inl p ↦ Memᴰ.head ((e.equals_iff a x).0 p)
  | inr q ↦ Memᴰ.tail (contains_mem a xs (rw q at h))
]

pub mem_append_left {ℓ} : {A : Type ℓ} (xs ys : List A) {a : A} → Memᴰ a xs → Memᴰ a (xs ++ ys)
mem_append_left [] ys m = elim m [ ]
mem_append_left (x ∷ xs) ys (Memᴰ.head e) = Memᴰ.head e
mem_append_left (x ∷ xs) ys (Memᴰ.tail m) = Memᴰ.tail (mem_append_left xs ys m)

pub mem_append_right {ℓ} : {A : Type ℓ} (xs ys : List A) {a : A} → Memᴰ a ys → Memᴰ a (xs ++ ys)
mem_append_right [] ys m = m
mem_append_right (x ∷ xs) ys m = Memᴰ.tail (mem_append_right xs ys m)

pub mem-map {ℓ κ} :
    {A : Type ℓ} {B : Type κ} (f : A → B) {x : A} {xs : List A} → Memᴰ x xs → Memᴰ (f x) (map f xs)
mem-map f (Memᴰ.head e) = Memᴰ.head (ap f e)
mem-map f (Memᴰ.tail m) = Memᴰ.tail (mem-map f m)

pub append_nil {ℓ} : {A : Type ℓ} (xs : List A) → xs ≡ xs ++ []
append_nil [] = refl
append_nil (x ∷ xs) = ap (λ l. x ∷ l) (append_nil xs)

pub append_assoc {ℓ} : {A : Type ℓ} (xs ys zs : List A) → (xs ++ ys) ++ zs ≡ xs ++ (ys ++ zs)
append_assoc [] ys zs = refl
append_assoc (x ∷ xs) ys zs = ap (λ l. x ∷ l) (append_assoc xs ys zs)
