-- ===== src/Prelude/Sort.antt =====
-- `sorted(...)` and `ORDER BY`: a stable sort.
use mathlib.Core.Path.{◌≡◌}
use mathlib.Core.Logic.{◌⊎◌, inl, inr}
use mathlib.Core.Bool.{Bool}
use mathlib.Core.List.{List, [], ◌∷◌, Memᴰ}
use tiktok_b2b_bot_mirror.Prelude.Tests.{if◌then◌else◌, Bool-cases}
use tiktok_b2b_bot_mirror.Prelude.Table.{mem_cases}

-- `before x y` says that `x` need not come after `y`.
module _ {A : Type 0} (before : A → A → Bool) where
  unfoldable pub insert_by : A → List A → List A
  insert_by x [] = x ∷ []
  insert_by x (y ∷ rest) = if before x y then x ∷ y ∷ rest else y ∷ insert_by x rest

  unfoldable pub sort_by : List A → List A
  unfolding insert_by
  sort_by [] = []
  sort_by (x ∷ rest) = insert_by x (sort_by rest)

  mem-insert_by : (x : A) (ys : List A) {a : A} → (a ≡ x) ⊎ Memᴰ a ys → Memᴰ a (insert_by x ys)
  unfolding insert_by
  mem-insert_by x [] (inl e) = Memᴰ.head e
  mem-insert_by x [] (inr m) = elim m [ ]
  mem-insert_by x (y ∷ rest) (inl same) = elim (Bool-cases (before x y)) [
    | inl e ↦ rw e (Memᴰ.head same)
    | inr e ↦ rw e (Memᴰ.tail (mem-insert_by x rest (inl same)))
  ]
  mem-insert_by x (y ∷ rest) (inr m) = elim (Bool-cases (before x y)) [
    | inl e ↦ rw e (Memᴰ.tail m)
    | inr e ↦ rw e (elim (mem_cases m) [
      | inl same ↦ Memᴰ.head same
      | inr later ↦ Memᴰ.tail (mem-insert_by x rest (inr later))
    ])
  ]

  insert_by_mem : (x : A) (ys : List A) {a : A} → Memᴰ a (insert_by x ys) → (a ≡ x) ⊎ Memᴰ a ys
  unfolding insert_by
  insert_by_mem x [] m = mem_cases m
  insert_by_mem x (y ∷ rest) {a} m = elim (Bool-cases (before x y)) [
    | inl e ↦ mem_cases (rw e at m)
    | inr e ↦ elim (mem_cases (rw e at m)) [
      | inl same ↦ inr (Memᴰ.head same)
      | inr later ↦ elim (insert_by_mem x rest later) [
        | inl same ↦ inl same
        | inr n ↦ inr (Memᴰ.tail n)
      ]
    ]
  ]

  -- Sorting keeps what is in the list.
  pub mem-sort_by : (xs : List A) {a : A} → Memᴰ a xs → Memᴰ a (sort_by xs)
  unfolding sort_by
  mem-sort_by [] m = elim m [ ]
  mem-sort_by (x ∷ rest) m = elim (mem_cases m) [
    | inl same ↦ mem-insert_by x (sort_by rest) (inl same)
    | inr later ↦ mem-insert_by x (sort_by rest) (inr (mem-sort_by rest later))
  ]

  pub sort_by_mem : (xs : List A) {a : A} → Memᴰ a (sort_by xs) → Memᴰ a xs
  unfolding sort_by
  sort_by_mem [] m = elim m [ ]
  sort_by_mem (x ∷ rest) m = elim (insert_by_mem x (sort_by rest) m) [
    | inl same ↦ Memᴰ.head same
    | inr later ↦ Memᴰ.tail (sort_by_mem rest later)
  ]
