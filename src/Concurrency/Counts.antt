-- ===== src/Concurrency/Counts.antt =====
-- How often an account, and how many accounts of a platform, stand in a list of accounts.
use tiktok_b2b_bot_mirror.Prelude.{
  ℕ, ◌+◌, ◌≤◌, ◌≡◌, refl, ap, String, ◌==◌, nat_eq, string_eq, eq_iff, Bool, true, false, List, [],
  ◌∷◌, inl, inr, Bool-cases, arith,
}
use tiktok_b2b_bot_mirror.Concurrency.Manager.{Account, is_same, has_account, remove_account}

abbrev pub int : Bool → ℕ
int true = 1
int false = 0

abbrev pub times : Account → List Account → ℕ
times a [] = 0
times a (b ∷ rest) = int (is_same b a) + times a rest

abbrev pub on_platform : String → List Account → ℕ
on_platform p [] = 0
on_platform p (b ∷ rest) = int (b.platform == p) + on_platform p rest

pub same_account : (a b : Account) → is_same a b ≡ true → a ≡ b
unfolding is_same
same_account a b h =
    let names : a.platform ≡ b.platform = ground (arith, eq_iff a.platform b.platform) in
    let ids : a.id ≡ b.id = ground arith in cc

pub is_same_refl : (a : Account) → is_same a a ≡ true
unfolding is_same
is_same_refl a = ground (arith, eq_iff a.platform a.platform)

-- Removing an account that is there takes away one of it, and nothing else.
pub times-remove :
    (a k : Account) (xs : List Account)
    → has_account k xs ≡ true
    → times a xs ≡ int (is_same k a) + times a (remove_account k xs)
unfolding has_account remove_account
times-remove a k [] h = cc
times-remove a k (b ∷ rest) h = elim (Bool-cases (is_same b k)) [
  | inl e ↦ let same : b ≡ k = same_account b k e in rw same (rw (is_same_refl k) refl)
  | inr e ↦
      let later : has_account k rest ≡ true = ground (arith, e) in
      let rest_counts = times-remove a k rest later in rw e (omega arith)
]

pub on_platform-remove :
    (p : String) (k : Account) (xs : List Account)
    → has_account k xs ≡ true
    → on_platform p xs ≡ int (k.platform == p) + on_platform p (remove_account k xs)
unfolding has_account remove_account
on_platform-remove p k [] h = cc
on_platform-remove p k (b ∷ rest) h = elim (Bool-cases (is_same b k)) [
  | inl e ↦ let same : b ≡ k = same_account b k e in rw same (rw (is_same_refl k) refl)
  | inr e ↦
      let later : has_account k rest ≡ true = ground (arith, e) in
      let rest_counts = on_platform-remove p k rest later in rw e (omega arith)
]

-- An account that is not in the list occurs no time in it.
pub times-absent : (a : Account) (xs : List Account) → has_account a xs ≡ false → times a xs ≡ 0
unfolding has_account
times-absent a [] h = refl
times-absent a (b ∷ rest) h =
    let here : is_same b a ≡ false = ground arith in
    let later : has_account a rest ≡ false = ground (arith, here) in
    let none_later : times a rest ≡ 0 = times-absent a rest later in rw here (omega arith)

remove-absent :
    (k : Account) (xs : List Account) → has_account k xs ≡ false → remove_account k xs ≡ xs
unfolding has_account remove_account
remove-absent k [] h = refl
remove-absent k (b ∷ rest) h =
    let here : is_same b k ≡ false = ground arith in
    let later : has_account k rest ≡ false = ground (arith, here) in
    rw here (ap (λ ys. b ∷ ys) (remove-absent k rest later))

pub times-absent_iff : (a : Account) (xs : List Account) → times a xs ≡ 0 → has_account a xs ≡ false
unfolding has_account
times-absent_iff a [] h = refl
times-absent_iff a (b ∷ rest) h = elim (Bool-cases (is_same b a)) [
  | inl e ↦ absurd (ground (arith, e))
  | inr e ↦ let later : times a rest ≡ 0 = ground (arith, e) in rw e (times-absent_iff a rest later)
]

-- Removing takes no account that is another, and adds none.
pub remove-times_le :
    (a k : Account) (xs : List Account) → times a (remove_account k xs) ≤ times a xs
remove-times_le a k xs = elim (Bool-cases (has_account k xs)) [
  | inl there ↦ let fewer = times-remove a k xs there in omega arith
  | inr away ↦ rw (remove-absent k xs away) (omega arith)
]

-- The only one there is taken away.
pub times-remove_only :
    (a : Account) (xs : List Account) → times a xs ≤ 1 → times a (remove_account a xs) ≡ 0
times-remove_only a xs h = elim (Bool-cases (has_account a xs)) [
  | inl there ↦
      let removed : times a xs ≡ 1 + times a (remove_account a xs) =
        rw (is_same_refl a) at (times-remove a a xs there) in
      omega arith
  | inr away ↦ rw (remove-absent a xs away) (times-absent a xs away)
]
