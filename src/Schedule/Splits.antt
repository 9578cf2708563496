-- ===== src/Schedule/Splits.antt =====
-- What `partition` finds: the text as it is, or what stands before and behind the first separator.
use tiktok_b2b_bot_mirror.Prelude.{
  ℕ, ◌≡◌, ◌≢◌, refl, ap, nat_eq, nat_beq_iff, ◌==◌, true, false, Bool-cases, Option, none, some, [],
  ◌∷◌, ◌++◌, All, inl, inr,
}
use tiktok_b2b_bot_mirror.Schedule.Text.{Text, has_code, partition}

-- The text has no separator.
abbrev pub IsFree : ℕ → Text → Type 0
IsFree sep = All (λ c. c ≢ sep)

pub data IsSplit (sep : ℕ) (text : Text) : Text → Option Text → Type 0 where
  whole : IsFree sep text → IsSplit sep text text none
  cut :
      (before behind : Text)
      → IsFree sep before
      → text ≡ before ++ sep ∷ behind
      → IsSplit sep text before (some behind)

differs : (c sep : ℕ) → (c == sep) ≡ false → c ≢ sep
differs c sep e same = cc (e, (nat_beq_iff c sep).1 same)

apart : (c sep : ℕ) → c ≢ sep → (c == sep) ≡ false
apart c sep n = elim (Bool-cases (c == sep)) [
  | inl e ↦ absurd (n ((nat_beq_iff c sep).0 e))
  | inr e ↦ e
]

IsSplit-cons :
    (sep c : ℕ) (s before : Text) (behind : Option Text)
    → c ≢ sep
    → IsSplit sep s before behind
    → IsSplit sep (c ∷ s) (c ∷ before) behind
IsSplit-cons sep c s _ _ n (IsSplit.whole free) = IsSplit.whole (n, free)
IsSplit-cons sep c s _ _ n (IsSplit.cut before behind free e) =
    IsSplit.cut (c ∷ before) behind (n, free) (ap (λ text. c ∷ text) e)

pub partition-IsSplit : (sep : ℕ) (s : Text) → IsSplit sep s (partition sep s).0 (partition sep s).1
unfolding partition
partition-IsSplit sep [] = IsSplit.whole tt
partition-IsSplit sep (c ∷ s) = elim (Bool-cases (c == sep)) [
  | inl e ↦ rw e (IsSplit.cut [] s tt (ap (λ x. x ∷ s) ((nat_beq_iff c sep).0 e)))
  | inr e ↦ rw e (IsSplit-cons sep c s _ _ (differs c sep e) (partition-IsSplit sep s))
]

partition_free : (sep : ℕ) (s : Text) → IsFree sep s → partition sep s ≡ (s, none)
unfolding partition
partition_free sep [] free = refl
partition_free sep (c ∷ s) free =
    rw (apart c sep free.0) (ap (λ p. (c ∷ p.0, p.1)) (partition_free sep s free.1))

partition_cut :
    (sep : ℕ) (before behind : Text)
    → IsFree sep before
    → partition sep (before ++ sep ∷ behind) ≡ (before, some behind)
unfolding partition
partition_cut sep [] behind free = rw ((nat_beq_iff sep sep).1 refl) refl
partition_cut sep (c ∷ s) behind free =
    rw (apart c sep free.0) (ap (λ p. (c ∷ p.0, p.1)) (partition_cut sep s behind free.1))

-- There is one way only to split.
pub IsSplit-partition :
    (sep : ℕ) (s before : Text) (behind : Option Text)
    → IsSplit sep s before behind
    → partition sep s ≡ (before, behind)
IsSplit-partition sep s _ _ (IsSplit.whole free) = partition_free sep s free
IsSplit-partition sep s _ _ (IsSplit.cut before behind free e) =
    rw e (partition_cut sep before behind free)

pub IsFree-has_code : (sep : ℕ) (s : Text) → IsFree sep s → has_code sep s ≡ false
IsFree-has_code sep [] free = refl
IsFree-has_code sep (c ∷ s) free = rw (apart c sep free.0) (IsFree-has_code sep s free.1)

pub cut-has_code : (sep : ℕ) (before behind : Text) → has_code sep (before ++ sep ∷ behind) ≡ true
cut-has_code sep [] behind = rw ((nat_beq_iff sep sep).1 refl) refl
cut-has_code sep (c ∷ s) behind = elim (Bool-cases (c == sep)) [
  | inl e ↦ rw e refl
  | inr e ↦ rw e (cut-has_code sep s behind)
]
