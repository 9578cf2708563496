-- ===== src/Decision/Options.antt =====
-- Which options a decision may offer.
use tiktok_b2b_bot_mirror.Prelude.{
  String, string_eq, true, false, not, ◌&&◌, Option, List, [], ◌∷◌, Memᴰ, mem_cases, contains,
  contains_mem, ◌≡◌, sym, ap, subst, inl, inr, ok, raise_if-not, ok-injective, arith,
}
use tiktok_b2b_bot_mirror.JobStore.Create.{is_empty, has_duplicates}
use tiktok_b2b_bot_mirror.Decision.Definitions.{
  CheckpointDefinition, or_else, is_subset, option_subset,
}

is_subset_mem :
    (xs all : List String) {x : String} → is_subset xs all ≡ true → Memᴰ x xs → Memᴰ x all
unfolding is_subset
is_subset_mem [] all h m = elim m [ ]
is_subset_mem (y ∷ ys) all h m = elim (mem_cases m) [
  | inl same ↦
      let here : contains y all ≡ true = ground arith in
      subst (λ z. Memᴰ z all) (sym same) (contains_mem y all here)
  | inr later ↦ let rest : is_subset ys all ≡ true = ground arith in is_subset_mem ys all rest later
]

-- The options of a decision, and the one that the deadline takes.
pub record IsChoice (definition : CheckpointDefinition) (options : List String) (default : String)
    : Type 0 where
  pub some_options : is_empty options ≡ false
  pub distinct : has_duplicates options ≡ false
  pub registered : (x : String) → Memᴰ x options → Memᴰ x definition.option_keys
  pub offered : Memᴰ default options

chosen_registered :
    (definition : CheckpointDefinition) (options : List String) (default : String)
    → (not (is_empty options)
        && not (has_duplicates options)
        && is_subset options definition.option_keys)
      ≡ true
    → contains default options ≡ true
    → IsChoice definition options default
chosen_registered definition options default h k =
    let listed : is_subset options definition.option_keys ≡ true = ground arith in
    record {
      some_options = ground arith;
      distinct = ground arith;
      registered = λ x m. is_subset_mem options definition.option_keys listed m;
      offered = contains_mem default options k;
    }

-- When `_option_subset` accepts, it returns what was asked for, or what the definition has where
-- nothing was asked for: distinct options, at least one, all registered for the kind, and a default
-- that is one of them.
pub option_subset-IsChoice :
    (definition : CheckpointDefinition) (asked : Option (List String)) (wanted : Option String)
    (options : List String) (default : String)
    → option_subset definition asked wanted ≡ ok (options, default)
    → IsChoice definition options default
      × (options ≡ or_else asked definition.option_keys)
      × (default ≡ or_else wanted definition.default_option_key)
unfolding option_subset
option_subset-IsChoice definition asked wanted options default h =
    let (fit, h1) = raise_if-not _ _ _ (options, default) h in
    let (offered, h2) = raise_if-not _ _ _ (options, default) h1 in
    let made = ok-injective h2 in
    let same : or_else asked definition.option_keys ≡ options = ap (λ p. p.0) made in
    let same_default : or_else wanted definition.default_option_key ≡ default =
      ap (λ p. p.1) made in
    let choice = chosen_registered definition _ _ fit offered in
    (
      subst (IsChoice definition options) same_default (
          subst (λ o. IsChoice definition o (or_else wanted definition.default_option_key)) same
            choice),
      sym same,
      sym same_default,
    )
