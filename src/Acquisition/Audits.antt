-- ===== src/Acquisition/Audits.antt =====
-- The audit of a candidate's reviews tells how the candidate came to be what it is.
use tiktok_b2b_bot_mirror.Prelude.{
  ℕ, ◌+◌, String, ◌==◌, nat_eq, string_eq, Bool, true, false, Bool-cases, some, List, [], ◌∷◌, ◌++◌,
  first, first_mem, update, ◌≡◌, refl, sym, ap, ◌∙◌, subst, inl, inr, ok, or_raise-ok, raise_if-ok,
  raise_if-not, bind-ok, ok-injective, arith, same_value,
}
use tiktok_b2b_bot_mirror.States.Review.{JobUserStatus}
use tiktok_b2b_bot_mirror.Acquisition.Candidates.{
  Candidate, Audit, Reviews, Transition, Relabel, is_candidate, get_candidate, is_unreviewed,
  is_version, reviewed, relabelled, transition_candidate, update_candidate_labels,
}

-- The audit says what has changed from `c` to `d`.
pub record Explains (a : Audit) (c d : Candidate) : Type 0 where
  pub owned : a.job_id ≡ c.job_id
  pub before_status : a.before_status ≡ c.qualification_status
  pub after_status : a.after_status ≡ d.qualification_status
  pub before_labels : a.labels_before ≡ c.labels_json
  pub after_labels : a.labels_after ≡ d.labels_json
  pub before_priority : a.priority_before ≡ c.priority
  pub after_priority : a.priority_after ≡ d.priority
  pub next_version : d.review_version ≡ c.review_version + 1

-- The audits lead from one state of the candidate to another.
pub data Trail : Candidate → List Audit → Candidate → Type 0 where
  start : (c : Candidate) → Trail c [] c
  step :
      (a : Audit) (c d e : Candidate) (rest : List Audit)
      → Explains a c d
      → Trail d rest e
      → Trail c (a ∷ rest) e

first-update :
    {A : Type 0} (p q : A → Bool) (f : A → A) (xs : List A) {c : A}
    → ((x : A) → q x ≡ true → p x ≡ true)
    → ((x : A) → p x ≡ true → p (f x) ≡ true)
    → first p xs ≡ some c
    → q c ≡ true
    → first p (update q f xs) ≡ some (f c)
first-update p q f [] narrow keeps h k = cc
first-update p q f (x ∷ xs) {c} narrow keeps h k = elim (Bool-cases (p x)) [
  | inl e ↦
      let same : x ≡ c = same_value (rw e at h) in
      let hit : q x ≡ true = rw same k in rw hit (rw (keeps x e) (ap (λ y. some (f y)) same))
  | inr e ↦ elim (Bool-cases (q x)) [
    | inl hit ↦ absurd (clash (narrow x hit) e)
    | inr miss ↦ rw miss (rw e (first-update p q f xs narrow keeps (rw e at h) k))
  ]
]
  where
    clash : {b : Bool} → b ≡ true → b ≡ false → ⊥
    clash s t = cc

-- One review: the candidate's next state, and the audit that explains it.
pub record Reviewed (job_id user_id : ℕ) (c : Candidate) (w w' : Reviews) : Type 0 where
  pub audit : Audit
  pub candidate : Candidate
  pub found : get_candidate job_id user_id w' ≡ some candidate
  pub audits : w'.audits ≡ w.audits ++ audit ∷ []
  pub explained : Explains audit c candidate

unreviewed_self :
    (job_id user_id : ℕ) (c : Candidate)
    → is_candidate job_id user_id c ≡ true
    → is_unreviewed job_id user_id c.qualification_status c.review_version c ≡ true
unfolding is_unreviewed
unreviewed_self job_id user_id c h =
    let status : (c.qualification_status == c.qualification_status) ≡ true =
      (string_eq.equals_iff c.qualification_status c.qualification_status).1 refl in
    let version : (c.review_version == c.review_version) ≡ true =
      (nat_eq.equals_iff c.review_version c.review_version).1 refl in
    rw (h, status, version) refl

unreviewed_candidate :
    (job_id user_id version : ℕ) (status : String) (c : Candidate)
    → is_unreviewed job_id user_id status version c ≡ true
    → is_candidate job_id user_id c ≡ true
unfolding is_unreviewed
unreviewed_candidate job_id user_id version status c h = ground arith

version_self :
    (job_id user_id : ℕ) (c : Candidate)
    → is_candidate job_id user_id c ≡ true
    → is_version job_id user_id c.review_version c ≡ true
unfolding is_version
version_self job_id user_id c h =
    let version : (c.review_version == c.review_version) ≡ true =
      (nat_eq.equals_iff c.review_version c.review_version).1 refl in
    rw (h, version) refl

version_candidate :
    (job_id user_id version : ℕ) (c : Candidate)
    → is_version job_id user_id version c ≡ true
    → is_candidate job_id user_id c ≡ true
unfolding is_version
version_candidate job_id user_id version c h = ground arith

candidate_job :
    (job_id user_id : ℕ) (c : Candidate) → is_candidate job_id user_id c ≡ true → job_id ≡ c.job_id
unfolding is_candidate
candidate_job job_id user_id c h = ground arith

module _ (strip : String → String) where
  reviewed_candidate :
      (job_id user_id now version : ℕ) (status : JobUserStatus) (t : Transition) (c : Candidate)
      → is_candidate job_id user_id c ≡ true
      → is_candidate job_id user_id (reviewed strip now status version t c) ≡ true
  unfolding reviewed is_candidate
  reviewed_candidate job_id user_id now version status t c h = h

  relabelled_candidate :
      (job_id user_id now version : ℕ) (r : Relabel) (c : Candidate)
      → is_candidate job_id user_id c ≡ true
      → is_candidate job_id user_id (relabelled strip now version r c) ≡ true
  unfolding relabelled is_candidate
  relabelled_candidate job_id user_id now version r c h = h

  pub transition-Reviewed :
      (now job_id user_id : ℕ) (t : Transition) (c : Candidate) (w w' : Reviews) (a : Audit)
      → get_candidate job_id user_id w ≡ some c
      → transition_candidate strip now job_id user_id t w ≡ ok (a, w')
      → Reviewed job_id user_id c w w'
  unfolding transition_candidate get_candidate reviewed
  transition-Reviewed now job_id user_id t c w w' a got h =
      let (d, found, h1) = bind-ok _ _ (a, w') h in
      let same : d ≡ c = same_value (sym (or_raise-ok _ _ d found) ∙ got) in
      let (_, h2) = raise_if-not _ _ _ (a, w') h1 in
      let (_, _, h3) = bind-ok _ _ (a, w') h2 in
      let (_, _, h4) = bind-ok _ _ (a, w') h3 in
      let (_, h5) = raise_if-ok _ _ _ (a, w') h4 in
      let (_, h6) = raise_if-ok _ _ _ (a, w') h5 in
      let (_, h7) = raise_if-not _ _ _ (a, w') h6 in
      let (status, _, h8) = bind-ok _ _ (a, w') h7 in
      let (_, h9) = raise_if-not _ _ _ (a, w') h8 in
      let made = ok-injective h9 in
      let there =
        (first_mem (is_candidate job_id user_id) w.candidates (or_raise-ok _ _ d found)).1 in
      let e : Candidate = reviewed strip now status d.review_version t d in
      let moved =
        first-update (is_candidate job_id user_id)
          (is_unreviewed job_id user_id d.qualification_status d.review_version)
          (reviewed strip now status d.review_version t) w.candidates
          (unreviewed_candidate job_id user_id d.review_version d.qualification_status)
          (reviewed_candidate job_id user_id now d.review_version status t)
          (or_raise-ok _ _ d found) (unreviewed_self job_id user_id d there) in
      let explained : Explains a d e =
        subst (λ x. Explains x d e) (ap (λ p. p.0) made)
          (record {
            owned = candidate_job job_id user_id d there;
            before_status = refl;
            after_status = refl;
            before_labels = refl;
            after_labels = refl;
            before_priority = refl;
            after_priority = refl;
            next_version = refl;
          }) in
      record {
        audit = a;
        candidate = e;
        found = ap (λ p. first (is_candidate job_id user_id) p.1.candidates) (sym made) ∙ moved;
        audits =
            ap (λ p. p.1.audits) (sym made) ∙ ap (λ x. w.audits ++ x ∷ []) (ap (λ p. p.0) made);
        explained = subst (λ x. Explains a x e) same explained;
      }

  pub relabel-Reviewed :
      (now job_id user_id : ℕ) (r : Relabel) (c : Candidate) (w w' : Reviews) (a : Audit)
      → get_candidate job_id user_id w ≡ some c
      → update_candidate_labels strip now job_id user_id r w ≡ ok (a, w')
      → Reviewed job_id user_id c w w'
  unfolding update_candidate_labels get_candidate relabelled
  relabel-Reviewed now job_id user_id r c w w' a got h =
      let (d, found, h1) = bind-ok _ _ (a, w') h in
      let same : d ≡ c = same_value (sym (or_raise-ok _ _ d found) ∙ got) in
      let (_, h2) = raise_if-ok _ _ _ (a, w') h1 in
      let (_, h3) = raise_if-not _ _ _ (a, w') h2 in
      let (_, h4) = raise_if-not _ _ _ (a, w') h3 in
      let made = ok-injective h4 in
      let there =
        (first_mem (is_candidate job_id user_id) w.candidates (or_raise-ok _ _ d found)).1 in
      let e : Candidate = relabelled strip now d.review_version r d in
      let moved =
        first-update (is_candidate job_id user_id) (is_version job_id user_id d.review_version)
          (relabelled strip now d.review_version r) w.candidates
          (version_candidate job_id user_id d.review_version)
          (relabelled_candidate job_id user_id now d.review_version r) (or_raise-ok _ _ d found)
          (version_self job_id user_id d there) in
      let explained : Explains a d e =
        subst (λ x. Explains x d e) (ap (λ p. p.0) made)
          (record {
            owned = candidate_job job_id user_id d there;
            before_status = refl;
            after_status = refl;
            before_labels = refl;
            after_labels = refl;
            before_priority = refl;
            after_priority = refl;
            next_version = refl;
          }) in
      record {
        audit = a;
        candidate = e;
        found = ap (λ p. first (is_candidate job_id user_id) p.1.candidates) (sym made) ∙ moved;
        audits =
            ap (λ p. p.1.audits) (sym made) ∙ ap (λ x. w.audits ++ x ∷ []) (ap (λ p. p.0) made);
        explained = subst (λ x. Explains a x e) same explained;
      }
