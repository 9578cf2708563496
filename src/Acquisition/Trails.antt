-- ===== src/Acquisition/Trails.antt =====
-- A sequence of reviews of one candidate, each in a session of its own.
use tiktok_b2b_bot_mirror.Prelude.{
  append_nil, append_assoc, ℕ, ◌+◌, String, some, List, [], ◌∷◌, ◌++◌, length, ◌≡◌, ap, ◌∙◌, inl,
  inr, Result-cases, committed, arith,
}
use tiktok_b2b_bot_mirror.Acquisition.Candidates.{
  Candidate, Audit, Reviews, Transition, Relabel, get_candidate, transition_candidate,
  update_candidate_labels,
}
use tiktok_b2b_bot_mirror.Acquisition.Audits.{
  Trail, Reviewed, transition-Reviewed, relabel-Reviewed,
}

-- One call, with its arguments; the first number is the time.
pub data ReviewCall : Type 0 where
  transitions : ℕ → Transition → ReviewCall
  relabels : ℕ → Relabel → ReviewCall

module _ (strip : String → String) (job_id user_id : ℕ) where
  unfoldable pub review : ReviewCall → Reviews → Reviews
  unfolding transition_candidate update_candidate_labels
  review (transitions now t) w = committed w (transition_candidate strip now job_id user_id t w)
  review (relabels now r) w = committed w (update_candidate_labels strip now job_id user_id r w)

  unfoldable pub review_all : List ReviewCall → Reviews → Reviews
  unfolding review
  review_all [] w = w
  review_all (c ∷ rest) w = review_all rest (review c w)

  -- The candidate in `w'`, and the audits since `w` that lead to it.
  pub record IsExplained (c : Candidate) (w w' : Reviews) : Type 0 where
    pub candidate : Candidate
    pub found : get_candidate job_id user_id w' ≡ some candidate
    pub since : List Audit
    pub audits : w'.audits ≡ w.audits ++ since
    pub trail : Trail c since candidate
    pub counted : candidate.review_version ≡ c.review_version + length since

  Reviewed-then :
      (c : Candidate) (w w1 w2 : Reviews) (r : Reviewed job_id user_id c w w1)
      → IsExplained r.candidate w1 w2
      → IsExplained c w w2
  Reviewed-then c w w1 w2 r x =
      let next : r.candidate.review_version ≡ c.review_version + 1 = r.explained.next_version in
      let rest : x.candidate.review_version ≡ r.candidate.review_version + length x.since =
        x.counted in
      record {
        candidate = x.candidate;
        found = x.found;
        since = r.audit ∷ x.since;
        audits =
            x.audits
            ∙ ap (λ l. l ++ x.since) r.audits
            ∙ append_assoc w.audits (r.audit ∷ []) x.since;
        trail = Trail.step r.audit c r.candidate x.candidate x.since r.explained x.trail;
        counted = ground arith;
      }

  -- After any sequence of reviews of a candidate, accepted and refused ones, the audits that have
  -- been added lead step by step from the candidate's state before to its state now: its
  -- qualification, labels and priority; and its version counts them.
  pub review_all-IsExplained :
      (calls : List ReviewCall) (c : Candidate) (w : Reviews)
      → get_candidate job_id user_id w ≡ some c
      → IsExplained c w (review_all calls w)
  unfolding review_all review
  review_all-IsExplained [] c w got = record {
    candidate = c;
    found = got;
    since = [];
    audits = append_nil w.audits;
    trail = Trail.start c;
    counted = omega arith;
  }
  review_all-IsExplained (ReviewCall.transitions now t ∷ rest) c w got =
      elim (Result-cases (transition_candidate strip now job_id user_id t w)) [
        | inl ((a, w1), e) ↦
            let r = transition-Reviewed strip now job_id user_id t c w w1 a got e in
            rw (e, review_all, review)
              (Reviewed-then c w w1 _ r (review_all-IsExplained rest r.candidate w1 r.found))
        | inr (error, e) ↦ rw (e, review_all, review) (review_all-IsExplained rest c w got)
      ]
  review_all-IsExplained (ReviewCall.relabels now l ∷ rest) c w got =
      elim (Result-cases (update_candidate_labels strip now job_id user_id l w)) [
        | inl ((a, w1), e) ↦
            let r = relabel-Reviewed strip now job_id user_id l c w w1 a got e in
            rw (e, review_all, review)
              (Reviewed-then c w w1 _ r (review_all-IsExplained rest r.candidate w1 r.found))
        | inr (error, e) ↦ rw (e, review_all, review) (review_all-IsExplained rest c w got)
      ]
