-- ===== src/Processing/Calibration/Laws.antt =====
-- The differences of processing/calibration.py and the level of drift.
use interview_analytics_agen.Common.{
  String, ◌&&◌, List, [], ◌∷◌, ◌++◌, All, contains, ◌≡◌, ◌↔◌, refl, ap, ◌∙◌, arith, inl, inr,
  Option-cases, eq_iff,
}
use interview_analytics_agen.Common.Assoc.{lookup, keys, keys-map, contains-lookup}
use interview_analytics_agen.Common.Floats.{Floats}
use interview_analytics_agen.Processing.Rubric.{values}
use interview_analytics_agen.Processing.Scorecard.{Scorecard}
use interview_analytics_agen.Processing.Calibration.{
  Review, not_enough_data, agent_scores, normalize_review_scores, diffs_of, round_all, mean_of,
  row_of_review, compare_reviews, drift_of, build_calibration_report,
}

module _ {W : Type 0} ⦃f : Floats W⦄ where
  keys-diffs_of :
      (scores agent : List (String × W)) (cid : String)
      → contains (keys (diffs_of scores agent)) cid
        ≡ (contains (keys agent) cid && contains (keys scores) cid)
  unfolding diffs_of keys contains
  keys-diffs_of scores [] cid = refl
  keys-diffs_of scores ((k, x) ∷ agent) cid = elim (Option-cases (lookup scores k)) [
    | inl e ↦ rw e (
        ground (
          arith,
          keys-diffs_of scores agent cid,
          eq_iff k cid,
          e,
          contains-lookup scores k,
          contains-lookup scores cid,
        ))
    | inr (y, e) ↦ rw e (
        ground (
          arith,
          keys-diffs_of scores agent cid,
          eq_iff k cid,
          e,
          contains-lookup scores k,
          contains-lookup scores cid,
        ))
  ]

  drift_of_mean : (all : List W) → (drift_of (mean_of all) ≡ not_enough_data) ↔ (all ≡ [])
  unfolding drift_of mean_of
  drift_of_mean [] = (λ _. refl, λ _. refl)
  drift_of_mean (x ∷ xs) = ground arith

  compared_nothing :
      (agent : List (String × W)) (reviews : List Review)
      → ((compare_reviews agent reviews).1 ≡ [])
        ↔ All (λ r. r.diff_by_competency ≡ []) (compare_reviews agent reviews).0
  unfolding compare_reviews row_of_review
  compared_nothing agent [] = (λ _. tt, λ _. refl)
  compared_nothing agent (review ∷ reviews) =
      split (diffs_of (normalize_review_scores [] review.scores) agent)
        (compared_nothing agent reviews)
    where
      split :
          (diffs : List (String × W))
          → ((compare_reviews agent reviews).1 ≡ [])
            ↔ All (λ r. r.diff_by_competency ≡ []) (compare_reviews agent reviews).0
          → ((values diffs ++ (compare_reviews agent reviews).1) ≡ []) ↔ (
              (round_all diffs ≡ [])
              × All (λ r. r.diff_by_competency ≡ []) (compare_reviews agent reviews).0)
      split [] ih = ((λ h. (refl, ih.0 h)), (λ h. ih.1 h.1))
      split (d ∷ ds) ih = (λ h. absurd (ground arith), λ h. absurd (ground arith))

  -- A reviewer's row has a difference for exactly the competencies that both the scorecard and the
  -- review give a number.
  pub row_of_review-keys :
      (agent : List (String × W)) (review : Review) (cid : String)
      → contains (keys (row_of_review agent review).diff_by_competency) cid ≡ (
          contains (keys agent) cid
          && contains (keys {A = W} (normalize_review_scores [] review.scores)) cid)
  unfolding row_of_review
  row_of_review-keys agent review cid =
      let scores = normalize_review_scores [] review.scores in
      ap (λ l. contains l cid) (keys-map (λ k x. f.round x 2) (diffs_of scores agent))
      ∙ keys-diffs_of scores agent cid

-- The drift is `not_enough_data` exactly if no review shares a scored competency with the scorecard.
pub drift-not_enough_data :
    (W : Type 0) ⦃f : Floats W⦄ (scorecard : Scorecard) (reviews : List Review)
    → (let c = build_calibration_report {W = W} scorecard reviews in
        (c.drift_level ≡ not_enough_data) ↔ All (λ r. r.diff_by_competency ≡ []) c.reviewers)
unfolding build_calibration_report
drift-not_enough_data W scorecard reviews =
    let agent = agent_scores {W = W} [] scorecard.competencies in
    let none_of_mean = drift_of_mean (compare_reviews agent reviews).1 in
    let nothing = compared_nothing agent reviews in
    ((λ h. nothing.0 (none_of_mean.0 h)), (λ h. none_of_mean.1 (nothing.1 h)))
