-- ===== src/Processing/Calibration.antt =====
-- processing/calibration.py: a scorecard against the reviews of seniors.
pub mod Laws
use interview_analytics_agen.Common.{
  ℕ, String, Bool, true, false, Option, none, some, List, [], ◌∷◌, ◌++◌, is_empty, if◌then◌else◌,
  strip, length, map,
}
use interview_analytics_agen.Common.Value.{Value, null, Dict, str}
use interview_analytics_agen.Common.Assoc.{lookup, set, keys}
use interview_analytics_agen.Common.Floats.{Floats, of_nat}
use interview_analytics_agen.Processing.Rubric.{values}
use interview_analytics_agen.Common.Sort.{sort}
use interview_analytics_agen.Processing.Scorecard.{Competency, Scorecard}
use interview_analytics_agen.Processing.Decision.{text_before}
use interview_analytics_agen.Processing.Comparison.{text_or_empty}

-- A stored review; absent scores are [].
pub record Review : Type 0 where
  pub reviewer_id : Value
  pub created_at : Value
  pub decision : Value
  pub notes : Value
  pub scores : Dict

pub record ReviewerRow (W : Type 0) : Type 0 where
  pub reviewer_id : String
  pub created_at : Value
  pub decision : Value
  pub notes : Value
  pub matched_competencies : List String
  pub mean_abs_diff : Option W
  pub diff_by_competency : List (String × W)

pub data Drift : Type 0 where
  not_enough_data : Drift
  low : Drift
  medium : Drift
  high : Drift

pub record Calibration (W : Type 0) : Type 0 where
  pub agent_overall_score : Value
  pub review_count : ℕ
  pub global_mean_abs_diff : Option W
  pub drift_level : Drift
  pub reviewers : List (ReviewerRow W)

module _ {W : Type 0} ⦃f : Floats W⦄ where
  abbrev set_read : List (String × W) → String → Option W → List (String × W)
  set_read out cid none = out
  set_read out cid (some x) = set out cid x

  -- `float(score)` where the score is not null.
  abbrev pub read_present : Value → Option W
  read_present null = none
  read_present v = f.read v

  -- `_agent_scores`, the same in calibration.py and rubric_tuning.py, from the scores so far.
  unfoldable pub agent_scores : List (String × W) → List Competency → List (String × W)
  unfolding strip set
  agent_scores out [] = out
  agent_scores out (item ∷ items) =
      let cid = strip (text_or_empty item.competency_id) in
      agent_scores (if is_empty cid then out else set_read out cid (read_present item.score)) items

  -- `_normalize_review_scores`, from the scores so far.
  unfoldable pub normalize_review_scores : List (String × W) → Dict → List (String × W)
  unfolding strip set
  normalize_review_scores out [] = out
  normalize_review_scores out ((key, value) ∷ scores) =
      let cid = strip key in
      normalize_review_scores (if is_empty cid then out else set_read out cid (f.read value)) scores

  abbrev pub with_diff : String → W → Option W → List (String × W) → List (String × W)
  with_diff cid agent_score none rest = rest
  with_diff cid agent_score (some x) rest = (cid, f.abs (f.sub agent_score x)) ∷ rest

  -- The differences of a review, not rounded, for the competencies that both sides scored.
  unfoldable pub diffs_of : List (String × W) → List (String × W) → List (String × W)
  unfolding lookup
  diffs_of scores [] = []
  diffs_of scores ((cid, agent_score) ∷ agent) =
      with_diff cid agent_score (lookup scores cid) (diffs_of scores agent)

  abbrev pub round_all : List (String × W) → List (String × W)
  round_all = map (λ p. (p.0, f.round p.1 2))

  -- `round(sum(values) / len(values), 2) if values else None`
  unfoldable pub mean_of : List W → Option W
  mean_of [] = none
  mean_of (x ∷ xs) = some (f.round (f.div (f.sum (x ∷ xs)) (of_nat (length (x ∷ xs)))) 2)

  abbrev pub row_of_diffs : Review → List (String × W) → ReviewerRow W
  row_of_diffs review diffs = record {
    reviewer_id =
        if is_empty (strip (text_or_empty review.reviewer_id))
        then "unknown"
        else strip (text_or_empty review.reviewer_id);
    created_at = review.created_at;
    decision = review.decision;
    notes = review.notes;
    matched_competencies = sort text_before (keys diffs);
    mean_abs_diff = mean_of (values (round_all diffs));
    diff_by_competency = round_all diffs;
  }

  unfoldable pub row_of_review : List (String × W) → Review → ReviewerRow W
  unfolding normalize_review_scores diffs_of mean_of sort strip keys
  row_of_review agent review =
      row_of_diffs review (diffs_of (normalize_review_scores [] review.scores) agent)

  -- The loop over the reviews: their rows, and all the differences, not rounded.
  unfoldable pub compare_reviews : List (String × W) → List Review → List (ReviewerRow W) × List W
  unfolding row_of_review normalize_review_scores diffs_of
  compare_reviews agent [] = ([], [])
  compare_reviews agent (review ∷ reviews) =
      let (rows, all) = compare_reviews agent reviews in
      (
        row_of_review agent review ∷ rows,
        values (diffs_of (normalize_review_scores [] review.scores) agent) ++ all,
      )

  unfoldable pub drift_of : Option W → Drift
  drift_of none = not_enough_data
  drift_of (some mad) =
      if f.le mad (f.literal 5 1) then low else if f.le mad (f.literal 1 0) then medium else high

  unfoldable pub build_calibration_report : Scorecard → List Review → Calibration W
  unfolding agent_scores compare_reviews mean_of drift_of
  build_calibration_report scorecard reviews =
      let (rows, all) = compare_reviews (agent_scores [] scorecard.competencies) reviews in
      record {
        agent_overall_score = scorecard.overall_score;
        review_count = length rows;
        global_mean_abs_diff = mean_of all;
        drift_level = drift_of (mean_of all);
        reviewers = rows;
      }
