-- ===== src/Processing/Decision.antt =====
-- processing/decision.py: hire, hold or no_hire, from a scorecard and a report. What raises where a
-- value is no number comes back as `none`. `thresholds`, which repeats the settings, and the constant
-- `audience` are left out.
pub mod Laws
pub mod Numbers
use interview_analytics_agen.Common.{
  ℕ, String, Bool, true, false, ◌&&◌, Option, none, some, List, [], ◌∷◌, ◌++◌, leb, ltb,
  if◌then◌else◌, not,
}
use Prim.Native.Nat.{Ordering}
use interview_analytics_agen.Common.Int.{ℤ, pos, negsuc}
use interview_analytics_agen.Common.Value.{Value, null, truthy}
use interview_analytics_agen.Common.Floats.{Floats, lt, nought}
use interview_analytics_agen.Common.Fallible.{◌>>=◌}
use interview_analytics_agen.Common.Sort.{sort}
use interview_analytics_agen.Processing.Scorecard.{Report, Scorecard, count_stated}

-- common/config.py: the settings of the decision.
pub record Thresholds (W : Type 0) : Type 0 where
  pub decision_hire_score_min : W
  pub decision_hold_score_min : W
  pub decision_nohire_score_max : W
  pub decision_min_confidence : W
  pub decision_max_insufficient_for_hire : ℤ
  pub decision_max_risk_for_hire : ℤ
  pub decision_nohire_risk_min : ℤ

pub data Verdict : Type 0 where
  hire : Verdict
  hold : Verdict
  no_hire : Verdict

pub record Signals (W : Type 0) : Type 0 where
  pub overall_score : Value
  pub overall_confidence : W
  pub risk_count : ℕ
  pub insufficient_evidence_count : ℕ

pub record Summary (W : Type 0) : Type 0 where
  pub decision : Verdict
  pub signals : Signals W
  pub reasons : List String
  pub next_actions : List String

-- `n <= limit` and `n >= limit` for a setting that may be negative.
abbrev pub at_most : ℕ → ℤ → Bool
at_most n (pos m) = leb n m
at_most n (negsuc m) = false

abbrev pub reaches : ℕ → ℤ → Bool
reaches n (pos m) = leb m n
reaches n (negsuc m) = true

-- `a < b` for texts.
abbrev pub text_before : String → String → Bool
text_before a b = elim (Prim.Native.String.compare a b) [ Ordering.lt ↦ true | _ ↦ false ]

abbrev pub actions : Verdict → List String
actions hire =
    "Run final senior debrief and compensation alignment."
    ∷ "Verify references and role-specific fit." ∷ []
actions hold =
    "Schedule focused follow-up interview on weak competencies."
    ∷ "Request at least one additional senior review." ∷ []
actions no_hire =
    "Close process or consider lower-level role."
    ∷ "Document objective reasons and evidence excerpts." ∷ []

abbrev pub reason_if : Bool → String → List String
reason_if true reason = reason ∷ []
reason_if false reason = []

-- `float(value or 0.0)`
abbrev pub confidence_of : {W : Type 0} ⦃f : Floats W⦄ → Value → Option W
confidence_of ⦃f⦄ v = if truthy v then f.read v else some nought

module _ {W : Type 0} ⦃f : Floats W⦄ (s : Thresholds W) where
  -- The verdict and its reason on a score.
  unfoldable pub verdict_on : W → W → ℕ → ℕ → Verdict × String
  verdict_on score confidence insufficient_count risk_count =
      if f.le score s.decision_nohire_score_max
      then (no_hire, "score_below_nohire_threshold")
      else if f.le s.decision_hire_score_min score
          && f.le s.decision_min_confidence confidence
          && at_most insufficient_count s.decision_max_insufficient_for_hire
          && at_most risk_count s.decision_max_risk_for_hire
      then (hire, "meets_hire_thresholds")
      else if lt score s.decision_hold_score_min
      then (
        if reaches risk_count s.decision_nohire_risk_min then no_hire else hold,
        "score_below_hold_threshold",
      )
      else (hold, "needs_human_review")

  unfoldable pub verdict_of : Value → W → ℕ → ℕ → Option (Verdict × String)
  unfolding verdict_on
  verdict_of null confidence insufficient_count risk_count = some (hold, "overall_score_missing")
  verdict_of overall confidence insufficient_count risk_count = do
    score ← f.read overall
    some (verdict_on score confidence insufficient_count risk_count)

  -- The reasons that are given beside the verdict's own.
  abbrev pub further_reasons : W → ℕ → ℕ → List String
  further_reasons confidence insufficient_count risk_count =
      reason_if (lt confidence s.decision_min_confidence) "confidence_low"
      ++ (reason_if (not (at_most insufficient_count s.decision_max_insufficient_for_hire))
            "insufficient_evidence"
          ++ reason_if (not (at_most risk_count s.decision_max_risk_for_hire)) "risk_flags_high")

  abbrev pub summary_of : Value → W → ℕ → ℕ → Verdict × String → Summary W
  summary_of overall confidence insufficient_count risk_count (verdict, reason) = record {
    decision = verdict;
    signals = record {
      overall_score = overall;
      overall_confidence = confidence;
      risk_count = risk_count;
      insufficient_evidence_count = insufficient_count;
    };
    reasons = sort text_before (reason ∷ further_reasons confidence insufficient_count risk_count);
    next_actions = actions verdict;
  }

  -- What follows on the confidence. The reasons are pairwise different, so their set has them all.
  unfoldable pub decide : Scorecard → Report → W → Option (Summary W)
  unfolding verdict_of count_stated sort
  decide scorecard report confidence = do
    let insufficient_count = count_stated scorecard.insufficient_evidence_competencies
    let risk_count = count_stated report.risk_flags
    verdict ← verdict_of scorecard.overall_score confidence insufficient_count risk_count
    some (summary_of scorecard.overall_score confidence insufficient_count risk_count verdict)

  unfoldable pub build_decision_summary : Scorecard → Report → Option (Summary W)
  unfolding decide
  build_decision_summary scorecard report = do
    confidence ← confidence_of scorecard.overall_confidence
    decide scorecard report confidence
