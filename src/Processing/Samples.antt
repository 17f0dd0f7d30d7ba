-- ===== src/Processing/Samples.antt =====
-- Data for the tests: a mask, settings of the decision, a report and scorecards.
use interview_analytics_agen.Common.{String, true, ◌&&◌, some, [], ◌∷◌, if◌then◌else◌, ◌==◌}
use interview_analytics_agen.Common.Int.{pos}
use interview_analytics_agen.Common.Value.{null, string, scalar}
use interview_analytics_agen.Processing.Millionths.{Millionths, millionths_floats}
use interview_analytics_agen.Processing.Transcript.{Regex, email_pattern}
use interview_analytics_agen.Processing.Scorecard.{Report, Competency, Scorecard}
use interview_analytics_agen.Processing.Decision.{Thresholds}

-- A mask for one address.
abbrev pub one_address : Regex
one_address = record {
  sub = λ pattern replacement text.
      if pattern == email_pattern && text == "a@b.io." then replacement else text;
}

abbrev pub no_flags : Report
no_flags = record { summary = null; bullets = null; risk_flags = []; recommendation = null }

abbrev pub thresholds : Thresholds Millionths
thresholds = record {
  decision_hire_score_min = some 4000000;
  decision_hold_score_min = some 3200000;
  decision_nohire_score_max = some 2800000;
  decision_min_confidence = some 450000;
  decision_max_insufficient_for_hire = pos 2;
  decision_max_risk_for_hire = pos 1;
  decision_nohire_risk_min = pos 3;
}

abbrev pub scored_at : String → Scorecard
scored_at score = record {
  rubric_id = "interview_core_v1";
  candidate_label = string "A";
  position_label = string "Dev";
  overall_score = scalar score true;
  overall_confidence = scalar "600000" true;
  insufficient_evidence_competencies = string "role_fit" ∷ [];
  competencies = judged_competency ∷ [];
  weights_source = "default";
}
  where
    judged_competency : Competency
    judged_competency = record {
      competency_id = string "ownership";
      title = "Ownership";
      weight = scalar "1000000" true;
      status = "ok";
      score = scalar score true;
      confidence = scalar "600000" true;
      evidence = [];
      keyword_hits = 1;
    }
