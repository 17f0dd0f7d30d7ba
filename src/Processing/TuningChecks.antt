-- ===== src/Processing/TuningChecks.antt =====
-- Tests of the comparison, the tuning and the report, and instances of their theorems.
use mathlib.Core.List.{Perm}
use interview_analytics_agen.Common.{
  String, true, ◌&&◌, not, Option, none, some, List, [], ◌∷◌, is_empty, strip, ◌==◌, if◌then◌else◌,
  ◌≡◌, ◌⊎◌, ◌↔◌, refl, number,
}
use interview_analytics_agen.Common.Int.{pos}
use interview_analytics_agen.Common.Value.{null, string, scalar}
use interview_analytics_agen.Common.Assoc.{keys, lookup}
use interview_analytics_agen.Processing.Millionths.{
  Millionths, millionths_floats, Millionths-IsOrdered,
}
use interview_analytics_agen.Processing.Rubric.{missing, broken, position_of, selected_of}
use interview_analytics_agen.Processing.Scorecard.{count_stated}
use interview_analytics_agen.Processing.Decision.{reaches}
use interview_analytics_agen.Processing.Report.{Answer, not_iterable, build_report}
use interview_analytics_agen.Processing.Report.Laws.{build_report-none}
use interview_analytics_agen.Processing.Comparison.{
  Entry, Row, Comparison, rows_of, ranking_of, build_comparison_report, text_or_empty,
}
use interview_analytics_agen.Processing.Comparison.Laws.{IsRanked, ranked}
use interview_analytics_agen.Processing.Calibration.{Review, agent_scores}
use interview_analytics_agen.Processing.Tuning.{
  TuningSettings, Tuned, current_of, base_weights_of, document, updated_of, maybe_update_weights,
  mean_abs_diff_by_competency,
}
use interview_analytics_agen.Processing.Tuning.Laws.{update_frame}
use interview_analytics_agen.Processing.Tuning.Loaded.{selected_of-saved}
use interview_analytics_agen.Processing.Samples.{one_address, no_flags, scored_at, thresholds}

abbrev entry : String → String → Entry
entry id score = record { meeting_id = string id; scorecard = scored_at score; report = no_flags }

abbrev row : String → Millionths → Row Millionths
row id score = record {
  meeting_id = id;
  candidate_label = string "A";
  position_label = string "Dev";
  overall_score = some score;
  overall_confidence = some 600000;
  risk_count = 0;
  insufficient_evidence_competencies = string "role_fit" ∷ [];
}

abbrev entries : List Entry
entries = entry "m1" "3000000" ∷ entry "m2" "4000000" ∷ []

abbrev rows : List (Row Millionths)
rows = row "m1" (some 3000000) ∷ row "m2" (some 4000000) ∷ []

ranked_example :
    (c : Comparison Millionths) × (build_comparison_report entries ≡ some c)
    × Perm c.rows rows
    × IsRanked Millionths-IsOrdered c.rows
    × (c.ranking ≡ ranking_of c.rows)
unfolding rows_of number count_stated
ranked_example = ranked Millionths-IsOrdered entries rows refl ((refl, refl), ((refl, refl), tt))

ranking : ranking_of {W = Millionths} rows ≡ "m1" ∷ "m2" ∷ []
unfolding ranking_of
ranking = refl

abbrev tuning : TuningSettings Millionths
tuning = record {
  scorecard_auto_tuning_enabled = true;
  scorecard_tuning_min_reviews = pos 1;
  scorecard_tuning_learning_rate = some 100000;
}

abbrev reviews : List Review
reviews =
    record {
      reviewer_id = string "senior";
      created_at = null;
      decision = null;
      notes = null;
      scores = ("ownership", scalar "3500000" true) ∷ [];
    }
    ∷ []

abbrev saved_at_noon : Tuned Millionths
saved_at_noon =
    updated_of tuning (scored_at "3000000") reviews none "noon"
      (base_weights_of (scored_at "3000000").competencies)
      (mean_abs_diff_by_competency (agent_scores [] (scored_at "3000000").competencies) reviews)

saved_at_noon_test :
    maybe_update_weights tuning (scored_at "3000000") reviews none "noon" ≡ some saved_at_noon
unfolding maybe_update_weights base_weights_of agent_scores mean_abs_diff_by_competency lookup
    number
saved_at_noon_test = refl

update_frame_example :
    (true ≡ true)
    × (reaches 1 (pos 1) ≡ true)
    × (keys saved_at_noon.overrides.global
        ≡ keys (base_weights_of {W = Millionths} (scored_at "3000000").competencies))
    × (let position = strip (text_or_empty (scored_at "3000000").position_label) in
        lookup saved_at_noon.overrides.by_position "Dev" ≡ (
          if not (is_empty position) && position == "Dev"
          then some saved_at_noon.overrides.global
          else lookup (current_of none).by_position "Dev"))
update_frame_example =
    update_frame tuning (scored_at "3000000") reviews none "noon" saved_at_noon "Dev"
      saved_at_noon_test

selected_of-saved_example :
    document (selected_of {W = Millionths} [] saved_at_noon.overrides)
    ≡ saved_at_noon.overrides.global
unfolding position_of
selected_of-saved_example =
    selected_of-saved Millionths-IsOrdered tuning (scored_at "3000000") reviews none "noon"
      saved_at_noon [] saved_at_noon_test refl

-- The model answers `{"risk_flags": true}`.
abbrev flagged : Answer
flagged = record {
  summary = null;
  bullets = null;
  risk_flags = not_iterable;
  recommendation = null;
}

build_report-none_example :
    (build_report Millionths one_address missing thresholds
        (λ p context transcript. some flagged)
        true
        "key"
        "talk"
        []
        []
      ≡ none)
    ↔ ((Path (Option Answer) (some flagged) none)
        ⊎ (((a : Answer) × (some flagged ≡ some a) × (a.risk_flags ≡ not_iterable))
            ⊎ (missing ≡ broken)))
build_report-none_example =
    build_report-none Millionths-IsOrdered one_address missing thresholds
      (λ p context transcript. some flagged) "key" "talk" [] []
