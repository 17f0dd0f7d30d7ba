-- ===== src/Processing/Checks.antt =====
-- Tests of the processing on small interviews, and instances of its theorems.
use interview_analytics_agen.Common.{
  String, true, false, none, some, List, [], ◌∷◌, map, take, All, ◌≡◌, ◌≢◌, ◌↔◌, refl, number,
}
use interview_analytics_agen.Common.Value.{null, string, scalar}
use interview_analytics_agen.Common.Assoc.{keys}
use interview_analytics_agen.Processing.Millionths.{
  Millionths, millionths_floats, Millionths-IsOrdered,
}
use interview_analytics_agen.Processing.Samples.{one_address, no_flags, scored_at, thresholds}
use interview_analytics_agen.Processing.Transcript.{
  enhance_text, mask_pii, mask_step, punct_step, space_step, filler_step,
}
use interview_analytics_agen.Processing.Transcript.Laws.{enhance_text-masked}
use interview_analytics_agen.Processing.Evidence.{
  Row, segment_rows, collect_evidence, norm_keywords, splitlines, rows_of_segments, rows_of_lines,
  occurs,
}
use interview_analytics_agen.Processing.Evidence.Laws.{all_evidence, all_hits, collect_evidence-all}
use interview_analytics_agen.Processing.Rubric.{Overrides, base_rubric, effective_weights}
use interview_analytics_agen.Processing.Rubric.Laws.{keys-effective_weights}
use interview_analytics_agen.Processing.Scorecard.{
  Scorecard, count_stated, competency_score, build_interview_scorecard,
}
use interview_analytics_agen.Processing.Scorecard.Laws.{IsJudged, scorecard-IsJudged}
use interview_analytics_agen.Processing.Decision.{
  confidence_of, Summary, hire, actions, build_decision_summary,
}
use interview_analytics_agen.Processing.Decision.Laws.{IsHireable, hire_iff}

splitlines_test : splitlines "a\r\nb\n\nc\n" ≡ "a" ∷ "b" ∷ "" ∷ "c" ∷ []
unfolding splitlines
splitlines_test = refl

enhance_test : enhance_text one_address true "a@b.io" ≡ ("[EMAIL]", "final_punct" ∷ "pii_mask" ∷ [])
unfolding enhance_text mask_pii mask_step punct_step space_step filler_step
enhance_test = refl

enhance_text-masked_example :
    (enhance_text one_address true "so  it is").0
    ≡ mask_pii one_address (enhance_text one_address false "so  it is").0
enhance_text-masked_example = enhance_text-masked one_address "so  it is"

abbrev talk : String
talk = "I would scale the service\n\nWe used a cache. Why? A queue.\nbye"

abbrev talk_rows : List Row
talk_rows = segment_rows talk []

evidence_found :
    (collect_evidence one_address talk_rows ("scale" ∷ "queue" ∷ "service" ∷ []) 1).1 ≡ 3
unfolding collect_evidence segment_rows rows_of_segments rows_of_lines splitlines occurs
evidence_found = refl

collect_evidence-all_example :
    collect_evidence one_address talk_rows ("scale" ∷ " Queue " ∷ []) 1 ≡ (
      take 1 (all_evidence one_address (norm_keywords ("scale" ∷ " Queue " ∷ [])) talk_rows),
      all_hits (norm_keywords ("scale" ∷ " Queue " ∷ [])) talk_rows,
    )
collect_evidence-all_example =
    collect_evidence-all one_address talk_rows ("scale" ∷ " Queue " ∷ []) 1

-- An override of one competency, of an unknown one, and of a text that is no number.
abbrev overrides : Overrides
overrides = record {
  global =
      ("ownership", scalar "300000" true)
      ∷ ("charm", scalar "1" true)
      ∷ ("role_fit", string "much")
      ∷ [];
  by_position = [];
  others = [];
}

keys-effective_weights_example :
    keys {A = Millionths} (effective_weights [] (some overrides))
    ≡ map (λ item. item.id) (base_rubric {W = Millionths})
keys-effective_weights_example = keys-effective_weights Millionths [] (some overrides)

abbrev card : Scorecard
card = build_interview_scorecard Millionths one_address none talk [] no_flags [] "interview_core_v1"

scorecard-IsJudged_example : All (IsJudged Millionths-IsOrdered) card.competencies
scorecard-IsJudged_example =
    scorecard-IsJudged Millionths-IsOrdered one_address none talk [] no_flags [] "interview_core_v1"

scored : competency_score {W = Millionths} 1 2 (some 0) ≡ (some (some 2810000), some 510000, "ok")
unfolding competency_score
scored = refl

abbrev hired : Summary Millionths
hired = record {
  decision = hire;
  signals = record {
    overall_score = scalar "4100000" true;
    overall_confidence = some 600000;
    risk_count = 0;
    insufficient_evidence_count = 1;
  };
  reasons = "meets_hire_thresholds" ∷ [];
  next_actions = actions hire;
}

hired_test : build_decision_summary thresholds (scored_at "4100000") no_flags ≡ some hired
unfolding build_decision_summary number count_stated
hired_test = refl

hire_iff_example :
    (confidence : Millionths) × (confidence_of (scored_at "4100000").overall_confidence
      ≡ some confidence)
    × ((hired.decision ≡ hire) ↔ (
        ((scored_at "4100000").overall_score ≢ null)
        × ((score : Millionths) × (millionths_floats.read (scored_at "4100000").overall_score
              ≡ some score)
            × IsHireable thresholds score confidence
                (count_stated (scored_at "4100000").insufficient_evidence_competencies)
                (count_stated no_flags.risk_flags))))
hire_iff_example = hire_iff thresholds (scored_at "4100000") no_flags hired hired_test
