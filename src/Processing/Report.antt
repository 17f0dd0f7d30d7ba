-- ===== src/Processing/Report.antt =====
-- processing/analytics.py: the report of an interview. What the language model answers is a
-- parameter, `none` where it raises or is no dictionary; so is a report whose making raises.
pub mod Laws
use interview_analytics_agen.Common.{
  String, Bool, true, false, not, Option, none, some, List, [], ◌∷◌, if◌then◌else◌, is_empty, strip,
  format,
}
use interview_analytics_agen.Common.Value.{
  Value, null, string, sequence, nil, cons, Dict, truthy, str,
}
use interview_analytics_agen.Common.Fallible.{◌>>=◌}
use interview_analytics_agen.Common.Floats.{Floats}
use interview_analytics_agen.Processing.Transcript.{Regex}
use interview_analytics_agen.Processing.Evidence.{Segment}
use interview_analytics_agen.Processing.Rubric.{Overrides, Loaded, overrides_of}
use interview_analytics_agen.Processing.Scorecard.{Report, Scorecard, build_interview_scorecard}
use interview_analytics_agen.Processing.Decision.{
  Thresholds, Verdict, hire, hold, no_hire, Summary, build_decision_summary,
}

-- `risk_flags` of an answer: missing or falsy; what can be iterated, a list, a text or a dictionary,
-- by its items; or a truthy value that cannot, a number or `true`.
pub data Flags : Type 0 where
  absent not_iterable : Flags
  items : List Value → Flags

-- The fields of the model's answer that the code reads; an absent one is null.
pub record Answer : Type 0 where
  pub summary : Value
  pub bullets : Value
  pub risk_flags : Flags
  pub recommendation : Value

-- The report of an answer: `none` where the first loop over its flags, that of `_risk_penalty`, raises
-- TypeError.
abbrev report_with : Answer → List Value → Report
report_with a flags = record {
  summary = a.summary;
  bullets = if truthy a.bullets then a.bullets else sequence "[]" nil;
  risk_flags = flags;
  recommendation = a.recommendation;
}

abbrev report_on : Answer → Flags → Option Report
report_on a absent = some (report_with a [])
report_on a (items flags) = some (report_with a flags)
report_on a not_iterable = none

unfoldable pub report_of : Answer → Option Report
report_of a = report_on a a.risk_flags

pub record JudgedReport (W : Type 0) : Type 0 where
  pub base : Report
  pub scorecard : Scorecard
  pub decision : Summary W
  pub recommendation : Value

pub data Provider : Type 0 where
  mock : Provider
  openai_compat : Provider

-- `_build_orchestrator`, on `llm_enabled` and `openai_api_key`.
abbrev pub build_orchestrator : Bool → String → Option Provider
build_orchestrator false key = none
build_orchestrator true key = some (if is_empty key then mock else openai_compat)

-- The two fallbacks.
abbrev pub fallback : String → String → Report
fallback summary bullet = record {
  summary = string summary;
  bullets =
      sequence (format ("['Pipeline OK', '" ∷ bullet ∷ "']" ∷ []))
        (cons (string "Pipeline OK") (cons (string bullet) nil));
  risk_flags = [];
  recommendation = string "";
}

-- The recommendation that is put where the report has none.
abbrev pub recommendation_for : Verdict → String
recommendation_for hire = "Proceed with hire discussion"
recommendation_for hold = "Run targeted follow-up interview"
recommendation_for no_hire = "Do not proceed for this role"

-- `str(out.get("recommendation") or "").strip()`
unfoldable pub stated : Value → String
unfolding strip
stated v = if truthy v then strip (str v) else ""

module _ (W : Type 0) ⦃f : Floats W⦄ (re : Regex) (overrides : Loaded) (s : Thresholds W)
    (complete : Provider → Dict → String → Option Answer) where
  abbrev judged : Report → Scorecard → Summary W → JudgedReport W
  judged base scorecard d = record {
    base = base;
    scorecard = scorecard;
    decision = d;
    recommendation =
        if is_empty (stated base.recommendation)
        then string (recommendation_for d.decision)
        else base.recommendation;
  }

  unfoldable judge :
      Option Overrides → Report → String → Dict → List Segment → Option (JudgedReport W)
  unfolding build_interview_scorecard build_decision_summary stated
  judge document base transcript context segments = do
    let scorecard =
        build_interview_scorecard W re document transcript context base segments "interview_core_v1"
    decision ← build_decision_summary s scorecard base
    some (judged base scorecard decision)

  -- `_with_scorecard`; the scorecard is of the default rubric.
  unfoldable pub with_scorecard : Report → String → Dict → List Segment → Option (JudgedReport W)
  unfolding judge
  with_scorecard base transcript context segments = do
    document ← overrides_of overrides
    judge document base transcript context segments

  unfoldable pub base_report : Option Provider → Dict → String → Option Report
  unfolding report_of
  base_report none context transcript =
      some (fallback "LLM unavailable; basic report" "LLM unavailable")
  base_report (some provider) context transcript = do
    answer ← complete provider context transcript
    report_of answer

  unfoldable pub build_report :
      Bool → String → String → Dict → List Segment → Option (JudgedReport W)
  unfolding with_scorecard base_report
  build_report false key transcript context segments =
      with_scorecard (fallback "LLM disabled; basic report" "LLM enrichment disabled") transcript
        context segments
  build_report true key transcript context segments = do
    base ← base_report (build_orchestrator true key) context transcript
    with_scorecard base transcript context segments
