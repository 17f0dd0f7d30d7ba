-- ===== src/Processing/Report/Laws.antt =====
-- When processing/analytics.py makes a report, and its recommendation.
use interview_analytics_agen.Common.{
  String, true, false, Option, none, some, List, [], ◌⊎◌, if◌then◌else◌, is_empty, ◌≡◌, ◌↔◌, refl,
  sym, ap, ◌∙◌, arith, Bool-cases, Option-cases, inl, inr,
}
use interview_analytics_agen.Common.Value.{Value, null, string, Dict}
use interview_analytics_agen.Common.Fallible.{some_injective}
use interview_analytics_agen.Common.Floats.{Floats, IsOrdered, lt, nought}
use interview_analytics_agen.Processing.Transcript.{Regex}
use interview_analytics_agen.Processing.Evidence.{Segment}
use interview_analytics_agen.Processing.Rubric.{
  Overrides, Loaded, missing, broken, loaded, overrides_of,
}
use interview_analytics_agen.Processing.Scorecard.{Report, build_interview_scorecard, mean_or}
use interview_analytics_agen.Processing.Decision.{Thresholds}
use interview_analytics_agen.Processing.Decision.Numbers.{IsNumeric, decides}
use interview_analytics_agen.Processing.Report.{
  JudgedReport, Answer, Flags, absent, items, not_iterable, report_with, report_on, report_of,
  judge, Provider, mock, openai_compat, fallback, recommendation_for, stated, judged,
  with_scorecard, base_report, build_report,
}

loaded_cases :
    (l : Loaded)
    → (l ≡ broken)
      ⊎ ((document : Option Overrides) × (l ≡ broken → ⊥) × (overrides_of l ≡ some document))
loaded_cases missing = inr (none, λ h. ground arith, refl)
loaded_cases (loaded d) = inr (some d, λ h. ground arith, refl)
loaded_cases broken = inl refl

answer_cases_on :
    (a : Answer) (flags : Flags)
    → ((flags ≡ not_iterable) × (report_on a flags ≡ none))
      ⊎ ((base : Report) × (flags ≡ not_iterable → ⊥) × (report_on a flags ≡ some base))
answer_cases_on a absent = inr (report_with a [], λ h. ground arith, refl)
answer_cases_on a (items flags) = inr (report_with a flags, λ h. ground arith, refl)
answer_cases_on a not_iterable = inl (refl, refl)

answer_cases :
    (a : Answer)
    → ((a.risk_flags ≡ not_iterable) × (report_of a ≡ none))
      ⊎ ((base : Report) × (a.risk_flags ≡ not_iterable → ⊥) × (report_of a ≡ some base))
unfolding report_of
answer_cases a = answer_cases_on a a.risk_flags

module _ {W : Type 0} ⦃f : Floats W⦄ (o : IsOrdered W) (re : Regex) (overrides : Loaded)
    (s : Thresholds W) (complete : Provider → Dict → String → Option Answer) where
  mean_or-IsNumeric :
      (default : Value) (total count : W)
      → IsNumeric W default
      → IsNumeric W (mean_or default total count)
  mean_or-IsNumeric default total count h = elim (Bool-cases (lt nought count)) [
    | inl e ↦ inr (f.round (f.div total count) 2, rw e refl)
    | inr e ↦ rw e h
  ]

  judged_by :
      (document : Option Overrides) (base : Report) (transcript : String) (context : Dict)
      (segments : List Segment)
      → overrides_of overrides ≡ some document
      → (r : JudgedReport W) × (with_scorecard W re overrides s complete base transcript context
            segments
          ≡ some r)
        × (r.recommendation ≡ (
            if is_empty (stated base.recommendation)
            then string (recommendation_for r.decision.decision)
            else base.recommendation))
  unfolding with_scorecard judge build_interview_scorecard
  judged_by document base transcript context segments u =
      let card =
        build_interview_scorecard W re document transcript context base segments
          "interview_core_v1" in
      let (d, e) =
        decides o s card base (mean_or-IsNumeric null _ _ (inl refl))
          (mean_or-IsNumeric (f.write nought) _ _ (inr (nought, refl))) in
      (judged W re overrides s complete base card d, rw u (rw e refl), refl)

  -- With the language model switched off a report is made where the document of weights is sound,
  -- and recommends what its own decision calls for.
  pub build_report-disabled :
      (document : Option Overrides) (key transcript : String) (context : Dict)
      (segments : List Segment)
      → overrides_of overrides ≡ some document
      → (r : JudgedReport W) × (build_report W re overrides s complete false key transcript context
            segments
          ≡ some r)
        × (r.recommendation ≡ string (recommendation_for r.decision.decision))
  unfolding build_report stated
  build_report-disabled document key transcript context segments =
      judged_by document (fallback "LLM disabled; basic report" "LLM enrichment disabled")
        transcript context segments

  -- With the model switched on no report is made exactly if the model gave none, the mock provider
  -- where no key is set and the service otherwise; or its answer's risk flags are a truthy value that
  -- cannot be iterated; or `global` of the document of weights is truthy and no dictionary. Nothing
  -- else raises.
  pub build_report-none :
      (key transcript : String) (context : Dict) (segments : List Segment)
      → let answer = complete (if is_empty key then mock else openai_compat) context transcript in
        (build_report W re overrides s complete true key transcript context segments ≡ none) ↔ (
          (answer ≡ none)
          ⊎ (((a : Answer) × (answer ≡ some a) × (a.risk_flags ≡ not_iterable))
              ⊎ (overrides ≡ broken)))
  unfolding build_report base_report with_scorecard
  build_report-none key transcript context segments =
      let answer = complete (if is_empty key then mock else openai_compat) context transcript in
      elim (Option-cases answer) [
        | inl e ↦ (λ _. inl e, λ _. rw e refl)
        | inr (a, e) ↦ elim (answer_cases a) [
          | inl (bad, r) ↦ (λ _. inr (inl (a, e, bad)), λ _. rw e (rw r refl))
          | inr (base, flags, r) ↦ elim (loaded_cases overrides) [
            | inl b ↦ (λ _. inr (inr b), λ _. rw e (rw r (rw b refl)))
            | inr (document, sound, u) ↦
                let (report, made, _) = judged_by document base transcript context segments u in
                (
                  (λ h. absurd (some-ne-none {a = report} (sym made ∙ (rw r at (rw e at h))))),
                  λ c. absurd (unmade a e flags sound c),
                )
          ]
        ]
      ]
    where
      some-ne-none : {A : Type 0} {a : A} → Path (Option A) (some a) none → ⊥
      some-ne-none h = ground arith

      unmade :
          {answer : Option Answer} (a : Answer)
          → answer ≡ some a
          → (a.risk_flags ≡ not_iterable → ⊥)
          → (overrides ≡ broken → ⊥)
          → ((answer ≡ none)
              ⊎ (((a : Answer) × (answer ≡ some a) × (a.risk_flags ≡ not_iterable))
                  ⊎ (overrides ≡ broken)))
          → ⊥
      unmade a e flags sound (inl h) = some-ne-none (sym e ∙ h)
      unmade a e flags sound (inr (inl (a', e', bad))) =
          flags (ap (λ x. x.risk_flags) (some_injective (sym e ∙ e')) ∙ bad)
      unmade a e flags sound (inr (inr b)) = sound b
