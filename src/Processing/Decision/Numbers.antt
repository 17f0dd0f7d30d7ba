-- ===== src/Processing/Decision/Numbers.antt =====
-- When processing/decision.py reads numbers and does not raise.
use interview_analytics_agen.Common.{
  ℕ, String, some, ◌≡◌, ◌≢◌, refl, ap, ◌∙◌, arith, Bool-cases, inl, inr, ◌⊎◌,
}
use interview_analytics_agen.Common.Value.{Value, null, string, scalar, sequence, truthy}
use interview_analytics_agen.Common.Floats.{Floats, IsOrdered, nought}
use interview_analytics_agen.Processing.Scorecard.{Report, Scorecard, count_stated}
use interview_analytics_agen.Processing.Decision.{
  Thresholds, Verdict, hold, Summary, verdict_on, verdict_of, summary_of, build_decision_summary,
  decide, confidence_of,
}

-- A document's value that is null or was written from a number.
abbrev pub IsNumeric : (W : Type 0) ⦃f : Floats W⦄ → Value → Type 0
IsNumeric W ⦃f⦄ v = (v ≡ null) ⊎ ((x : W) × (v ≡ f.write x))

module _ {W : Type 0} ⦃f : Floats W⦄ (o : IsOrdered W) (s : Thresholds W) where
  read_confidence : (v : Value) → IsNumeric W v → (c : W) × (confidence_of v ≡ some c)
  read_confidence v (inl e) = (nought, rw e refl)
  read_confidence v (inr (x, e)) = elim (Bool-cases (truthy v)) [
    | inl t ↦ (x, rw t (ap f.read e ∙ o.read_write x))
    | inr t ↦ (nought, rw t refl)
  ]

  read_number : (v : Value) → v ≢ null → IsNumeric W v → (x : W) × (f.read v ≡ some x)
  read_number v present (inl e) = absurd (present e)
  read_number v present (inr (x, e)) = (x, ap f.read e ∙ o.read_write x)

  read_verdict :
      (v : Value) (c : W) (n r : ℕ)
      → IsNumeric W v
      → (p : Verdict × String) × (verdict_of s v c n r ≡ some p)
  unfolding verdict_of
  read_verdict null c n r h = ((hold, "overall_score_missing"), refl)
  read_verdict (string t) c n r h =
      let (x, e) = read_number (string t) (ground arith) h in (verdict_on s x c n r, rw e refl)
  read_verdict (scalar t b) c n r h =
      let (x, e) = read_number (scalar t b) (ground arith) h in (verdict_on s x c n r, rw e refl)
  read_verdict (sequence t vs) c n r h =
      let (x, e) = read_number (sequence t vs) (ground arith) h in (verdict_on s x c n r, rw e refl)

  -- A scorecard whose overall score and confidence are numbers, or null, always gives a decision.
  pub decides :
      (scorecard : Scorecard) (report : Report)
      → IsNumeric W scorecard.overall_score
      → IsNumeric W scorecard.overall_confidence
      → (d : Summary W) × (build_decision_summary s scorecard report ≡ some d)
  unfolding build_decision_summary decide
  decides scorecard report score confidence =
      let (c, e) = read_confidence scorecard.overall_confidence confidence in
      let n = count_stated scorecard.insufficient_evidence_competencies in
      let r = count_stated report.risk_flags in
      let (p, e') = read_verdict scorecard.overall_score c n r score in
      (summary_of s scorecard.overall_score c n r p, rw e (rw e' refl))
