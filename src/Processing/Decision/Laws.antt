-- ===== src/Processing/Decision/Laws.antt =====
-- The verdicts of processing/decision.py and their reasons.
use interview_analytics_agen.Common.{
  ℕ, String, true, false, some, [], ◌∷◌, ◌≡◌, ◌≢◌, refl, sym, ap, ◌∙◌, arith, inl, inr, ◌⊎◌, ◌↔◌,
}
use interview_analytics_agen.Common.Value.{Value, null, string, scalar, sequence}
use interview_analytics_agen.Common.Floats.{Floats, lt}
use interview_analytics_agen.Common.Fallible.{◌>>=◌, bind_some, some_injective}
use interview_analytics_agen.Common.Sort.{sort}
use interview_analytics_agen.Processing.Scorecard.{Report, Scorecard, count_stated}
use interview_analytics_agen.Processing.Decision.{
  Thresholds, Verdict, hire, hold, no_hire, Summary, at_most, reaches, verdict_on, verdict_of,
  summary_of, further_reasons, text_before, build_decision_summary, decide, confidence_of,
}

module _ {W : Type 0} ⦃f : Floats W⦄ (s : Thresholds W) where
  -- What a hire takes.
  abbrev pub IsHireable : W → W → ℕ → ℕ → Type 0
  IsHireable score confidence insufficient_count risk_count =
      (f.le score s.decision_nohire_score_max ≡ false)
      × (f.le s.decision_hire_score_min score ≡ true)
      × (f.le s.decision_min_confidence confidence ≡ true)
      × (at_most insufficient_count s.decision_max_insufficient_for_hire ≡ true)
      × (at_most risk_count s.decision_max_risk_for_hire ≡ true)

  verdict_on_hire :
      (score confidence : W) (n r : ℕ)
      → ((verdict_on s score confidence n r).0 ≡ hire) ↔ IsHireable score confidence n r
  unfolding verdict_on
  verdict_on_hire score confidence n r = ground arith

  verdict_on_no_hire :
      (score confidence : W) (n r : ℕ)
      → ((verdict_on s score confidence n r).0 ≡ no_hire) ↔ (
          (f.le score s.decision_nohire_score_max ≡ true)
          ⊎ (¬ IsHireable score confidence n r
              × (lt score s.decision_hold_score_min ≡ true)
              × (reaches r s.decision_nohire_risk_min ≡ true)))
  unfolding verdict_on
  verdict_on_no_hire score confidence n r = ground arith

  read_scored :
      (confidence : W) (n r : ℕ) (v : Value) (p : Verdict × String)
      → v ≢ null
      → f.read v >>= (λ score. some (verdict_on s score confidence n r)) ≡ some p
      → (v ≢ null)
        × ((score : W) × (f.read v ≡ some score) × (verdict_on s score confidence n r ≡ p))
  read_scored confidence n r v p present h =
      let (score, e, g) =
        bind_some (f.read v) (λ score. some (verdict_on s score confidence n r)) p h in
      (present, (score, e, some_injective g))

  -- Where a verdict came from: a missing score, or a number.
  abbrev IsScored : W → ℕ → ℕ → Value → Verdict × String → Type 0
  IsScored confidence n r v p =
      ((v ≡ null) × (p.0 ≡ hold))
      ⊎ ((v ≢ null)
          × ((score : W) × (f.read v ≡ some score) × (verdict_on s score confidence n r ≡ p)))

  hold-ne-hire : hold ≢ hire
  hold-ne-hire = ground arith

  scored :
      (confidence : W) (n r : ℕ) (v : Value) (p : Verdict × String)
      → verdict_of s v confidence n r ≡ some p
      → IsScored confidence n r v p
  unfolding verdict_of
  scored confidence n r null p h = inl (refl, ground arith)
  scored confidence n r (string t) p h =
      inr (read_scored confidence n r (string t) p (ground arith) h)
  scored confidence n r (scalar t b) p h =
      inr (read_scored confidence n r (scalar t b) p (ground arith) h)
  scored confidence n r (sequence t vs) p h =
      inr (read_scored confidence n r (sequence t vs) p (ground arith) h)

  -- A summary comes of a verdict, on the numbers that its signals show.
  abbrev IsBuilt : Scorecard → Summary W → Type 0
  IsBuilt scorecard d =
      (p : Verdict × String) × (verdict_of s scorecard.overall_score d.signals.overall_confidence
          d.signals.insufficient_evidence_count d.signals.risk_count
        ≡ some p)
      × (d
          ≡ summary_of s scorecard.overall_score d.signals.overall_confidence
              d.signals.insufficient_evidence_count d.signals.risk_count p)

  built :
      (scorecard : Scorecard) (report : Report) (d : Summary W)
      → build_decision_summary s scorecard report ≡ some d
      → IsBuilt scorecard d
  unfolding build_decision_summary decide
  built scorecard report d h =
      let n = count_stated scorecard.insufficient_evidence_competencies in
      let r = count_stated report.risk_flags in
      let (c, e, g) =
        bind_some (confidence_of scorecard.overall_confidence) (decide s scorecard report) d h in
      let (p, e', g') =
        bind_some (verdict_of s scorecard.overall_score c n r)
          (λ v. some (summary_of s scorecard.overall_score c n r v)) d g in
      rw (← some_injective g') (p, e', refl)

  hire_on_signals :
      (scorecard : Scorecard) (report : Report) (d : Summary W)
      → build_decision_summary s scorecard report ≡ some d
      → (d.decision ≡ hire) ↔ (
          (scorecard.overall_score ≢ null)
          × ((score : W) × (f.read scorecard.overall_score ≡ some score)
              × IsHireable score d.signals.overall_confidence d.signals.insufficient_evidence_count
                  d.signals.risk_count))
  hire_on_signals scorecard report d h =
      let (p, e, g) = built scorecard report d h in
      by_score scorecard d p g (
        scored d.signals.overall_confidence d.signals.insufficient_evidence_count
          d.signals.risk_count scorecard.overall_score p e)
    where
      by_score :
          (scorecard : Scorecard) (d : Summary W) (p : Verdict × String)
          → d
            ≡ summary_of s scorecard.overall_score d.signals.overall_confidence
                d.signals.insufficient_evidence_count d.signals.risk_count p
          → IsScored d.signals.overall_confidence d.signals.insufficient_evidence_count
              d.signals.risk_count scorecard.overall_score p
          → (d.decision ≡ hire) ↔ (
              (scorecard.overall_score ≢ null)
              × ((score : W) × (f.read scorecard.overall_score ≡ some score)
                  × IsHireable score d.signals.overall_confidence
                      d.signals.insufficient_evidence_count d.signals.risk_count))
      by_score scorecard d p g (inl (missing, held)) = (
        (λ e. absurd (hold-ne-hire (sym held ∙ sym (ap (λ x. x.decision) g) ∙ e))),
        (λ k. absurd (k.0 missing)),
      )
      by_score scorecard d p g (inr (present, (score, rd, v))) =
          let dv : d.decision ≡ (verdict_on s score _ _ _).0 =
            ap (λ x. x.decision) g ∙ sym (ap (λ x. x.0) v) in
          let same = verdict_on_hire score _ _ _ in
          (
            (λ e. (present, (score, rd, same.0 (sym dv ∙ e)))),
            (λ k. dv ∙ same.1 (rw (some_injective (sym rd ∙ k.1.1)) k.1.2)),
          )

  hire_reason :
      (score confidence : W) (n r : ℕ) (p : Verdict × String)
      → verdict_on s score confidence n r ≡ p
      → p.0 ≡ hire
      → (p.1 ≡ "meets_hire_thresholds") × (further_reasons s confidence n r ≡ [])
  unfolding verdict_on
  hire_reason score confidence n r p e h = ground arith

  -- The numbers of the signals are those of the scorecard and of the report.
  signals_of :
      (scorecard : Scorecard) (report : Report) (d : Summary W)
      → build_decision_summary s scorecard report ≡ some d
      → (confidence_of scorecard.overall_confidence ≡ some d.signals.overall_confidence)
        × (d.signals.insufficient_evidence_count
            ≡ count_stated scorecard.insufficient_evidence_competencies)
        × (d.signals.risk_count ≡ count_stated report.risk_flags)
  unfolding build_decision_summary decide
  signals_of scorecard report d h =
      let n = count_stated scorecard.insufficient_evidence_competencies in
      let r = count_stated report.risk_flags in
      let (c, e, g) =
        bind_some (confidence_of scorecard.overall_confidence) (decide s scorecard report) d h in
      let (p, e', g') =
        bind_some (verdict_of s scorecard.overall_score c n r)
          (λ v. some (summary_of s scorecard.overall_score c n r v)) d g in
      rw (← some_injective g') (e, refl, refl)

  -- Where a decision is made, the confidence of the scorecard is a number or missing, which counts as
  -- 0. The decision is `hire` exactly if the overall score is a number above the no-hire limit that
  -- reaches the hire minimum, that confidence reaches its minimum, and neither the competencies that
  -- the scorecard names without evidence nor the risk flags of the report are more than a hire allows.
  -- Blank names and flags are not counted.
  pub hire_iff :
      (scorecard : Scorecard) (report : Report) (d : Summary W)
      → build_decision_summary s scorecard report ≡ some d
      → (confidence : W) × (confidence_of scorecard.overall_confidence ≡ some confidence)
        × ((d.decision ≡ hire) ↔ (
            (scorecard.overall_score ≢ null)
            × ((score : W) × (f.read scorecard.overall_score ≡ some score)
                × IsHireable score confidence
                    (count_stated scorecard.insufficient_evidence_competencies)
                    (count_stated report.risk_flags))))
  hire_iff scorecard report d h =
      let (e, n, r) = signals_of scorecard report d h in
      (d.signals.overall_confidence, e, rw (← n) (rw (← r) (hire_on_signals scorecard report d h)))

  -- A hire is never given with a reservation: its only reason is that it meets the thresholds.
  pub hire-reasons :
      (scorecard : Scorecard) (report : Report) (d : Summary W)
      → build_decision_summary s scorecard report ≡ some d
      → d.decision ≡ hire
      → d.reasons ≡ "meets_hire_thresholds" ∷ []
  unfolding sort
  hire-reasons scorecard report d h e =
      let (p, v, g) = built scorecard report d h in
      by_score p g (sym (ap (λ x. x.decision) g) ∙ e) (
        scored d.signals.overall_confidence d.signals.insufficient_evidence_count
          d.signals.risk_count scorecard.overall_score p v)
    where
      by_score :
          (p : Verdict × String)
          → d
            ≡ summary_of s scorecard.overall_score d.signals.overall_confidence
                d.signals.insufficient_evidence_count d.signals.risk_count p
          → p.0 ≡ hire
          → IsScored d.signals.overall_confidence d.signals.insufficient_evidence_count
              d.signals.risk_count scorecard.overall_score p
          → d.reasons ≡ "meets_hire_thresholds" ∷ []
      by_score p g e (inl (missing, held)) = absurd (hold-ne-hire (sym held ∙ e))
      by_score p g e (inr (present, (score, rd, v))) =
          let (own, further) = hire_reason score _ _ _ p v e in
          ap (λ x. x.reasons) g
          ∙ ap
              (λ x. sort text_before (
                x
                ∷ further_reasons s d.signals.overall_confidence
                    d.signals.insufficient_evidence_count d.signals.risk_count))
              own
          ∙ ap (λ l. sort text_before ("meets_hire_thresholds" ∷ l)) further
