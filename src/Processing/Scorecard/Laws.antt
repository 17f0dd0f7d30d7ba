-- ===== src/Processing/Scorecard/Laws.antt =====
-- The scores of processing/scorecard.py: each competency of a scorecard, and their range.
use interview_analytics_agen.Common.{
  ℕ, zero, suc, ◌*◌, ◌≤◌, String, true, Option, List, [], ◌∷◌, length, All, ◌≡◌, refl, sym, ap, ◌∙◌,
  arith, inl, inr, ◌⊎◌, ◌↔◌,
}
use interview_analytics_agen.Common.Value.{null, Dict}
use interview_analytics_agen.Common.Floats.{Floats, IsOrdered, clamp-le, le-clamp, minimum, maximum}
use interview_analytics_agen.Processing.Transcript.{Regex}
use interview_analytics_agen.Processing.Evidence.{Segment, Row, Evidence, collect_evidence}
use interview_analytics_agen.Processing.Evidence.Laws.{
  length-collect_evidence, collect_evidence_iff,
}
use interview_analytics_agen.Processing.Rubric.{Item, Overrides, base_rubric, effective_weights}
use interview_analytics_agen.Processing.Scorecard.{
  Report, Competency, Sums, scale_min, scale_max, raw_score, competency_score,
  build_interview_scorecard, competency_of, score_items, evidence_for, score_for, number_or_null,
  no_sums,
}

module _ {W : Type 0} ⦃f : Floats W⦄ (o : IsOrdered W) where
  -- A literal with more digits written out.
  literal_2 : (m : ℕ) → f.literal m 0 ≡ f.literal (m * 10 * 10) 2
  literal_2 m = sym (o.same_literal m 0) ∙ sym (o.same_literal (m * 10) 1)

  round-scale_min : f.round (scale_min {W = W}) 2 ≡ scale_min
  round-scale_min = ap (λ x. f.round x 2) (literal_2 1) ∙ o.round_literal 100 2 ∙ sym (literal_2 1)

  round-scale_max : f.round (scale_max {W = W}) 2 ≡ scale_max
  round-scale_max = ap (λ x. f.round x 2) (literal_2 5) ∙ o.round_literal 500 2 ∙ sym (literal_2 5)

  -- Within the scale, the ends included.
  abbrev pub IsOnScale : W → Type 0
  IsOnScale x = (f.le scale_min x ≡ true) × (f.le x scale_max ≡ true)

  rounded-IsOnScale : (x : W) → IsOnScale x → IsOnScale (f.round x 2)
  rounded-IsOnScale x h = (
    ap (λ y. f.le y (f.round x 2)) (sym round-scale_min) ∙ o.round_le scale_min x 2 h.0,
    ap (λ y. f.le (f.round x 2) y) (sym round-scale_max) ∙ o.round_le x scale_max 2 h.1,
  )

  clamped-IsOnScale : (x : W) → IsOnScale (maximum scale_min (minimum scale_max x))
  clamped-IsOnScale x = (
    le-clamp scale_min scale_max x (o.literals 1 1 0 (omega arith)),
    clamp-le scale_min scale_max x (o.literals 1 5 0 (omega arith))
        (o.literals 5 5 0 (omega arith)),
  )

  -- What is known of a competency: either no evidence, no score and the status that says so, or some
  -- evidence, three pieces at most, and a score on the scale.
  abbrev pub IsJudged : Competency → Type 0
  IsJudged c =
      ((c.status ≡ "insufficient_evidence")
        × (c.score ≡ null)
        × (c.evidence ≡ [])
        × (c.keyword_hits ≡ 0))
      ⊎ ((c.status ≡ "ok")
          × ((x : W) × (c.score ≡ f.write x) × IsOnScale x)
          × (1 ≤ length c.evidence)
          × (length c.evidence ≤ 3)
          × (1 ≤ c.keyword_hits))

  -- What holds of every competency that the loop makes.
  score_items-All :
      (P : Competency → Type 0) (re : Regex) (rows : List Row) (penalty : W)
      (weights : List (String × W)) (items : List (Item W)) (t : Sums W)
      → ((item : Item W) → P (competency_of re rows penalty weights item))
      → All P (score_items re rows penalty weights items t).0
  unfolding score_items
  score_items-All P re rows penalty weights [] t h = tt
  score_items-All P re rows penalty weights (item ∷ items) t h =
      (h item, score_items-All P re rows penalty weights items _ h)

  judged_score :
      (evidence : List Evidence) (hits : ℕ) (penalty : W)
      → length evidence ≤ 3
      → (length evidence ≡ 0) ↔ (hits ≡ 0)
      → (let (score, confidence, status) = competency_score (length evidence) hits penalty in
          ((status ≡ "insufficient_evidence")
            × (number_or_null score ≡ null)
            × (evidence ≡ [])
            × (hits ≡ 0))
          ⊎ ((status ≡ "ok")
              × ((x : W) × (number_or_null score ≡ f.write x) × IsOnScale x)
              × (1 ≤ length evidence)
              × (length evidence ≤ 3)
              × (1 ≤ hits)))
  unfolding competency_score
  judged_score [] hits penalty few iff = inl (refl, refl, refl, iff.0 refl)
  judged_score (e ∷ es) hits penalty few iff =
      let score =
        maximum scale_min (minimum scale_max (f.sub (raw_score (suc (length es)) hits) penalty)) in
      inr (
        refl,
        (
          f.round score 2,
          refl,
          rounded-IsOnScale score
              (clamped-IsOnScale (f.sub (raw_score (suc (length es)) hits) penalty)),
        ),
        omega arith,
        few,
        some_hits hits iff,
      )
    where
      some_hits : (n : ℕ) → (suc (length es) ≡ 0) ↔ (n ≡ 0) → 1 ≤ n
      some_hits zero iff = absurd (omega (arith, iff.1 refl))
      some_hits (suc n) iff = omega arith

  competency_of-IsJudged :
      (re : Regex) (rows : List Row) (penalty : W) (weights : List (String × W)) (item : Item W)
      → IsJudged (competency_of re rows penalty weights item)
  unfolding competency_of score_for evidence_for
  competency_of-IsJudged re rows penalty weights item =
      judged_score (collect_evidence re rows item.keywords 3).0
        (collect_evidence re rows item.keywords 3).1 penalty
        (length-collect_evidence re rows item.keywords 3)
        (collect_evidence_iff re rows item.keywords 3 (omega arith))

  -- Every competency of a scorecard either has no keyword in the transcript, and then no evidence, no
  -- score and the status `insufficient_evidence`; or some keyword, and then the status `ok`, one to
  -- three pieces of evidence, and a score between 1 and 5, whatever the penalty and the weights are.
  pub scorecard-IsJudged :
      (re : Regex) (overrides : Option Overrides) (transcript : String) (context : Dict)
      (report : Report) (segments : List Segment) (rubric_id : String)
      → All IsJudged
          (build_interview_scorecard W re overrides transcript context report segments
            rubric_id).competencies
  unfolding build_interview_scorecard
  scorecard-IsJudged re overrides transcript context report segments rubric_id =
      let weights = effective_weights context overrides in
      score_items-All IsJudged re _ _ weights base_rubric no_sums
        (competency_of-IsJudged re _ _ weights)
