-- ===== src/Processing/Scorecard.antt =====
-- processing/scorecard.py: the score of a competency and the scorecard of an interview. The fields
-- that are the same in every scorecard (version, scale, goal, audience) are left out.
pub mod Laws
use interview_analytics_agen.Common.{
  ℕ, zero, suc, ◌+◌, String, Bool, true, false, Option, none, some, List, [], ◌∷◌, ◌==◌, length,
  if◌then◌else◌, is_empty, strip,
}
use interview_analytics_agen.Common.Value.{Value, null, string, Dict, get, truthy, str}
use interview_analytics_agen.Common.Assoc.{lookup_or}
use interview_analytics_agen.Common.Floats.{Floats, lt, maximum, minimum, nought, of_nat}
use interview_analytics_agen.Processing.Transcript.{Regex}
use interview_analytics_agen.Processing.Evidence.{
  Segment, Row, Evidence, segment_rows, collect_evidence,
}
use interview_analytics_agen.Processing.Rubric.{Item, Overrides, base_rubric, effective_weights}

-- The fields of a report that the code reads; an absent one is null. The flags are the items that
-- iterating over them gives, none where they are missing or falsy; flags that cannot be iterated
-- raise and stand in no report (`report_of`).
pub record Report : Type 0 where
  pub summary : Value
  pub bullets : Value
  pub risk_flags : List Value
  pub recommendation : Value

pub record Competency : Type 0 where
  pub competency_id : Value
  pub title : String
  pub weight : Value
  pub status : String
  pub score : Value
  pub confidence : Value
  pub evidence : List Evidence
  pub keyword_hits : ℕ

pub record Scorecard : Type 0 where
  pub rubric_id : String
  pub candidate_label : Value
  pub position_label : Value
  pub overall_score : Value
  pub overall_confidence : Value
  pub insufficient_evidence_competencies : List Value
  pub competencies : List Competency
  pub weights_source : String

-- `len([i for i in values if str(i).strip()])`
unfoldable pub count_stated : List Value → ℕ
unfolding strip
count_stated [] = 0
count_stated (v ∷ vs) =
    let rest = count_stated vs in if is_empty (strip (str v)) then rest else suc rest

-- `[c["competency_id"] for c in competencies if c["status"] != "ok"]`
unfoldable pub insufficient_of : List Competency → List Value
insufficient_of [] = []
insufficient_of (c ∷ cs) =
    let rest = insufficient_of cs in if c.status == "ok" then rest else c.competency_id ∷ rest

-- `context.get(a) or context.get(b)`
abbrev pub first_of : Dict → String → String → Value
first_of context a b = if truthy (get context a) then get context a else get context b

abbrev weights_source : Option Overrides → String
weights_source none = "default"
weights_source (some o) = "adaptive_overrides"

-- `weighted_sum`, `weighted_total` and `confidence_weighted`
pub record Sums (W : Type 0) : Type 0 where
  pub weighted_sum : W
  pub weighted_total : W
  pub confidence_weighted : W

module _ {W : Type 0} ⦃f : Floats W⦄ where
  abbrev pub scale_min : W
  scale_min = f.literal 1 0

  abbrev pub scale_max : W
  scale_max = f.literal 5 0

  -- `_risk_penalty`; no report is one without flags.
  unfoldable pub risk_penalty : Report → W
  unfolding count_stated
  risk_penalty report =
      minimum (f.literal 8 1) (f.mul (f.literal 12 2) (of_nat (count_stated report.risk_flags)))

  abbrev pub raw_score : ℕ → ℕ → W
  raw_score evidence_count keyword_hits =
      f.add
        (f.add (f.literal 22 1)
          (minimum (f.literal 16 1) (f.mul (f.literal 45 2) (of_nat evidence_count))))
        (minimum (f.literal 12 1) (f.mul (f.literal 8 2) (of_nat keyword_hits)))

  abbrev pub raw_confidence : ℕ → ℕ → W
  raw_confidence evidence_count keyword_hits =
      f.add (f.add (f.literal 35 2) (f.mul (f.literal 12 2) (of_nat evidence_count)))
        (f.mul (f.literal 2 2) (of_nat keyword_hits))

  -- `_competency_score`: the score, the confidence and the status.
  unfoldable pub competency_score : ℕ → ℕ → W → Option W × W × String
  competency_score zero keyword_hits penalty = (none, f.literal 15 2, "insufficient_evidence")
  competency_score (suc n) keyword_hits penalty =
      let score =
        maximum scale_min (minimum scale_max (f.sub (raw_score (suc n) keyword_hits) penalty)) in
      let confidence =
        maximum (f.literal 2 1) (minimum (f.literal 95 2) (raw_confidence (suc n) keyword_hits)) in
      (some (f.round score 2), f.round confidence 2, "ok")

  abbrev pub number_or_null : Option W → Value
  number_or_null none = null
  number_or_null (some x) = f.write x

  abbrev pub no_sums : Sums W
  no_sums = record { weighted_sum = nought; weighted_total = nought; confidence_weighted = nought }

  unfoldable pub add_score : Option W → W → W → Sums W → Sums W
  add_score none confidence weight t = t
  add_score (some score) confidence weight t = record {
    weighted_sum = f.add t.weighted_sum (f.mul score weight);
    weighted_total = f.add t.weighted_total weight;
    confidence_weighted = f.add t.confidence_weighted (f.mul confidence weight);
  }

  module _ (re : Regex) (rows : List Row) (penalty : W) (weights : List (String × W)) where
    -- The evidence and the hits of an item, and its score, confidence and status.
    unfoldable pub evidence_for : Item W → List Evidence × ℕ
    evidence_for item = collect_evidence re rows item.keywords 3

    unfoldable pub score_for : Item W → Option W × W × String
    unfolding evidence_for competency_score
    score_for item =
        let (evidence, hits) = evidence_for item in competency_score (length evidence) hits penalty

    unfoldable pub competency_of : Item W → Competency
    unfolding evidence_for score_for
    competency_of item = record {
      competency_id = string item.id;
      title = item.title;
      weight = f.write (f.round (lookup_or item.weight weights item.id) 6);
      status = (score_for item).2;
      score = number_or_null (score_for item).0;
      confidence = f.write (score_for item).1;
      evidence = (evidence_for item).0;
      keyword_hits = (evidence_for item).1;
    }

    -- The loop over the rubric.
    unfoldable pub score_items : List (Item W) → Sums W → List Competency × Sums W
    unfolding competency_of score_for add_score
    score_items [] t = ([], t)
    score_items (item ∷ items) t =
        let (score, confidence, status) = score_for item in
        let weight = lookup_or item.weight weights item.id in
        let (cs, t') = score_items items (add_score score confidence weight t) in
        (competency_of item ∷ cs, t')

  -- `round(sum / total, 2) if total > 0 else default`
  abbrev pub mean_or : Value → W → W → Value
  mean_or default sum total =
      if lt nought total then f.write (f.round (f.div sum total) 2) else default

module _ (W : Type 0) ⦃f : Floats W⦄ (re : Regex) (overrides : Option Overrides) where
  -- `build_interview_scorecard`; `overrides` is what `load_weight_overrides` gives.
  unfoldable pub build_interview_scorecard :
      String → Dict → Report → List Segment → String → Scorecard
  unfolding segment_rows risk_penalty effective_weights score_items insufficient_of
  build_interview_scorecard enhanced_transcript context report segments rubric_id =
      let rows = segment_rows enhanced_transcript segments in
      let weights = effective_weights {W = W} context overrides in
      let (cs, t) =
        score_items re rows (risk_penalty report) weights (base_rubric {W = W}) no_sums in
      record {
        rubric_id = rubric_id;
        candidate_label = first_of context "candidate_name" "candidate_id";
        position_label = first_of context "position" "role";
        overall_score = mean_or null t.weighted_sum t.weighted_total;
        overall_confidence = mean_or (f.write nought) t.confidence_weighted t.weighted_total;
        insufficient_evidence_competencies = insufficient_of cs;
        competencies = cs;
        weights_source = weights_source overrides;
      }
