-- ===== src/Processing/Comparison.antt =====
-- processing/comparison.py: candidates side by side. A meeting without a scorecard or a report has
-- one without entries; a value that is no number where one is needed raises, which is `none`.
pub mod Laws
use interview_analytics_agen.Common.{
  ℕ, String, Bool, true, false, ◌||◌, Option, none, some, List, [], ◌∷◌, ◌++◌, map, ltb, ◌==◌,
  is_empty, if◌then◌else◌, strip, contains, length,
}
use interview_analytics_agen.Common.Value.{Value, null, truthy, str}
use interview_analytics_agen.Common.Floats.{Floats, lt, eq, maximum, minimum, nought, or_else}
use interview_analytics_agen.Common.Fallible.{◌>>=◌}
use interview_analytics_agen.Common.Sort.{sort}
use interview_analytics_agen.Processing.Scorecard.{Report, Competency, Scorecard, count_stated}
use interview_analytics_agen.Processing.Decision.{confidence_of}

pub record Entry : Type 0 where
  pub meeting_id : Value
  pub scorecard : Scorecard
  pub report : Report

pub record Row (W : Type 0) : Type 0 where
  pub meeting_id : String
  pub candidate_label : Value
  pub position_label : Value
  pub overall_score : Option W
  pub overall_confidence : W
  pub risk_count : ℕ
  pub insufficient_evidence_competencies : List Value

pub record Point (W : Type 0) : Type 0 where
  pub meeting_id : String
  pub score : Option W

pub record Line (W : Type 0) : Type 0 where
  pub competency_id : String
  pub spread : Option W
  pub points : List (Point W)

pub record Comparison (W : Type 0) : Type 0 where
  pub meeting_count : ℕ
  pub ranking : List String
  pub rows : List (Row W)
  pub competency_matrix : List (Line W)

-- `str(value or "")`
abbrev pub text_or_empty : Value → String
text_or_empty v = if truthy v then str v else ""

-- The loop that collects `competency_ids`, each once, in the order in which they come.
unfoldable pub add_ids : List String → List Competency → List String
unfolding strip contains
add_ids ids [] = ids
add_ids ids (comp ∷ comps) =
    let cid = strip (text_or_empty comp.competency_id) in
    add_ids (if is_empty cid || contains ids cid then ids else ids ++ (cid ∷ [])) comps

unfoldable pub ids_of : List String → List Entry → List String
unfolding add_ids
ids_of ids [] = ids
ids_of ids (entry ∷ meetings) = ids_of (add_ids ids entry.scorecard.competencies) meetings

module _ {W : Type 0} ⦃f : Floats W⦄ where
  -- `float(v) if v is not None else None`
  abbrev pub read_score : Value → Option (Option W)
  read_score null = some none
  read_score v = do x ← f.read v; some (some x)

  -- `float(v) if v is not None else 0.0`
  abbrev pub read_confidence : Value → Option W
  read_confidence null = some nought
  read_confidence v = f.read v

  unfoldable pub row_of : Entry → Option (Row W)
  unfolding count_stated
  row_of entry = do
    score ← read_score entry.scorecard.overall_score
    confidence ← read_confidence entry.scorecard.overall_confidence
    some record {
      meeting_id = text_or_empty entry.meeting_id;
      candidate_label =
          if truthy entry.scorecard.candidate_label then entry.scorecard.candidate_label else null;
      position_label =
          if truthy entry.scorecard.position_label then entry.scorecard.position_label else null;
      overall_score = score;
      overall_confidence = confidence;
      risk_count = count_stated entry.report.risk_flags;
      insufficient_evidence_competencies = entry.scorecard.insufficient_evidence_competencies;
    }

  unfoldable pub rows_of : List Entry → Option (List (Row W))
  unfolding row_of
  rows_of [] = some []
  rows_of (entry ∷ meetings) = do row ← row_of entry; rows ← rows_of meetings; some (row ∷ rows)

  -- The components of `_sort_key`; the third one is -float(risk_count).
  abbrev pub base_key : Row W → W
  base_key row = elim row.overall_score [ none ↦ f.minus_one | some x ↦ x ]

  abbrev pub confidence_key : Row W → W
  confidence_key row = or_else row.overall_confidence nought

  -- `a < b` for tuples: the first components that differ decide.
  abbrev pub lexicographic : W → W → Bool → Bool
  lexicographic x y rest = if eq x y then rest else lt x y

  abbrev pub key_before : Row W → Row W → Bool
  key_before a b =
      lexicographic (base_key a) (base_key b)
        (lexicographic (confidence_key a) (confidence_key b) (ltb b.risk_count a.risk_count))

  -- `sorted(rows, key=_sort_key, reverse=True)`
  unfoldable pub rank : List (Row W) → List (Row W)
  unfolding sort
  rank = sort (λ a b. key_before b a)

  unfoldable pub ranking_of : List (Row W) → List String
  ranking_of [] = []
  ranking_of (row ∷ rows) =
      let rest = ranking_of rows in if is_empty row.meeting_id then rest else row.meeting_id ∷ rest

  -- `_extract_score`
  unfoldable pub extract_score : List Competency → String → Option W
  extract_score [] cid = none
  extract_score (item ∷ items) cid =
      let rest = extract_score items cid in
      if str item.competency_id == cid then score_of item.score else rest
    where
      score_of : Value → Option W
      score_of null = none
      score_of v = f.read v

  unfoldable pub points_of : String → List Entry → List (Point W)
  unfolding extract_score
  points_of cid [] = []
  points_of cid (entry ∷ meetings) =
      record {
        meeting_id = text_or_empty entry.meeting_id;
        score = extract_score entry.scorecard.competencies cid;
      }
      ∷ points_of cid meetings

  unfoldable pub values_of : List (Point W) → List W
  values_of [] = []
  values_of (p ∷ ps) = let rest = values_of ps in elim p.score [ none ↦ rest | some x ↦ x ∷ rest ]

  -- `max(values)` and `min(values)` of x ∷ xs.
  unfoldable pub largest : W → List W → W
  largest x [] = x
  largest x (y ∷ ys) = largest (maximum x y) ys

  unfoldable pub smallest : W → List W → W
  smallest x [] = x
  smallest x (y ∷ ys) = smallest (minimum x y) ys

  unfoldable pub spread_of : List W → Option W
  unfolding largest smallest
  spread_of [] = none
  spread_of (x ∷ xs) = some (f.round (f.sub (largest x xs) (smallest x xs)) 2)

  unfoldable pub line_of : List Entry → String → Line W
  unfolding points_of values_of spread_of
  line_of meetings cid = record {
    competency_id = cid;
    spread = spread_of (values_of (points_of cid meetings));
    points = points_of cid meetings;
  }

  abbrev pub comparison_of : List Entry → List (Row W) → Comparison W
  comparison_of meetings rows = record {
    meeting_count = length (rank rows);
    ranking = ranking_of (rank rows);
    rows = rank rows;
    competency_matrix = map (line_of meetings) (ids_of [] meetings);
  }

  unfoldable pub build_comparison_report : List Entry → Option (Comparison W)
  unfolding rows_of rank ranking_of ids_of line_of
  build_comparison_report meetings = do rows ← rows_of meetings; some (comparison_of meetings rows)
