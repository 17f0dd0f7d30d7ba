-- ===== src/Processing/Comparison/Laws.antt =====
-- The ranking of processing/comparison.py.
use mathlib.Core.List.{Perm}
use interview_analytics_agen.Common.{
  String, Bool, true, false, some, List, [], ◌∷◌, map, All, ◌≤◌, ◌⊎◌, ◌≡◌, refl, ap, arith,
}
use interview_analytics_agen.Common.Floats.{Floats, IsOrdered, lt, eq}
use interview_analytics_agen.Common.Fallible.{bind_some, some_injective}
use interview_analytics_agen.Common.Sort.{IsSorted, sort, sort-All, sort-perm, sort-IsSorted}
use interview_analytics_agen.Processing.Comparison.{
  Entry, Row, Comparison, rows_of, base_key, confidence_key, lexicographic, key_before, rank,
  ranking_of, build_comparison_report, points_of, text_or_empty, comparison_of, line_of, ids_of,
}

module _ {W : Type 0} ⦃f : Floats W⦄ (o : IsOrdered W) where
  lexicographic-asymmetric :
      (x y : W) (p q : Bool)
      → (p ≡ true → q ≡ false)
      → lexicographic x y p ≡ true
      → lexicographic y x q ≡ false
  lexicographic-asymmetric x y p q rest h = ground arith

  lexicographic-co_transitive :
      (x y z : W) (p q r : Bool)
      → f.le x x ≡ true
      → f.le y y ≡ true
      → f.le z z ≡ true
      → (p ≡ false → q ≡ false → r ≡ false)
      → lexicographic x y p ≡ false
      → lexicographic y z q ≡ false
      → lexicographic x z r ≡ false
  lexicographic-co_transitive x y z p q r hx hy hz rest h k = ground (
    arith,
    o.le_total x y hx hy,
    o.le_total y z hy hz,
    o.le_total x z hx hz,
    o.le_trans x y z,
    o.le_trans z y x,
    o.le_trans x z y,
    o.le_trans y x z,
    o.le_trans y z x,
    o.le_trans z x y,
  )

  -- A row whose score and confidence are numbers, not NaN.
  abbrev pub IsComparable : Row W → Type 0
  IsComparable row =
      (f.le (base_key row) (base_key row) ≡ true)
      × (f.le (confidence_key row) (confidence_key row) ≡ true)

  key_before-asymmetric : (x y : Row W) → key_before y x ≡ true → key_before x y ≡ false
  key_before-asymmetric x y =
      lexicographic-asymmetric (base_key y) (base_key x) _ _
        (lexicographic-asymmetric (confidence_key y) (confidence_key x) _ _ (ground arith))

  key_before-co_transitive :
      (x y z : Row W)
      → IsComparable x
      → IsComparable y
      → IsComparable z
      → key_before y z ≡ false
      → key_before x y ≡ false
      → key_before x z ≡ false
  key_before-co_transitive x y z hx hy hz h k =
      lexicographic-co_transitive (base_key x) (base_key y) (base_key z) _ _ _ hx.0 hy.0 hz.0
        (lexicographic-co_transitive (confidence_key x) (confidence_key y) (confidence_key z) _ _ _
          hx.1 hy.1 hz.1 (ground arith))
        k h

  -- A row that may stand before another: it has the larger score, or the same score and the larger
  -- confidence, or the same of both and no more risk flags.
  abbrev pub IsAhead : Row W → Row W → Type 0
  IsAhead a b =
      (lt (base_key b) (base_key a) ≡ true)
      ⊎ ((eq (base_key a) (base_key b) ≡ true)
          × ((lt (confidence_key b) (confidence_key a) ≡ true)
              ⊎ ((eq (confidence_key a) (confidence_key b) ≡ true)
                  × (a.risk_count ≤ b.risk_count))))

  -- Every row may stand before all those after it.
  abbrev pub IsRanked : List (Row W) → Type 0
  IsRanked [] = Unit
  IsRanked (row ∷ rows) = All (IsAhead row) rows × IsRanked rows

  ahead : (a b : Row W) → IsComparable a → IsComparable b → key_before a b ≡ false → IsAhead a b
  ahead a b ha hb h = ground (
    arith,
    o.le_total (base_key a) (base_key b) ha.0 hb.0,
    o.le_total (confidence_key a) (confidence_key b) ha.1 hb.1,
  )

  All-IsAhead :
      (row : Row W) (rows : List (Row W))
      → IsComparable row
      → All IsComparable rows
      → All (λ z. key_before row z ≡ false) rows
      → All (IsAhead row) rows
  All-IsAhead row [] hr hs h = tt
  All-IsAhead row (z ∷ rows) hr hs h = (ahead row z hr hs.0 h.0, All-IsAhead row rows hr hs.1 h.1)

  sorted-IsRanked :
      (rows : List (Row W))
      → All IsComparable rows
      → IsSorted (λ a b. key_before b a) rows
      → IsRanked rows
  sorted-IsRanked [] hs h = tt
  sorted-IsRanked (row ∷ rows) hs h =
      (All-IsAhead row rows hs.0 hs.1 h.0, sorted-IsRanked rows hs.1 h.1)

  -- The report ranks all the candidates it was given and no others. Each one has a larger overall
  -- score than every one after it, a missing score counting as -1; or the same score and a larger
  -- confidence, a missing one counting as 0; or the same of both and no more risk flags. The scores
  -- and confidences are taken to be numbers.
  pub ranked :
      (meetings : List Entry) (rows : List (Row W))
      → rows_of meetings ≡ some rows
      → All IsComparable rows
      → (c : Comparison W) × (build_comparison_report meetings ≡ some c)
        × Perm c.rows rows
        × IsRanked c.rows
        × (c.ranking ≡ ranking_of c.rows)
  unfolding build_comparison_report rank
  ranked meetings rows h numbers = (
    comparison_of meetings rows,
    rw h refl,
    sort-perm (λ a b. key_before b a) rows,
    sorted-IsRanked (sort (λ a b. key_before b a) rows)
        (sort-All (λ a b. key_before b a) IsComparable rows numbers)
        (sort-IsSorted (λ a b. key_before b a) IsComparable key_before-asymmetric
          key_before-co_transitive rows numbers),
    refl,
  )

  points_of-meetings :
      (cid : String) (meetings : List Entry)
      → map (λ p. p.meeting_id) (points_of {W = W} cid meetings)
        ≡ map (λ e. text_or_empty e.meeting_id) meetings
  unfolding points_of
  points_of-meetings cid [] = refl
  points_of-meetings cid (entry ∷ meetings) =
      ap (λ l. text_or_empty entry.meeting_id ∷ l) (points_of-meetings cid meetings)

  All-lines :
      (meetings : List Entry) (ids : List String)
      → All
          (λ line.
            map (λ p. p.meeting_id) line.points ≡ map (λ e. text_or_empty e.meeting_id) meetings)
          (map (line_of {W = W} meetings) ids)
  unfolding line_of
  All-lines meetings [] = tt
  All-lines meetings (cid ∷ ids) = (points_of-meetings cid meetings, All-lines meetings ids)

  -- Every line of the matrix of competencies has one point for each of the meetings, in their order,
  -- whether the meeting has a score of the competency or not.
  pub matrix-meetings :
      (meetings : List Entry) (c : Comparison W)
      → build_comparison_report meetings ≡ some c
      → All
          (λ line.
            map (λ p. p.meeting_id) line.points ≡ map (λ e. text_or_empty e.meeting_id) meetings)
          c.competency_matrix
  unfolding build_comparison_report
  matrix-meetings meetings c h =
      let (rows, e, g) =
        bind_some (rows_of meetings) (λ rows. some (comparison_of meetings rows)) c h in
      rw (← some_injective g) (All-lines meetings (ids_of [] meetings))
