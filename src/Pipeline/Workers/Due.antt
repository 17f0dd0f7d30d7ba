-- ===== src/Pipeline/Workers/Due.antt =====
-- Rows that a loop over some of them has still to come to, for apps/worker_enhancer.
use interview_analytics_agen.Common.{
  Bool, true, false, String, List, [], ◌∷◌, All, ltb, ◌==◌, eq_iff, eq_refl, ◌≡◌, ◌⊎◌, refl, sym,
  ap, ◌∙◌, arith, Bool-cases, inl, inr,
}
use interview_analytics_agen.Common.Sort.{sort, insert, sort-All}
use interview_analytics_agen.Processing.Transcript.{TranscriptSegment}
use interview_analytics_agen.Pipeline.Store.{same_key, upsert_segment, of_meeting, list_by_meeting}
use interview_analytics_agen.Pipeline.Store.Laws.{HasUniqueKeys, same_key-right}

abbrev pub Among : TranscriptSegment → List TranscriptSegment → Type 0
Among row [] = ⊥
Among row (x ∷ xs) = (row ≡ x) ⊎ Among row xs

true-ne-false : Path Bool true false → ⊥
true-ne-false h = ground arith

Among-insert :
    (before : TranscriptSegment → TranscriptSegment → Bool) (x y : TranscriptSegment)
    (ys : List TranscriptSegment)
    → Among y (x ∷ ys)
    → Among y (insert before x ys)
unfolding insert
Among-insert before x y [] h = h
Among-insert before x y (z ∷ ys) h = elim (Bool-cases (before z x)) [
  | inl e ↦ rw e (elim h [
    | inl first ↦ inr (Among-insert before x y ys (inl first))
    | inr (inl first) ↦ inl first
    | inr (inr m) ↦ inr (Among-insert before x y ys (inr m))
  ])
  | inr e ↦ rw e h
]

Among-sort :
    (before : TranscriptSegment → TranscriptSegment → Bool) (y : TranscriptSegment)
    (xs : List TranscriptSegment)
    → Among y xs
    → Among y (sort before xs)
unfolding sort
Among-sort before y [] h = h
Among-sort before y (x ∷ xs) (inl e) = Among-insert before x y (sort before xs) (inl e)
Among-sort before y (x ∷ xs) (inr m) =
    Among-insert before x y (sort before xs) (inr (Among-sort before y xs m))

Among-of_meeting :
    (id : String) (row : TranscriptSegment) (rows : List TranscriptSegment)
    → row.meeting_id ≡ id
    → Among row rows
    → Among row (of_meeting id rows)
unfolding of_meeting
Among-of_meeting id row [] same m = absurd m
Among-of_meeting id row (x ∷ rows) same (inl e) =
    rw (ap (λ t. t == id) (ap (λ r. r.meeting_id) (sym e) ∙ same) ∙ eq_refl id) (inl e)
Among-of_meeting id row (x ∷ rows) same (inr m) = elim (Bool-cases (x.meeting_id == id)) [
  | inl e ↦ rw e (inr (Among-of_meeting id row rows same m))
  | inr e ↦ rw e (Among-of_meeting id row rows same m)
]

pub All-Among :
    (P : TranscriptSegment → Type 0) (rows : List TranscriptSegment)
    → ((row : TranscriptSegment) → Among row rows → P row)
    → All P rows
All-Among P [] h = tt
All-Among P (x ∷ rows) h = (h x (inl refl), All-Among P rows (λ row m. h row (inr m)))

module _ (F : TranscriptSegment → Type 0) (id : String) where
  -- A row of the meeting satisfies F, or is still to come.
  abbrev pub IsDueIn : List TranscriptSegment → TranscriptSegment → Type 0
  IsDueIn rest row = row.meeting_id ≡ id → F row ⊎ Among row rest

  not_this :
      (rest : List TranscriptSegment) (seg row : TranscriptSegment)
      → ¬ (row ≡ seg)
      → IsDueIn (seg ∷ rest) row
      → IsDueIn rest row
  not_this rest seg row other h same = elim (h same) [
    | inl y ↦ inl y
    | inr (inl e) ↦ absurd (other e)
    | inr (inr m) ↦ inr m
  ]

  not_this-All :
      (rest : List TranscriptSegment) (seg row : TranscriptSegment) (rows : List TranscriptSegment)
      → same_key row seg ≡ true
      → All (λ other. same_key row other ≡ false) rows
      → All (IsDueIn (seg ∷ rest)) rows
      → All (IsDueIn rest) rows
  not_this-All rest seg row [] e h k = tt
  not_this-All rest seg row (x ∷ rows) e h k = (
    not_this rest seg x (λ same. true-ne-false (sym e ∙ ap (λ y. same_key row y) (sym same) ∙ h.0))
        k.0,
    not_this-All rest seg row rows e h.1 k.1,
  )

  pub upsert-All-IsDueIn :
      (rest : List TranscriptSegment) (seg seg' : TranscriptSegment) (rows : List TranscriptSegment)
      → HasUniqueKeys rows
      → same_key seg seg' ≡ true
      → F seg'
      → All (IsDueIn (seg ∷ rest)) rows
      → All (IsDueIn rest) (upsert_segment seg' rows)
  unfolding upsert_segment
  upsert-All-IsDueIn rest seg seg' [] u e y h = ((λ _. inl y), tt)
  upsert-All-IsDueIn rest seg seg' (row ∷ rows) u e y h = elim (Bool-cases (same_key row seg')) [
    | inl same ↦ rw same (
      (λ _. inl y),
      not_this-All rest seg row rows (same_key-right seg seg' row e ∙ same) u.0 h.1,
    )
    | inr other ↦ rw other (
      not_this rest seg row (λ eq. true-ne-false (sym (ap (λ z. same_key z seg') eq ∙ e) ∙ other))
          h.0,
      upsert-All-IsDueIn rest seg seg' rows u.1 e y h.1,
    )
  ]

  pub pass-All :
      (rest : List TranscriptSegment) (seg : TranscriptSegment) (rows : List TranscriptSegment)
      → F seg
      → All (IsDueIn (seg ∷ rest)) rows
      → All (IsDueIn rest) rows
  pass-All rest seg [] y h = tt
  pass-All rest seg (row ∷ rows) y h = (
    (λ same. elim (h.0 same) [ inl z ↦ inl z | inr (inl e) ↦ inl (rw e y) | inr (inr m) ↦ inr m ]),
    pass-All rest seg rows y h.1,
  )

  of_meeting-All :
      (rows : List TranscriptSegment) → All (IsDueIn []) rows → All F (of_meeting id rows)
  unfolding of_meeting
  of_meeting-All [] h = tt
  of_meeting-All (row ∷ rows) h = elim (Bool-cases (row.meeting_id == id)) [
    | inl e ↦
        rw e (
          (elim (h.0 ((eq_iff _ _).0 e)) [ inl z ↦ z | inr m ↦ absurd m ]),
          of_meeting-All rows h.1,
        )
    | inr e ↦ rw e (of_meeting-All rows h.1)
  ]

  -- At last none is.
  pub none_due :
      (rows : List TranscriptSegment) → All (IsDueIn []) rows → All F (list_by_meeting id rows)
  unfolding list_by_meeting
  none_due rows h = sort-All _ F (of_meeting id rows) (of_meeting-All rows h)

  -- At first all rows of the meeting are to come.
  pub due_first : (rows : List TranscriptSegment) → All (IsDueIn (list_by_meeting id rows)) rows
  unfolding list_by_meeting
  due_first rows = All-Among _ rows λ row m same. inr (
      Among-sort (λ a b. ltb a.seq b.seq) row (of_meeting id rows)
        (Among-of_meeting id row rows same m))
