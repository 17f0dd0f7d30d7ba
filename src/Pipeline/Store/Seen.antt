-- ===== src/Pipeline/Store/Seen.antt =====
-- storage/db.py, `autoflush=False`: what a query of a session finds after `upsert_by_meeting_seq`.
use interview_analytics_agen.Common.{
  ℕ, String, Bool, true, false, ◌&&◌, List, [], ◌∷◌, All, nat_eq, ◌==◌, eq_iff, eq_refl, any,
  if◌then◌else◌, ◌≡◌, refl, ap, arith, Bool-cases, inl, inr,
}
use interview_analytics_agen.Processing.Transcript.{TranscriptSegment}
use interview_analytics_agen.Pipeline.Store.{same_key, upsert_segment, visible}
use interview_analytics_agen.Pipeline.Store.Laws.{upsert-All}

-- A segment with the key is among the rows.
abbrev pub is_stored : String → ℕ → List TranscriptSegment → Bool
is_stored meeting_id seq rows = any (λ row. meeting_id == row.meeting_id && nat_eq seq row.seq) rows

abbrev IsSeen : List TranscriptSegment → TranscriptSegment → Type 0
IsSeen at_start row = any (same_key row) at_start ≡ true

same_key_refl : (row : TranscriptSegment) → same_key row row ≡ true
same_key_refl row = ground (arith, eq_refl row.meeting_id)

same_key_sym : (a b : TranscriptSegment) → same_key a b ≡ same_key b a
same_key_sym a b =
    ground (arith, eq_iff a.meeting_id b.meeting_id, eq_iff b.meeting_id a.meeting_id)

IsSeen-in_more :
    (x : TranscriptSegment) (at_start rows : List TranscriptSegment)
    → All (IsSeen at_start) rows
    → All (IsSeen (x ∷ at_start)) rows
IsSeen-in_more x at_start [] h = tt
IsSeen-in_more x at_start (row ∷ rows) h = (ground (arith, h.0), IsSeen-in_more x at_start rows h.1)

IsSeen-themselves : (rows : List TranscriptSegment) → All (IsSeen rows) rows
IsSeen-themselves [] = tt
IsSeen-themselves (row ∷ rows) =
    (ground (arith, same_key_refl row), IsSeen-in_more row rows rows (IsSeen-themselves rows))

visible-seen :
    (at_start rows : List TranscriptSegment)
    → All (IsSeen at_start) rows
    → visible at_start rows ≡ rows
unfolding visible
visible-seen at_start [] h = refl
visible-seen at_start (row ∷ rows) h = rw h.0 (ap (λ l. row ∷ l) (visible-seen at_start rows h.1))

-- A row that the session added is not found.
visible-upsert_new :
    (at_start : List TranscriptSegment) (seg : TranscriptSegment) (rows : List TranscriptSegment)
    → All (IsSeen at_start) rows
    → any (same_key seg) at_start ≡ false
    → any (same_key seg) rows ≡ false
    → visible at_start (upsert_segment seg rows) ≡ rows
unfolding visible upsert_segment
visible-upsert_new at_start seg [] h fresh new = rw fresh refl
visible-upsert_new at_start seg (row ∷ rows) h fresh new =
    let other : same_key row seg ≡ false = ground (arith, same_key_sym row seg, new) in
    let rest : any (same_key seg) rows ≡ false = ground (arith, new) in
    rw other (rw h.0 (ap (λ l. row ∷ l) (visible-upsert_new at_start seg rows h.1 fresh rest)))

-- After storing a segment the query finds it where its key was there at the start; otherwise it finds
-- the rows of the start.
pub visible-upsert :
    (seg : TranscriptSegment) (rows : List TranscriptSegment)
    → visible rows (upsert_segment seg rows)
      ≡ (if is_stored seg.meeting_id seg.seq rows then upsert_segment seg rows else rows)
visible-upsert seg rows = elim (Bool-cases (any (same_key seg) rows)) [
  | inl e ↦ rw e (
      visible-seen rows (upsert_segment seg rows)
        (upsert-All (IsSeen rows) seg rows e (IsSeen-themselves rows)))
  | inr e ↦ rw e (visible-upsert_new rows seg rows (IsSeen-themselves rows) e e)
]

pub visible-start : (rows : List TranscriptSegment) → visible rows rows ≡ rows
visible-start rows = visible-seen rows rows (IsSeen-themselves rows)
