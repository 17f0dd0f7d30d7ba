-- ===== src/Pipeline/Store/Laws.antt =====
-- The repositories of storage/repositories.py: what is found after what was stored.
use interview_analytics_agen.Common.{
  ℕ, String, true, false, some, List, [], ◌∷◌, ◌==◌, All, if◌then◌else◌, ◌≡◌, refl, sym, ap, ◌∙◌,
  arith, eq_iff, Bool-cases, Option-cases, inl, inr,
}
use interview_analytics_agen.Common.Value.{Dict}
use interview_analytics_agen.Processing.Transcript.{TranscriptSegment}
use interview_analytics_agen.Pipeline.Store.{
  Meeting, same_key, upsert_segment, get_meeting, save_meeting, ensure_meeting,
}

module _ {W : Type 0} where
  pub get-save_meeting :
      (m : Meeting W) (ms : List (Meeting W)) (id : String)
      → get_meeting id (save_meeting m ms) ≡ (if m.id == id then some m else get_meeting id ms)
  unfolding get_meeting save_meeting
  get-save_meeting m [] id = refl
  get-save_meeting m (m' ∷ ms) id =
      ground (arith, get-save_meeting m ms id, eq_iff m'.id m.id, eq_iff m'.id id, eq_iff m.id id)

  pub get_meeting-id :
      (ms : List (Meeting W)) (id : String) (m : Meeting W) → get_meeting id ms ≡ some m → m.id ≡ id
  unfolding get_meeting
  get_meeting-id [] id m h = absurd (ground arith)
  get_meeting-id (m' ∷ ms) id m h = elim (Bool-cases (m'.id == id)) [
    | inl e ↦ ground (arith, eq_iff m'.id id, e, h)
    | inr e ↦ get_meeting-id ms id m (ground (arith, e, h))
  ]

  -- What `ensure` gives is the meeting of the name, and is stored.
  pub ensure_meeting-id :
      (time : ℕ) (id : String) (context : Dict) (ms : List (Meeting W))
      → (ensure_meeting time id context ms).0.id ≡ id
  unfolding ensure_meeting
  ensure_meeting-id time id context ms = elim (Option-cases (get_meeting id ms)) [
    | inl e ↦ rw e refl
    | inr (m, e) ↦ rw e (get_meeting-id ms id m e)
  ]

-- No two rows have the same key.
abbrev pub HasUniqueKeys : List TranscriptSegment → Type 0
HasUniqueKeys [] = Unit
HasUniqueKeys (row ∷ rows) = All (λ other. same_key row other ≡ false) rows × HasUniqueKeys rows

pub upsert-All :
    (P : TranscriptSegment → Type 0) (seg : TranscriptSegment) (rows : List TranscriptSegment)
    → P seg
    → All P rows
    → All P (upsert_segment seg rows)
unfolding upsert_segment
upsert-All P seg [] h hs = (h, hs)
upsert-All P seg (row ∷ rows) h hs = elim (Bool-cases (same_key row seg)) [
  | inl e ↦ rw e (h, hs.1)
  | inr e ↦ rw e (hs.0, upsert-All P seg rows h hs.1)
]

same_key_trans :
    (a b c : TranscriptSegment) → same_key a b ≡ true → same_key a c ≡ false → same_key b c ≡ false
same_key_trans a b c h k = ground (
  arith,
  eq_iff a.meeting_id b.meeting_id,
  eq_iff a.meeting_id c.meeting_id,
  eq_iff b.meeting_id c.meeting_id,
)

pub same_key-right :
    (a b row : TranscriptSegment) → same_key a b ≡ true → same_key row a ≡ same_key row b
same_key-right a b row h = ground (
  arith,
  eq_iff a.meeting_id b.meeting_id,
  eq_iff row.meeting_id a.meeting_id,
  eq_iff row.meeting_id b.meeting_id,
)

other_keys :
    (a b : TranscriptSegment) (rows : List TranscriptSegment)
    → same_key a b ≡ true
    → All (λ other. same_key a other ≡ false) rows
    → All (λ other. same_key b other ≡ false) rows
other_keys a b [] e h = h
other_keys a b (c ∷ rows) e h = (same_key_trans a b c e h.0, other_keys a b rows e h.1)

-- Storing a segment keeps the keys unique: one that is there already is replaced, also where a task
-- is handled a second time.
pub upsert-HasUniqueKeys :
    (seg : TranscriptSegment) (rows : List TranscriptSegment)
    → HasUniqueKeys rows
    → HasUniqueKeys (upsert_segment seg rows)
unfolding upsert_segment
upsert-HasUniqueKeys seg [] h = (tt, tt)
upsert-HasUniqueKeys seg (row ∷ rows) h = elim (Bool-cases (same_key row seg)) [
  | inl e ↦ rw e (other_keys row seg rows e h.0, h.1)
  | inr e ↦ rw e (
    upsert-All (λ other. same_key row other ≡ false) seg rows e h.0,
    upsert-HasUniqueKeys seg rows h.1,
  )
]

-- Storing a segment a second time, with another content or the same, leaves what the second time
-- stored: the first content does not show any more, and the rows do not become more.
pub upsert-upsert :
    (a b : TranscriptSegment) (rows : List TranscriptSegment)
    → same_key a b ≡ true
    → upsert_segment b (upsert_segment a rows) ≡ upsert_segment b rows
unfolding upsert_segment
upsert-upsert a b [] h = rw h refl
upsert-upsert a b (row ∷ rows) h = elim (Bool-cases (same_key row a)) [
  | inl e ↦ rw e (rw h (rw (sym (same_key-right a b row h) ∙ e) refl))
  | inr e ↦
      let other = sym (same_key-right a b row h) ∙ e in
      rw e (rw other (ap (λ l. row ∷ l) (upsert-upsert a b rows h)))
]
