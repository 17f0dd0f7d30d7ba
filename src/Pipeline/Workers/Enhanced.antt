-- ===== src/Pipeline/Workers/Enhanced.antt =====
-- What apps/worker_enhancer leaves in the database.
use interview_analytics_agen.Common.{
  String, List, [], ◌∷◌, All, ◌==◌, eq_iff, eq_refl, ◌≡◌, refl, sym, arith, Bool-cases, inl, inr,
}
use interview_analytics_agen.Common.Exec.{ok}
use interview_analytics_agen.Common.Floats.{Floats}
use interview_analytics_agen.Processing.Transcript.{TranscriptSegment}
use interview_analytics_agen.Pipeline.Store.{Db, list_by_meeting}
use interview_analytics_agen.Pipeline.Store.Laws.{HasUniqueKeys, upsert-HasUniqueKeys}
use interview_analytics_agen.Pipeline.Workers.Due.{
  IsDueIn, due_first, none_due, pass-All, upsert-All-IsDueIn,
}
use interview_analytics_agen.Pipeline.Io.{PipelineSettings, Io, State, with_session}
use interview_analytics_agen.Pipeline.Leaves.{Leads, bind-Leads, with_session-Leads}
use interview_analytics_agen.Pipeline.Tasks.{enqueue_analytics}
use interview_analytics_agen.Pipeline.Workers.{
  enhanced_of, enhance_segment, enhance_all, enhance_meeting, process_enhancer,
}

module _ {W : Type 0} ⦃f : Floats W⦄ (io : Io W) (cfg : PipelineSettings W) where
  abbrev IsFresh : TranscriptSegment → Type 0
  IsFresh row = row.enhanced_text ≡ enhanced_of io cfg row

  abbrev DueIn : String → List TranscriptSegment → Db W → Type 0
  DueIn id rest db = HasUniqueKeys db.segments × All (IsDueIn IsFresh id rest) db.segments

  enhance_segment-Leads :
      (id : String) (seg : TranscriptSegment) (rest : List TranscriptSegment)
      → Leads io (DueIn id (seg ∷ rest)) (enhance_segment io cfg id seg) (DueIn id rest)
  unfolding enhance_segment
  enhance_segment-Leads id seg rest s a due h =
      elim (Bool-cases (enhanced_of io cfg seg == seg.enhanced_text)) [
        | inl e ↦
            rw e (due.0, pass-All IsFresh id rest seg s.db.segments (sym ((eq_iff _ _).0 e)) due.1)
        | inr e ↦
            let seg' : TranscriptSegment = record seg { enhanced_text = enhanced_of io cfg seg } in
            rw e (
              upsert-HasUniqueKeys seg' s.db.segments due.0,
              upsert-All-IsDueIn IsFresh id rest seg seg' s.db.segments due.0
                  (ground (arith, eq_refl seg.meeting_id)) refl due.1,
            )
      ]

  enhance_all-Leads :
      (id : String) (segs : List TranscriptSegment)
      → Leads io (DueIn id segs) (enhance_all io cfg id segs) (DueIn id [])
  unfolding enhance_all
  enhance_all-Leads id [] = λ s a due h. due
  enhance_all-Leads id (seg ∷ segs) =
      bind-Leads io (DueIn id (seg ∷ segs)) (DueIn id segs) (DueIn id [])
        (enhance_segment io cfg id seg) (λ _. enhance_all io cfg id segs)
        (enhance_segment-Leads id seg segs) (λ _. enhance_all-Leads id segs)

  enhance_meeting-Leads :
      (id : String)
      → Leads io (λ db. HasUniqueKeys db.segments) (enhance_meeting io cfg id) (DueIn id [])
  unfolding enhance_meeting
  enhance_meeting-Leads id s a u h =
      enhance_all-Leads id (list_by_meeting id s.db.segments) s a
        (u, due_first IsFresh id s.db.segments) h

  process_enhancer-Leads :
      (id : String)
      → Leads io (λ db. HasUniqueKeys db.segments) (process_enhancer io cfg id) (DueIn id [])
  unfolding process_enhancer enqueue_analytics
  process_enhancer-Leads id =
      bind-Leads io (λ db. HasUniqueKeys db.segments) (DueIn id []) (DueIn id [])
        (with_session io (enhance_meeting io cfg id)) (λ _. enqueue_analytics io id)
        (with_session-Leads io (λ db. HasUniqueKeys db.segments) (DueIn id [])
          (enhance_meeting io cfg id) (enhance_meeting-Leads id))
        (λ _ s a due h. due)

  -- Once the enhancer has returned from the task of a meeting, with the keys of the segments unique
  -- before, every stored segment of the meeting has the enhanced form of its raw text, and the keys
  -- are unique again.
  pub process_enhancer-fresh :
      (id : String) (s : State io)
      → HasUniqueKeys s.db.segments
      → (process_enhancer io cfg id s).0 ≡ ok tt
      → HasUniqueKeys (process_enhancer io cfg id s).1.db.segments
        × All
            (λ row. row.enhanced_text ≡ enhanced_of io cfg row)
            (list_by_meeting id (process_enhancer io cfg id s).1.db.segments)
  process_enhancer-fresh id s u h =
      let (unique, due) = process_enhancer-Leads id s tt u h in
      (unique, none_due (IsFresh) id _ due)
