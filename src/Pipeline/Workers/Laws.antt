-- ===== src/Pipeline/Workers/Laws.antt =====
-- The meeting of a task, in apps/worker_stt and apps/worker_enhancer.
use interview_analytics_agen.Common.{
  ℕ, String, some, List, [], ◌∷◌, ◌==◌, ◌≡◌, refl, ◌∙◌, eq_refl, Bool-cases, inl, inr,
}
use interview_analytics_agen.Common.Value.{Value, string}
use interview_analytics_agen.Common.Floats.{Floats}
use interview_analytics_agen.Domain.{processing}
use interview_analytics_agen.Processing.Transcript.{TranscriptSegment}
use interview_analytics_agen.Pipeline.Store.{
  Meeting, Db, get_meeting, save_meeting, ensure_meeting, list_by_meeting,
}
use interview_analytics_agen.Pipeline.Store.Laws.{get-save_meeting, ensure_meeting-id}
use interview_analytics_agen.Pipeline.Io.{SttResult, PipelineSettings, Io, call, with_session}
use interview_analytics_agen.Pipeline.Leaves.{
  Leaves, Leads, bind-Leaves, Leaves-bind, bind-Leads, bind-Keeps, with_session-Leaves,
  with_session-Leads,
}
use interview_analytics_agen.Pipeline.Tasks.{enqueue_enhancer, enqueue_analytics}
use interview_analytics_agen.Pipeline.Workers.{
  channel, segment_of, enhanced_of, recognized_update, store_recognized, announce,
  store_and_announce, attribute_chunk, recognize_chunk, process_stt, enhance_segment, enhance_all,
  enhance_meeting, process_enhancer,
}

-- The meeting is stored.
abbrev pub HasMeeting : {W : Type 0} → String → Db W → Type 0
HasMeeting {W} id db = (m : Meeting W) × (get_meeting id db.meetings ≡ some m)

module _ {W : Type 0} ⦃f : Floats W⦄ (io : Io W) (cfg : PipelineSettings W) where
  pub get-saved :
      (id : String) (m : Meeting W) (ms : List (Meeting W))
      → m.id ≡ id
      → get_meeting id (save_meeting m ms) ≡ some m
  get-saved id m ms same = get-save_meeting m ms id ∙ rw same (rw (eq_refl id) refl)

  store_recognized-HasMeeting :
      (seg : TranscriptSegment)
      → Leaves io (HasMeeting seg.meeting_id) (store_recognized io cfg seg)
  unfolding store_recognized
  store_recognized-HasMeeting seg s a h =
      let (m, ms) =
        ensure_meeting {W = W} (io.utcnow s.world) seg.meeting_id
          (("source", string "auto_worker_stt") ∷ []) s.db.meetings in
      (
        record m { status = processing },
        get-saved seg.meeting_id (record m { status = processing }) ms
            (ensure_meeting-id (io.utcnow s.world) seg.meeting_id _ s.db.meetings),
      )

  store_and_announce-HasMeeting :
      (id : String) (chunk_seq : ℕ) (res : SttResult) (speaker : Value)
      → Leaves io (HasMeeting id) (store_and_announce io cfg id chunk_seq res speaker)
  unfolding enqueue_enhancer
  store_and_announce-HasMeeting id chunk_seq res speaker =
      let seg = segment_of id chunk_seq speaker res.text res.text res.confidence in
      Leaves-bind io (HasMeeting id) (with_session io (store_recognized io cfg seg))
        (λ _. announce io cfg id chunk_seq res speaker)
        (with_session-Leaves io (HasMeeting id) (store_recognized io cfg seg)
          (store_recognized-HasMeeting seg))
        (λ _.
          bind-Keeps io
            (call io (io.publish (channel id) (recognized_update io cfg id chunk_seq res speaker)))
            (λ _. enqueue_enhancer io id) (λ s. refl) (λ _ s. refl))

  pub process_stt-HasMeeting :
      (id : String) (chunk_seq : ℕ) (blob_key : String)
      → Leaves io (HasMeeting id) (process_stt io cfg id chunk_seq blob_key)
  unfolding process_stt
  process_stt-HasMeeting id chunk_seq blob_key =
      bind-Leaves io (HasMeeting id) (call io (io.get_bytes blob_key))
        (recognize_chunk io cfg id chunk_seq)
        λ audio.
          bind-Leaves io (HasMeeting id) (call io (io.transcribe audio))
            (attribute_chunk io cfg id chunk_seq audio)
            λ res.
              bind-Leaves io (HasMeeting id) (call io (io.resolve_speaker res chunk_seq id audio))
                (store_and_announce io cfg id chunk_seq res)
                (store_and_announce-HasMeeting id chunk_seq res)

  -- The enhancer changes no meeting.
  enhance_segment-Leads :
      (P : List (Meeting W) → Type 0) (id : String) (seg : TranscriptSegment)
      → Leads io (λ db. P db.meetings) (enhance_segment io cfg id seg) (λ db. P db.meetings)
  unfolding enhance_segment
  enhance_segment-Leads P id seg s a p h =
      elim (Bool-cases (enhanced_of io cfg seg == seg.enhanced_text)) [
        | inl e ↦ rw e p
        | inr e ↦ rw e p
      ]

  enhance_all-Leads :
      (P : List (Meeting W) → Type 0) (id : String) (segs : List TranscriptSegment)
      → Leads io (λ db. P db.meetings) (enhance_all io cfg id segs) (λ db. P db.meetings)
  unfolding enhance_all
  enhance_all-Leads P id [] = λ s a p h. p
  enhance_all-Leads P id (seg ∷ segs) =
      bind-Leads io (λ db. P db.meetings) (λ db. P db.meetings) (λ db. P db.meetings)
        (enhance_segment io cfg id seg) (λ _. enhance_all io cfg id segs)
        (enhance_segment-Leads P id seg) (λ _. enhance_all-Leads P id segs)

  pub process_enhancer-Leads :
      (id : String) → Leads io (HasMeeting id) (process_enhancer io cfg id) (HasMeeting id)
  unfolding process_enhancer enhance_meeting enqueue_analytics
  process_enhancer-Leads id =
      bind-Leads io (HasMeeting id) (HasMeeting id) (HasMeeting id)
        (with_session io (enhance_meeting io cfg id)) (λ _. enqueue_analytics io id)
        (with_session-Leads io (HasMeeting id) (HasMeeting id) (enhance_meeting io cfg id) (λ s.
          enhance_all-Leads (λ ms. (m : Meeting W) × (get_meeting id ms ≡ some m)) id
            (list_by_meeting id s.db.segments) s))
        (λ _ s a p h. p)
