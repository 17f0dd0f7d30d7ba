-- ===== src/Pipeline/Inline/Laws.antt =====
-- What `process_chunk_inline` of services/local_pipeline.py leaves in the database.
use interview_analytics_agen.Common.{
  ℕ, String, not, Option, none, some, List, [], ◌∷◌, if◌then◌else◌, is_empty, strip, ◌≡◌, refl, sym,
  ap, ◌∙◌, eq_refl, Bool-cases, inl, inr,
}
use interview_analytics_agen.Common.Exec.{ok, ◌>>◌, pure, bind_ok, ok_injective}
use interview_analytics_agen.Common.Value.{Value}
use interview_analytics_agen.Common.Floats.{Floats}
use interview_analytics_agen.Domain.{done}
use interview_analytics_agen.Processing.Transcript.{
  TranscriptSegment, enhance_text, build_raw_transcript, build_enhanced_transcript,
}
use interview_analytics_agen.Processing.Report.{JudgedReport}
use interview_analytics_agen.Pipeline.Store.{Meeting, Db, upsert_segment, visible, list_by_meeting}
use interview_analytics_agen.Pipeline.Store.Laws.{get-save_meeting, ensure_meeting-id}
use interview_analytics_agen.Pipeline.Store.Seen.{is_stored, visible-upsert, visible-start}
use interview_analytics_agen.Pipeline.Io.{
  SttResult, Update, PipelineSettings, Io, State, call, with_session,
}
use interview_analytics_agen.Pipeline.Reported.{IsReportedOn}
use interview_analytics_agen.Pipeline.Leaves.{
  Keeps, Leads, bind-Keeps, bind-Leads, Keeps-Leads, with_session-Leads,
}
use interview_analytics_agen.Pipeline.Workers.{make_report, with_report, segment_of}
use interview_analytics_agen.Pipeline.Inline.{
  audio_of, process_audio, attribute, store_spoken, after_stored, update_of, store_chunk,
  put_and_report, report_chunk, save_reported, ensure_here, put_if, process_chunk_inline,
}

-- The rows that the report is of: those that are stored after the call where the key was stored
-- before it, and otherwise those that were stored before it.
abbrev pub reported_rows :
    String → ℕ → List TranscriptSegment → List TranscriptSegment → List TranscriptSegment
reported_rows id seq before after = if is_stored id seq before then after else before

abbrev pub IsReportedSince : {W : Type 0} → String → ℕ → List TranscriptSegment → Db W → Type 0
IsReportedSince id seq before db =
    IsReportedOn done id (list_by_meeting id (reported_rows id seq before db.segments)) db

reported_rows-same :
    (id : String) (seq : ℕ) (rows : List TranscriptSegment) → rows ≡ reported_rows id seq rows rows
reported_rows-same id seq rows = elim (Bool-cases (is_stored id seq rows)) [
  | inl e ↦ rw e refl
  | inr e ↦ rw e refl
]

module _ {W : Type 0} ⦃f : Floats W⦄ (io : Io W) (cfg : PipelineSettings W) where
  report_chunk-IsReportedSince :
      (id : String) (seq : ℕ) (before : List TranscriptSegment) (m : Meeting W) (s : State io)
      (made : String × String × JudgedReport W)
      → m.id ≡ id
      → visible before s.db.segments ≡ reported_rows id seq before s.db.segments
      → (report_chunk io cfg id before m s).0 ≡ ok made
      → IsReportedSince id seq before (report_chunk io cfg id before m s).1.db
  unfolding report_chunk
  report_chunk-IsReportedSince id seq before m s made same found h =
      let segs = list_by_meeting id (visible before s.db.segments) in
      let (report, _, ran) =
        bind_ok (make_report io cfg (build_enhanced_transcript segs) m.context segs)
          (save_reported io cfg id m segs) s made h in
      let stored =
        with_report io cfg done (build_raw_transcript segs) (build_enhanced_transcript segs) report
          m in
      rw ran (
        rw (← found) (
          stored,
          get-save_meeting stored s.db.meetings id ∙ rw same (rw (eq_refl id) refl),
          refl,
          refl,
          refl,
          (report, refl),
        ))

  put_and_report-IsReportedSince :
      (id : String) (seg : TranscriptSegment) (m : Meeting W) (s : State io)
      (made : String × String × JudgedReport W)
      → seg.meeting_id ≡ id
      → m.id ≡ id
      → (put_and_report io cfg id seg s.db.segments m s).0 ≡ ok made
      → IsReportedSince id seg.seq s.db.segments
          (put_and_report io cfg id seg s.db.segments m s).1.db
  put_and_report-IsReportedSince id seg m s made here same h =
      let rows = s.db.segments in
      elim (Bool-cases (is_empty seg.raw_text)) [
        | inl e ↦
            let ran = ap (λ b. (put_if io cfg (not b) seg >> report_chunk io cfg id rows m) s) e in
            rw ran (
              report_chunk-IsReportedSince id seg.seq rows m s made same
                (visible-start rows ∙ reported_rows-same id seg.seq rows)
                (ap (λ x. x.0) (sym ran) ∙ h))
        | inr e ↦
            let ran = ap (λ b. (put_if io cfg (not b) seg >> report_chunk io cfg id rows m) s) e in
            let put : State io = record s {
              db = record s.db { segments = upsert_segment seg rows };
            } in
            rw ran (
              report_chunk-IsReportedSince id seg.seq rows m put made same
                (rw (← here) (visible-upsert seg rows)) (ap (λ x. x.0) (sym ran) ∙ h))
      ]

  ensure_here-id :
      (id : String) (s : State io) (m : Meeting W) → (ensure_here io cfg id s).0 ≡ ok m → m.id ≡ id
  unfolding ensure_here
  ensure_here-id id s m h =
      rw (← ok_injective h) (ensure_meeting-id (io.utcnow s.world) id _ s.db.meetings)

  ensure_here-segments :
      (id : String) (s : State io) → (ensure_here io cfg id s).1.db.segments ≡ s.db.segments
  unfolding ensure_here
  ensure_here-segments id s = refl

  store_chunk-IsReportedSince :
      (id : String) (seg : TranscriptSegment) (s : State io)
      (made : String × String × JudgedReport W)
      → seg.meeting_id ≡ id
      → (store_chunk io cfg id seg s).0 ≡ ok made
      → IsReportedSince id seg.seq s.db.segments (store_chunk io cfg id seg s).1.db
  unfolding store_chunk
  store_chunk-IsReportedSince id seg s made here h =
      let (m, e, ran) =
        bind_ok (ensure_here io cfg id) (put_and_report io cfg id seg s.db.segments) s made h in
      let s' = (ensure_here io cfg id s).1 in
      let same = ensure_here-segments id s in
      rw ran (
        rw (← same) (
          put_and_report-IsReportedSince id seg m s' made here (ensure_here-id id s m e)
            (rw same (ap (λ x. x.0) (sym ran) ∙ h))))

  module _ (id : String) (seq : ℕ) (before : List TranscriptSegment) where
    -- Before the session the segments are those of the start.
    abbrev AtStart : Db W → Type 0
    AtStart db = db.segments ≡ before

    abbrev Since : Db W → Type 0
    Since = IsReportedSince id seq before

    session-Leads :
        (seg : TranscriptSegment)
        → seg.meeting_id ≡ id
        → seg.seq ≡ seq
        → Leads io AtStart (store_chunk io cfg id seg) Since
    session-Leads seg here there s made p h =
        rw (← p) (rw (← there) (store_chunk-IsReportedSince id seg s made here h))

    after_stored-Keeps :
        (seg : TranscriptSegment) (applied : List String) (made : String × String × JudgedReport W)
        → Keeps io (after_stored io cfg seg applied made)
    after_stored-Keeps seg applied made =
        bind-Keeps io (call io (io.write_report_artifacts seg.meeting_id made.0 made.1 made.2))
          (λ _. pure (if is_empty seg.raw_text then [] else update_of io cfg seg applied ∷ []))
          (λ s. refl) (λ _ s. refl)

    store_spoken-Leads :
        (res : SttResult) (speaker : Value)
        → Leads io AtStart (store_spoken io cfg id seq res speaker) Since
    store_spoken-Leads res speaker =
        let raw_text = strip res.text in
        let enhanced = enhance_text io.regex cfg.pii_masking raw_text in
        let seg = segment_of id seq speaker raw_text enhanced.0 res.confidence in
        bind-Leads io AtStart Since Since (with_session io (store_chunk io cfg id seg))
          (after_stored io cfg seg enhanced.1)
          (with_session-Leads io AtStart Since (store_chunk io cfg id seg)
            (session-Leads seg refl refl))
          (λ made.
            Keeps-Leads io Since (after_stored io cfg seg enhanced.1 made)
              (after_stored-Keeps seg enhanced.1 made))

    audio_of-Keeps :
        (audio : Option io.Bytes) (blob_key : String) → Keeps io (audio_of io cfg audio blob_key)
    unfolding audio_of
    audio_of-Keeps (some audio) blob_key s = refl
    audio_of-Keeps none blob_key s = elim (Bool-cases (is_empty blob_key)) [
      | inl e ↦ rw e refl
      | inr e ↦ rw e refl
    ]

    process_chunk-Leads :
        (audio : Option io.Bytes) (blob_key : String)
        → Leads io AtStart (process_chunk_inline io cfg id seq audio blob_key) Since
    unfolding process_chunk_inline
    process_chunk-Leads audio blob_key =
        bind-Leads io AtStart AtStart Since (audio_of io cfg audio blob_key)
          (process_audio io cfg id seq)
          (Keeps-Leads io AtStart (audio_of io cfg audio blob_key) (audio_of-Keeps audio blob_key))
          λ bytes.
            bind-Leads io AtStart AtStart Since (call io (io.transcribe bytes))
              (attribute io cfg id seq bytes)
              (Keeps-Leads io AtStart (call io (io.transcribe bytes)) (λ s. refl))
              λ res.
                bind-Leads io AtStart AtStart Since (call io (io.resolve_speaker res seq id bytes))
                  (store_spoken io cfg id seq res)
                  (Keeps-Leads io AtStart (call io (io.resolve_speaker res seq id bytes))
                    (λ s. refl))
                  (store_spoken-Leads res)

  -- Where the inline pipeline returned from a chunk, the meeting is done, has a report, and its stored
  -- transcripts are those of its segments: of those stored after the call where a segment with the
  -- chunk's key was stored before it, and of those stored before the call, without the chunk's own
  -- text, where none was.
  pub inline-IsReportedSince :
      (id : String) (chunk_seq : ℕ) (audio : Option io.Bytes) (blob_key : String) (s : State io)
      (updates : List (Update W))
      → (process_chunk_inline io cfg id chunk_seq audio blob_key s).0 ≡ ok updates
      → IsReportedOn done id
          (list_by_meeting id (
            reported_rows id chunk_seq s.db.segments
              (process_chunk_inline io cfg id chunk_seq audio blob_key s).1.db.segments))
          (process_chunk_inline io cfg id chunk_seq audio blob_key s).1.db
  inline-IsReportedSince id chunk_seq audio blob_key s updates h =
      process_chunk-Leads id chunk_seq s.db.segments audio blob_key s updates refl h
