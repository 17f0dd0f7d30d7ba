-- ===== src/Pipeline/Workers/Chain.antt =====
-- A scenario for the theorems, not a function of the code: the four workers one after the other, on
-- the tasks of one meeting.
use interview_analytics_agen.Common.{
  ℕ, String, Bool, true, false, not, Option, is_empty, strip, ◌≡◌, refl, sym, ap, ◌∙◌,
}
use interview_analytics_agen.Common.Exec.{ok, ◌>>◌, bind_ok}
use interview_analytics_agen.Common.Value.{get}
use interview_analytics_agen.Common.Floats.{Floats}
use interview_analytics_agen.Domain.{processing, done}
use interview_analytics_agen.Processing.Transcript.{build_raw_transcript, build_enhanced_transcript}
use interview_analytics_agen.Pipeline.Store.{Meeting, Db, get_meeting, list_by_meeting}
use interview_analytics_agen.Pipeline.Store.Laws.{get_meeting-id}
use interview_analytics_agen.Pipeline.Io.{Mail, PipelineSettings, Io, M, State, call, with_session}
use interview_analytics_agen.Pipeline.Leaves.{
  Leads, bind-Leads, bind-Keeps, Keeps, with_session-Leads,
}
use interview_analytics_agen.Pipeline.Reported.{IsReported}
use interview_analytics_agen.Pipeline.Tasks.{enqueue_delivery, enqueue_retention}
use interview_analytics_agen.Pipeline.Workers.{
  process_stt, process_enhancer, make_report, context_of, with_report, save_made, analyze,
  after_analysis, process_analytics,
}
use interview_analytics_agen.Pipeline.Workers.Delivery.{
  sends_mail, send_if, mark_done, send_and_mark, deliver, process_delivery,
  build_transcript_attachments, report_of, raw_of, clean_of,
}
use interview_analytics_agen.Pipeline.Workers.Laws.{
  HasMeeting, get-saved, process_stt-HasMeeting, process_enhancer-Leads,
}

module _ {W : Type 0} ⦃f : Floats W⦄ (io : Io W) (cfg : PipelineSettings W) where
  analyze-Leads :
      (id : String) → Leads io (HasMeeting id) (analyze io cfg id) (IsReported processing id)
  unfolding analyze
  analyze-Leads id s made (m, e) h =
      let segs = list_by_meeting id s.db.segments in
      let raw = build_raw_transcript segs in
      let enhanced = build_enhanced_transcript segs in
      let found = get_meeting id s.db.meetings in
      let (report, _, ran) =
        bind_ok (make_report io cfg enhanced (context_of io cfg found) segs)
          (save_made io cfg found raw enhanced) s made h in
      let saved = with_report io cfg processing raw enhanced report m in
      rw ran (
        rw e (
          saved,
          get-saved io cfg id saved s.db.meetings (get_meeting-id s.db.meetings id m e),
          refl,
          refl,
          refl,
          (report, refl),
        ))

  process_analytics-Leads :
      (id : String)
      → Leads io (HasMeeting id) (process_analytics io cfg id) (IsReported processing id)
  unfolding process_analytics enqueue_delivery
  process_analytics-Leads id =
      bind-Leads io (HasMeeting id) (IsReported processing id) (IsReported processing id)
        (with_session io (analyze io cfg id)) (after_analysis io cfg id)
        (with_session-Leads io (HasMeeting id) (IsReported processing id) (analyze io cfg id)
          (analyze-Leads id))
        (λ made s a p h.
          rw
            (bind-Keeps io (call io (io.write_report_artifacts id made.0 made.1 made.2))
              (λ _. enqueue_delivery io id) (λ s. refl) (λ _ s. refl) s)
            p)

  send_if-Keeps : (b : Bool) (mail : Mail) → Keeps io (send_if io cfg b mail)
  send_if-Keeps false mail s = refl
  send_if-Keeps true mail s = refl

  mark_done-IsReported :
      (id : String) (found : Option (Meeting W)) (old : Db W) (s : State io)
      → s.db ≡ old
      → found ≡ get_meeting id old.meetings
      → IsReported processing id old
      → IsReported done id (mark_done io cfg found s).1.db
  mark_done-IsReported id found old s kept here (m, e, was, raw, enhanced, report) =
      let marked : Meeting W = record m { status = done } in
      rw (here ∙ e) (
        rw kept (
          marked,
          get-saved io cfg id marked old.meetings (get_meeting-id old.meetings id m e),
          refl,
          raw,
          enhanced,
          report,
        ))

  deliver-Leads :
      (id : String) → Leads io (IsReported processing id) (deliver io cfg id) (IsReported done id)
  unfolding deliver
  deliver-Leads id s a p h =
      let found = get_meeting id s.db.meetings in
      let rendered = call io (
        io.render id (report_of io cfg found) (not (is_empty (strip (raw_of io cfg found))))
          (not (is_empty (strip (clean_of io cfg found))))) in
      let (bodies, _, ran) = bind_ok rendered (send_and_mark io cfg id found) s a h in
      let recipients = get (context_of io cfg found) "recipients" in
      let mail : Mail = record {
        meeting_id = id;
        recipients = recipients;
        html_body = bodies.0;
        text_body = bodies.1;
        attachments = build_transcript_attachments (raw_of io cfg found) (clean_of io cfg found);
      } in
      let sent = send_if io cfg (sends_mail io cfg recipients) mail in
      let s' = (rendered s).1 in
      let (_, _, ran') =
        bind_ok sent (λ _. mark_done io cfg found) s' a (ap (λ x. x.0) (sym ran) ∙ h) in
      let kept = send_if-Keeps (sends_mail io cfg recipients) mail s' in
      rw (ran ∙ ran') (mark_done-IsReported id found s.db (sent s').1 kept refl p)

  process_delivery-Leads :
      (id : String)
      → Leads io (IsReported processing id) (process_delivery io cfg id) (IsReported done id)
  unfolding process_delivery enqueue_retention
  process_delivery-Leads id =
      bind-Leads io (IsReported processing id) (IsReported done id) (IsReported done id)
        (with_session io (deliver io cfg id))
        (λ _. enqueue_retention io "meeting" id "delivered_or_skipped")
        (with_session-Leads io (IsReported processing id) (IsReported done id) (deliver io cfg id)
          (deliver-Leads id))
        (λ _ s a p h. p)

  -- The tasks of one chunk, each handled by its worker without an exception.
  abbrev pub after_chunk : String → M io (Unit {0})
  after_chunk id = do
    process_enhancer io cfg id
    process_analytics io cfg id
    process_delivery io cfg id

  abbrev pub run_workers : String → ℕ → String → M io (Unit {0})
  run_workers id chunk_seq blob_key = do process_stt io cfg id chunk_seq blob_key; after_chunk id

  -- Where the recognition, the enhancer, the analytics and the delivery have each returned from the
  -- task of a chunk, in this order, the meeting is done, has a report, and its stored transcripts are
  -- those of its stored segments, from any database before.
  pub run_workers-IsReported :
      (id : String) (chunk_seq : ℕ) (blob_key : String) (s : State io)
      → (run_workers id chunk_seq blob_key s).0 ≡ ok tt
      → IsReported done id (run_workers id chunk_seq blob_key s).1.db
  run_workers-IsReported id chunk_seq blob_key s =
      bind-Leads io (λ _. Unit) (HasMeeting id) (IsReported done id)
        (process_stt io cfg id chunk_seq blob_key) (λ _. after_chunk id)
        (λ s a _ h. process_stt-HasMeeting io cfg id chunk_seq blob_key s a h)
        (λ _.
          bind-Leads io (HasMeeting id) (HasMeeting id) (IsReported done id)
            (process_enhancer io cfg id)
            (λ _. process_analytics io cfg id >> process_delivery io cfg id)
            (process_enhancer-Leads io cfg id)
            (λ _.
              bind-Leads io (HasMeeting id) (IsReported processing id) (IsReported done id)
                (process_analytics io cfg id) (λ _. process_delivery io cfg id)
                (process_analytics-Leads id) (λ _. process_delivery-Leads id)))
        s tt tt
