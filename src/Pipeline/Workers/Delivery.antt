-- ===== src/Pipeline/Workers/Delivery.antt =====
-- What apps/worker_delivery does with the task of a meeting.
use interview_analytics_agen.Common.{
  String, Bool, true, false, ◌&&◌, not, Option, none, some, List, [], ◌∷◌, ◌++◌, ◌==◌, is_empty,
  strip, if◌then◌else◌,
}
use interview_analytics_agen.Common.Exec.{◌>>=◌, ◌>>◌, pure}
use interview_analytics_agen.Common.Value.{Value, get, truthy}
use interview_analytics_agen.Common.Floats.{Floats}
use interview_analytics_agen.Domain.{done}
use interview_analytics_agen.Processing.Report.{JudgedReport}
use interview_analytics_agen.Pipeline.Store.{Meeting, get_meeting, save_meeting}
use interview_analytics_agen.Pipeline.Io.{
  Mail, PipelineSettings, Io, M, call, read_db, with_session,
}
use interview_analytics_agen.Pipeline.Tasks.{enqueue_retention}
use interview_analytics_agen.Pipeline.Workers.{context_of, put_meeting}

-- `_build_transcript_attachments`, without the MIME type, which is always text/plain.
unfoldable pub build_transcript_attachments : String → String → List (String × String)
unfolding strip
build_transcript_attachments raw enhanced =
    (if is_empty (strip raw) then [] else ("raw_transcript.txt", raw) ∷ [])
    ++ (if is_empty (strip enhanced) then [] else ("enhanced_transcript.txt", enhanced) ∷ [])

module _ {W : Type 0} ⦃f : Floats W⦄ (io : Io W) (cfg : PipelineSettings W) where
  abbrev pub mark_done : Option (Meeting W) → M io (Unit {0})
  mark_done none = pure tt
  mark_done (some m) = put_meeting io cfg (record m { status = done })

  abbrev pub report_of : Option (Meeting W) → Option (JudgedReport W)
  report_of none = none
  report_of (some m) = m.report

  abbrev pub raw_of : Option (Meeting W) → String
  raw_of none = ""
  raw_of (some m) = m.raw_transcript

  abbrev pub clean_of : Option (Meeting W) → String
  clean_of none = ""
  clean_of (some m) = m.enhanced_transcript

  -- Whether worker_delivery sends a mail.
  unfoldable pub sends_mail : Value → Bool
  sends_mail recipients =
      not cfg.delivery_manual_mode_only && (cfg.delivery_provider == "email" && truthy recipients)

  abbrev pub send_if : Bool → Mail → M io (Unit {0})
  send_if false mail = pure tt
  send_if true mail = call io (io.send_report mail)

  -- worker_delivery, on the meeting: the mail and the status.
  abbrev pub send_and_mark : String → Option (Meeting W) → String × String → M io (Unit {0})
  send_and_mark meeting_id m bodies = do
    send_if (sends_mail (get (context_of io cfg m) "recipients")) (record {
      meeting_id = meeting_id;
      recipients = get (context_of io cfg m) "recipients";
      html_body = bodies.0;
      text_body = bodies.1;
      attachments = build_transcript_attachments (raw_of m) (clean_of m);
    })
    mark_done m

  -- The body of its session.
  unfoldable pub deliver : String → M io (Unit {0})
  unfolding get_meeting get strip build_transcript_attachments sends_mail save_meeting
  deliver meeting_id = do
    db ← read_db io
    let m = get_meeting meeting_id db.meetings
    bodies ← call io (
        io.render meeting_id (report_of m) (not (is_empty (strip (raw_of m))))
          (not (is_empty (strip (clean_of m)))))
    send_and_mark meeting_id m bodies

  unfoldable pub process_delivery : String → M io (Unit {0})
  unfolding with_session deliver enqueue_retention
  process_delivery meeting_id = do
    with_session io (deliver meeting_id)
    enqueue_retention io "meeting" meeting_id "delivered_or_skipped"
