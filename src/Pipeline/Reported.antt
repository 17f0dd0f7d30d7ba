-- ===== src/Pipeline/Reported.antt =====
-- What the pipeline is to leave in the database, in either of its forms.
use interview_analytics_agen.Common.{String, some, List, ◌≡◌}
use interview_analytics_agen.Domain.{PipelineStatus}
use interview_analytics_agen.Processing.Transcript.{
  TranscriptSegment, build_raw_transcript, build_enhanced_transcript,
}
use interview_analytics_agen.Processing.Report.{JudgedReport}
use interview_analytics_agen.Pipeline.Store.{Meeting, Db, get_meeting, list_by_meeting}

-- The meeting has the status, its report is there, and its transcripts are those of the segments.
abbrev pub IsReportedOn :
    {W : Type 0} → PipelineStatus → String → List TranscriptSegment → Db W → Type 0
IsReportedOn {W} status id segs db =
    (m : Meeting W) × (get_meeting id db.meetings ≡ some m)
    × (m.status ≡ status)
    × (m.raw_transcript ≡ build_raw_transcript segs)
    × (m.enhanced_transcript ≡ build_enhanced_transcript segs)
    × ((r : JudgedReport W) × (m.report ≡ some r))

-- The segments are all those that are stored of the meeting.
abbrev pub IsReported : {W : Type 0} → PipelineStatus → String → Db W → Type 0
IsReported status id db = IsReportedOn status id (list_by_meeting id db.segments) db
