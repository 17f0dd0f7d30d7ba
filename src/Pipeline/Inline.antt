-- ===== src/Pipeline/Inline.antt =====
-- src/interview_analytics_agent/services/local_pipeline.py: `process_chunk_inline`, the pipeline in
-- one call. The warm-up of the recognition is left out.
pub mod Laws
use interview_analytics_agen.Common.{
  ℕ, String, Bool, true, false, not, Option, none, some, List, [], ◌∷◌, is_empty, strip,
  if◌then◌else◌,
}
use interview_analytics_agen.Common.Exec.{Result, ok, raised, ◌>>=◌, ◌>>◌, pure, raise}
use interview_analytics_agen.Common.Value.{Value, null, string}
use interview_analytics_agen.Common.Floats.{Floats}
use interview_analytics_agen.Domain.{done}
use interview_analytics_agen.Processing.Transcript.{
  TranscriptSegment, enhance_text, build_raw_transcript, build_enhanced_transcript,
}
use interview_analytics_agen.Processing.Quality.{quality_score}
use interview_analytics_agen.Processing.Report.{JudgedReport}
use interview_analytics_agen.Pipeline.Store.{
  Meeting, Db, save_meeting, ensure_meeting, visible, list_by_meeting,
}
use interview_analytics_agen.Pipeline.Io.{
  Exc, value_error, SttResult, Update, PipelineSettings, Io, M, call, read_db, change_db,
  with_session,
}
use interview_analytics_agen.Pipeline.Workers.{
  segment_of, put_segment, put_meeting, make_report, with_report,
}

module _ {W : Type 0} ⦃f : Floats W⦄ (io : Io W) (cfg : PipelineSettings W) where
  -- The audio that is given, or the one that is stored under the key.
  unfoldable pub audio_of : Option io.Bytes → String → M io io.Bytes
  audio_of (some audio) blob_key = pure audio
  audio_of none blob_key =
      if is_empty blob_key
      then raise (value_error "audio_bytes or blob_key required")
      else call io (io.get_bytes blob_key)

  abbrev pub put_if : Bool → TranscriptSegment → M io (Unit {0})
  put_if false seg = pure tt
  put_if true seg = put_segment io cfg seg

  -- `meeting = mrepo.ensure(...)`
  unfoldable pub ensure_here : String → M io (Meeting W)
  unfolding ensure_meeting
  ensure_here meeting_id s =
      let (m, ms) =
        ensure_meeting {W = W} (io.utcnow s.world) meeting_id
          (("source", string "inline_pipeline") ∷ []) s.db.meetings in
      (ok m, record s { db = record s.db { meetings = ms } })

  -- The rest of the session's body, on the meeting: both transcripts and the report.
  abbrev pub save_reported :
      String
      → Meeting W
      → List TranscriptSegment
      → JudgedReport W
      → M io (String × String × JudgedReport W)
  save_reported meeting_id m segs report = do
    let raw = build_raw_transcript segs
    let enhanced = build_enhanced_transcript segs
    put_meeting io cfg (with_report io cfg done raw enhanced report m)
    pure (raw, enhanced, report)

  -- The rows are those that a query finds before the commit.
  unfoldable pub report_chunk :
      String → List TranscriptSegment → Meeting W → M io (String × String × JudgedReport W)
  unfolding visible list_by_meeting build_raw_transcript build_enhanced_transcript make_report
      save_meeting
  report_chunk meeting_id at_start m = do
    db ← read_db io
    let segs = list_by_meeting meeting_id (visible at_start db.segments)
    report ← make_report io cfg (build_enhanced_transcript segs) m.context segs
    save_reported meeting_id m segs report

  abbrev pub put_and_report :
      String
      → TranscriptSegment
      → List TranscriptSegment
      → Meeting W
      → M io (String × String × JudgedReport W)
  put_and_report meeting_id seg at_start m = do
    put_if (not (is_empty seg.raw_text)) seg
    report_chunk meeting_id at_start m

  -- The body of the session.
  unfoldable pub store_chunk : String → TranscriptSegment → M io (String × String × JudgedReport W)
  unfolding ensure_here report_chunk
  store_chunk meeting_id seg = do
    at_start ← read_db io
    m ← ensure_here meeting_id
    put_and_report meeting_id seg at_start.segments m

  abbrev pub update_of : TranscriptSegment → List String → Update W
  update_of seg applied = record {
    meeting_id = seg.meeting_id;
    seq = seg.seq;
    speaker = seg.speaker;
    raw_text = seg.raw_text;
    enhanced_text = seg.enhanced_text;
    confidence = seg.confidence;
    quality = some (quality_score seg.raw_text seg.enhanced_text);
    applied = some applied;
  }

  -- What follows the session: the files of the report, and the update for the caller.
  abbrev pub after_stored :
      TranscriptSegment → List String → String × String × JudgedReport W → M io (List (Update W))
  after_stored seg applied made = do
    call io (io.write_report_artifacts seg.meeting_id made.0 made.1 made.2)
    pure (if is_empty seg.raw_text then [] else update_of seg applied ∷ [])

  -- What follows the recognition, from the speaker on.
  abbrev pub store_spoken : String → ℕ → SttResult → Value → M io (List (Update W))
  store_spoken meeting_id chunk_seq res speaker = do
    let raw_text = strip res.text
    let (enhanced_text, applied) = enhance_text io.regex cfg.pii_masking raw_text
    let seg = segment_of meeting_id chunk_seq speaker raw_text enhanced_text res.confidence
    made ← with_session io (store_chunk meeting_id seg)
    after_stored seg applied made

  abbrev pub attribute : String → ℕ → io.Bytes → SttResult → M io (List (Update W))
  attribute meeting_id chunk_seq audio res = do
    speaker ← call io (io.resolve_speaker res chunk_seq meeting_id audio)
    store_spoken meeting_id chunk_seq res speaker

  abbrev pub process_audio : String → ℕ → io.Bytes → M io (List (Update W))
  process_audio meeting_id chunk_seq audio = do
    res ← call io (io.transcribe audio)
    attribute meeting_id chunk_seq audio res

  unfoldable pub process_chunk_inline :
      String → ℕ → Option io.Bytes → String → M io (List (Update W))
  unfolding audio_of store_chunk with_session enhance_text quality_score strip
  process_chunk_inline meeting_id chunk_seq audio_bytes blob_key = do
    audio ← audio_of audio_bytes blob_key
    process_audio meeting_id chunk_seq audio
