-- ===== src/Pipeline/Workers.antt =====
-- What apps/worker_stt, worker_enhancer and worker_analytics do with the task of a meeting, inside the
-- loop of Queue/Worker; worker_delivery is in Delivery. Logs, metrics and tracing are left out.
pub mod Delivery
pub mod Laws
pub mod Due
pub mod Enhanced
pub mod Chain
pub mod Passed
use interview_analytics_agen.Common.{
  ℕ, String, Bool, true, false, ◌&&◌, not, Option, none, some, List, [], ◌∷◌, ◌++◌, map, ◌==◌,
  is_empty, strip, if◌then◌else◌,
}
use interview_analytics_agen.Common.Exec.{Result, ok, raised, ◌>>=◌, ◌>>◌, pure, raise, lift}
use interview_analytics_agen.Common.Value.{Value, null, string, Dict, get, truthy}
use interview_analytics_agen.Common.Floats.{Floats}
use interview_analytics_agen.Domain.{PipelineStatus, processing, done}
use interview_analytics_agen.Processing.Transcript.{
  TranscriptSegment, enhance_text, build_raw_transcript, build_enhanced_transcript,
}
use interview_analytics_agen.Processing.Evidence.{Segment}
use interview_analytics_agen.Processing.Quality.{quality_score}
use interview_analytics_agen.Processing.Report.{JudgedReport, build_report}
use interview_analytics_agen.Pipeline.Store.{
  Meeting, Db, get_meeting, save_meeting, ensure_meeting, upsert_segment, list_by_meeting,
}
use interview_analytics_agen.Pipeline.Io.{
  Exc, report_failed, SttResult, Update, Mail, PipelineSettings, Io, M, State, call, read_db,
  change_db, with_session,
}
use interview_analytics_agen.Pipeline.Tasks.{
  enqueue_enhancer, enqueue_analytics, enqueue_delivery, enqueue_retention,
}

-- `f"ws:{meeting_id}"`
abbrev pub channel : String → String
channel meeting_id = Prim.Native.String.◌++◌ "ws:" meeting_id

abbrev pub segment_of : String → ℕ → Value → String → String → Value → TranscriptSegment
segment_of meeting_id seq speaker raw enhanced confidence = record {
  meeting_id = meeting_id;
  seq = seq;
  speaker = speaker;
  start_ms = null;
  end_ms = null;
  raw_text = raw;
  enhanced_text = enhanced;
  confidence = confidence;
}

-- A row as the request of a report shows it.
abbrev pub shown : TranscriptSegment → Segment
shown seg = record {
  seq = seg.seq;
  speaker = seg.speaker;
  start_ms = seg.start_ms;
  end_ms = seg.end_ms;
  raw_text = string seg.raw_text;
  enhanced_text = string seg.enhanced_text;
}

module _ {W : Type 0} ⦃f : Floats W⦄ (io : Io W) (cfg : PipelineSettings W) where
  abbrev pub put_segment : TranscriptSegment → M io (Unit {0})
  put_segment seg = change_db io λ db. record db { segments = upsert_segment seg db.segments }

  abbrev pub put_meeting : Meeting W → M io (Unit {0})
  put_meeting m = change_db io λ db. record db { meetings = save_meeting m db.meetings }

  -- worker_stt: the meeting is made where it is missing, and its status set.
  abbrev pub processing_in : ℕ → String → Db W → Db W
  processing_in time meeting_id db = record db {
    meetings =
        (let (m, ms) =
            ensure_meeting time meeting_id (("source", string "auto_worker_stt") ∷ [])
              db.meetings in
          save_meeting (record m { status = processing }) ms);
  }

  abbrev pub start_meeting : String → M io (Unit {0})
  start_meeting meeting_id s = change_db io (processing_in (io.utcnow s.world) meeting_id) s

  unfoldable pub store_recognized : TranscriptSegment → M io (Unit {0})
  unfolding ensure_meeting save_meeting upsert_segment
  store_recognized seg = do start_meeting seg.meeting_id; put_segment seg

  abbrev pub recognized_update : String → ℕ → SttResult → Value → Update W
  recognized_update meeting_id chunk_seq res speaker = record {
    meeting_id = meeting_id;
    seq = chunk_seq;
    speaker = speaker;
    raw_text = res.text;
    enhanced_text = res.text;
    confidence = res.confidence;
    quality = none;
    applied = none;
  }

  -- What follows the session of worker_stt.
  abbrev pub announce : String → ℕ → SttResult → Value → M io (Unit {0})
  announce meeting_id chunk_seq res speaker = do
    call io (io.publish (channel meeting_id) (recognized_update meeting_id chunk_seq res speaker))
    enqueue_enhancer io meeting_id

  abbrev pub store_and_announce : String → ℕ → SttResult → Value → M io (Unit {0})
  store_and_announce meeting_id chunk_seq res speaker = do
    with_session io (
        store_recognized (segment_of meeting_id chunk_seq speaker res.text res.text res.confidence))
    announce meeting_id chunk_seq res speaker

  abbrev pub attribute_chunk : String → ℕ → io.Bytes → SttResult → M io (Unit {0})
  attribute_chunk meeting_id chunk_seq audio res = do
    speaker ← call io (io.resolve_speaker res chunk_seq meeting_id audio)
    store_and_announce meeting_id chunk_seq res speaker

  abbrev pub recognize_chunk : String → ℕ → io.Bytes → M io (Unit {0})
  recognize_chunk meeting_id chunk_seq audio = do
    res ← call io (io.transcribe audio)
    attribute_chunk meeting_id chunk_seq audio res

  unfoldable pub process_stt : String → ℕ → String → M io (Unit {0})
  unfolding with_session store_recognized enqueue_enhancer
  process_stt meeting_id chunk_seq blob_key = do
    audio ← call io (io.get_bytes blob_key)
    recognize_chunk meeting_id chunk_seq audio

  -- worker_enhancer: a segment whose text changes is stored and published.
  abbrev pub enhanced_of : TranscriptSegment → String
  enhanced_of seg = (enhance_text io.regex cfg.pii_masking seg.raw_text).0

  abbrev pub enhanced_update : TranscriptSegment → Update W
  enhanced_update seg = record {
    meeting_id = seg.meeting_id;
    seq = seg.seq;
    speaker = seg.speaker;
    raw_text = seg.raw_text;
    enhanced_text = enhanced_of seg;
    confidence = seg.confidence;
    quality = some (quality_score seg.raw_text (enhanced_of seg));
    applied = some (enhance_text io.regex cfg.pii_masking seg.raw_text).1;
  }

  unfoldable pub enhance_segment : String → TranscriptSegment → M io (Unit {0})
  unfolding enhance_text quality_score upsert_segment
  enhance_segment meeting_id seg = if enhanced_of seg == seg.enhanced_text then pure tt else (do
    put_segment (record seg { enhanced_text = enhanced_of seg })
    call io (io.publish (channel meeting_id) (enhanced_update seg)))

  unfoldable pub enhance_all : String → List TranscriptSegment → M io (Unit {0})
  unfolding enhance_segment
  enhance_all meeting_id [] = pure tt
  enhance_all meeting_id (seg ∷ segs) = do
    enhance_segment meeting_id seg
    enhance_all meeting_id segs

  -- The body of its session.
  unfoldable pub enhance_meeting : String → M io (Unit {0})
  unfolding enhance_all list_by_meeting
  enhance_meeting meeting_id = do
    db ← read_db io
    enhance_all meeting_id (list_by_meeting meeting_id db.segments)

  unfoldable pub process_enhancer : String → M io (Unit {0})
  unfolding with_session enhance_meeting enqueue_analytics
  process_enhancer meeting_id = do
    with_session io (enhance_meeting meeting_id)
    enqueue_analytics io meeting_id

  abbrev report_or_raise : Option (JudgedReport W) → Result Exc (JudgedReport W)
  report_or_raise none = raised report_failed
  report_or_raise (some r) = ok r

  -- `build_report`, with the model and the overrides as they are at the time.
  unfoldable pub make_report : String → Dict → List TranscriptSegment → M io (JudgedReport W)
  unfolding build_report
  make_report transcript context segs s =
      lift
        (report_or_raise (
          build_report W io.regex (io.overrides s.world) cfg.thresholds (io.complete s.world)
            cfg.llm_enabled cfg.openai_api_key transcript context (map shown segs)))
        s

  abbrev pub context_of : Option (Meeting W) → Dict
  context_of none = []
  context_of (some m) = m.context

  abbrev pub with_report : PipelineStatus → String → String → JudgedReport W → Meeting W → Meeting W
  with_report status raw enhanced report m = record m {
    raw_transcript = raw;
    enhanced_transcript = enhanced;
    report = some report;
    status = status;
  }

  abbrev pub save_report : Option (Meeting W) → String → String → JudgedReport W → M io (Unit {0})
  save_report none raw enhanced report = pure tt
  save_report (some m) raw enhanced report =
      put_meeting (with_report processing raw enhanced report m)

  -- Both transcripts and the report, for the files that follow the session.
  abbrev pub save_made :
      Option (Meeting W)
      → String
      → String
      → JudgedReport W
      → M io (String × String × JudgedReport W)
  save_made m raw enhanced report = do
    save_report m raw enhanced report
    pure (raw, enhanced, report)

  -- worker_analytics: the body of its session.
  unfoldable pub analyze : String → M io (String × String × JudgedReport W)
  unfolding get_meeting list_by_meeting build_raw_transcript build_enhanced_transcript make_report
      save_meeting
  analyze meeting_id = do
    db ← read_db io
    let m = get_meeting meeting_id db.meetings
    let segs = list_by_meeting meeting_id db.segments
    report ← make_report (build_enhanced_transcript segs) (context_of m) segs
    save_made m (build_raw_transcript segs) (build_enhanced_transcript segs) report

  abbrev pub after_analysis : String → String × String × JudgedReport W → M io (Unit {0})
  after_analysis meeting_id made = do
    call io (io.write_report_artifacts meeting_id made.0 made.1 made.2)
    enqueue_delivery io meeting_id

  unfoldable pub process_analytics : String → M io (Unit {0})
  unfolding with_session analyze enqueue_delivery
  process_analytics meeting_id = do
    made ← with_session io (analyze meeting_id)
    after_analysis meeting_id made
