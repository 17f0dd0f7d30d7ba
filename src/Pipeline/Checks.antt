-- ===== src/Pipeline/Checks.antt =====
-- Tests of the pipeline over an outside that never raises, and instances of its theorems.
use interview_analytics_agen.Common.{
  String, true, false, none, some, List, [], ◌∷◌, ◌++◌, All, ◌≡◌, refl,
}
use interview_analytics_agen.Common.Exec.{ok}
use interview_analytics_agen.Common.Value.{null, string}
use interview_analytics_agen.Processing.Report.{Answer, absent}
use interview_analytics_agen.Processing.Rubric.{missing}
use interview_analytics_agen.Common.Int.{pos}
use interview_analytics_agen.Processing.Millionths.{Millionths, millionths_floats}
use interview_analytics_agen.Processing.Transcript.{
  mask_pii, mask_step, punct_step, space_step, filler_step,
}
use interview_analytics_agen.Processing.Evidence.{
  collect_evidence, rows_of_segments, rows_of_lines, splitlines, occurs,
}
use interview_analytics_agen.Pipeline.Inline.{process_chunk_inline}
use interview_analytics_agen.Pipeline.Inline.Laws.{reported_rows, inline-IsReportedSince}
use interview_analytics_agen.Pipeline.Reported.{IsReportedOn, IsReported}
use interview_analytics_agen.Domain.{done}
use interview_analytics_agen.Processing.Samples.{one_address, thresholds}
use interview_analytics_agen.Pipeline.Retention.{process_retention}
use interview_analytics_agen.Pipeline.Retention.Laws.{IsSwept, process_retention-IsSwept}
use interview_analytics_agen.Pipeline.Store.{new_meeting, list_by_meeting, upsert_segment}
use interview_analytics_agen.Pipeline.Store.Laws.{HasUniqueKeys}
use interview_analytics_agen.Pipeline.Io.{
  meeting_task, entity_task, SttResult, Update, PipelineSettings, Io, State,
}
use interview_analytics_agen.Pipeline.Workers.{
  process_enhancer, enhanced_of, segment_of, process_stt, process_analytics,
}
use interview_analytics_agen.Pipeline.Workers.Delivery.{process_delivery}
use interview_analytics_agen.Pipeline.Workers.Passed.{IsPassed, workers_pass_on}
use interview_analytics_agen.Pipeline.Workers.Enhanced.{process_enhancer-fresh}
use interview_analytics_agen.Pipeline.Workers.Chain.{run_workers, run_workers-IsReported}

-- The outside keeps the queues that got a task.
abbrev heard : SttResult
heard = record { text = " hi "; speaker = string "Ann"; confidence = null }

abbrev summary_answer : Answer
summary_answer = record {
  summary = string "summary";
  bullets = null;
  risk_flags = absent;
  recommendation = string "";
}

abbrev outside : Io Millionths
outside = record {
  World = List String;
  Bytes = String;
  utcnow = λ w. 8640000000000;
  regex = one_address;
  get_bytes = λ key w. (ok key, w);
  transcribe = λ audio w. (ok heard, w);
  resolve_speaker = λ res seq id audio w. (ok res.speaker, w);
  overrides = λ w. missing;
  complete = λ w p context transcript. some summary_answer;
  new_event_id = λ prefix w. (prefix, w);
  publish = λ channel update w. (ok tt, w);
  enqueue = λ queue task w. (ok tt, w ++ (queue ∷ []));
  write_report_artifacts = λ id raw clean report w. (ok tt, w);
  render = λ id report has_raw has_enhanced w. (ok ("", ""), w);
  send_report = λ mail w. (ok tt, w);
  commit = λ w. (ok tt, w);
}

abbrev settings : PipelineSettings Millionths
settings = record {
  pii_masking = true;
  llm_enabled = false;
  openai_api_key = "";
  delivery_manual_mode_only = false;
  delivery_provider = "email";
  thresholds = thresholds;
  retention_days_text = pos 90;
}

abbrev empty : State outside
empty = record { world = []; db = record { meetings = []; segments = [] } }

abbrev heard_once : State outside
heard_once = record empty {
  db = record {
    meetings = [];
    segments = segment_of "m1" 0 (string "Ann") " hi " " hi " null ∷ [];
  };
}

enhanced_once : (process_enhancer outside settings "m1" heard_once).0 ≡ ok tt
unfolding process_enhancer mask_step mask_pii punct_step space_step filler_step
enhanced_once = refl

process_enhancer-fresh_example :
    HasUniqueKeys (process_enhancer outside settings "m1" heard_once).1.db.segments
    × All
        (λ row. row.enhanced_text ≡ enhanced_of outside settings row)
        (list_by_meeting "m1" (process_enhancer outside settings "m1" heard_once).1.db.segments)
process_enhancer-fresh_example =
    process_enhancer-fresh outside settings "m1" heard_once (tt, tt) enhanced_once

-- The queues of the stages, in their order.
ran_once :
    ((run_workers outside settings "m1" 0 "k" empty).0 ≡ ok tt)
    × ((run_workers outside settings "m1" 0 "k" empty).1.world
        ≡ "q:enhancer" ∷ "q:analytics" ∷ "q:delivery" ∷ "q:retention" ∷ [])
unfolding process_stt process_enhancer process_analytics process_delivery mask_step mask_pii
    punct_step space_step filler_step collect_evidence rows_of_segments occurs
ran_once = (refl, refl)

ran_stt : (process_stt outside settings "m1" 0 "k" empty).0 ≡ ok tt
unfolding process_stt
ran_stt = refl

ran_analytics : (process_analytics outside settings "m1" heard_once).0 ≡ ok tt
unfolding process_analytics mask_step mask_pii punct_step space_step filler_step collect_evidence
    rows_of_segments occurs
ran_analytics = refl

ran_delivery : (process_delivery outside settings "m1" heard_once).0 ≡ ok tt
unfolding process_delivery
ran_delivery = refl

workers_pass_on_example :
    IsPassed outside "q:enhancer"
      (λ event. meeting_task event "m1")
      (process_stt outside settings "m1" 0 "k" empty).1
    × IsPassed outside "q:analytics"
        (λ event. meeting_task event "m1")
        (process_enhancer outside settings "m1" heard_once).1
    × IsPassed outside "q:delivery"
        (λ event. meeting_task event "m1")
        (process_analytics outside settings "m1" heard_once).1
    × IsPassed outside "q:retention"
        (λ event. entity_task event "meeting" "m1" "delivered_or_skipped")
        (process_delivery outside settings "m1" heard_once).1
workers_pass_on_example =
    workers_pass_on outside settings "m1" 0 "k" empty heard_once heard_once heard_once ran_stt
      enhanced_once ran_analytics ran_delivery

run_workers-IsReported_example :
    IsReported done "m1" (run_workers outside settings "m1" 0 "k" empty).1.db
run_workers-IsReported_example = run_workers-IsReported outside settings "m1" 0 "k" empty ran_once.0

-- A meeting of the first day, a hundred days later.
abbrev old_meeting : State outside
old_meeting = record empty {
  db = record {
    meetings = record (new_meeting 0 "m1" []) { raw_transcript = "hi" } ∷ [];
    segments = [];
  };
}

process_retention-IsSwept_example :
    let r = process_retention outside settings old_meeting in
    IsSwept outside settings r.0 (outside.utcnow old_meeting.world) old_meeting.db r.1.db
process_retention-IsSwept_example = process_retention-IsSwept outside settings old_meeting

retained :
    (process_retention outside settings old_meeting).1.db.meetings ≡ new_meeting 0 "m1" [] ∷ []
unfolding process_retention
retained = refl

abbrev answered : List (Update Millionths)
answered =
    record {
      meeting_id = "m1";
      seq = 0;
      speaker = string "Ann";
      raw_text = "hi";
      enhanced_text = "hi.";
      confidence = null;
      quality = some (some 600000);
      applied = some ("final_punct" ∷ []);
    }
    ∷ []

inline_once : (process_chunk_inline outside settings "m1" 0 none "k" empty).0 ≡ ok answered
unfolding process_chunk_inline upsert_segment mask_step mask_pii punct_step space_step filler_step
    collect_evidence rows_of_segments rows_of_lines splitlines occurs
inline_once = refl

inline-IsReportedSince_example :
    IsReportedOn done "m1"
      (list_by_meeting "m1" (
        reported_rows "m1" 0 []
          (process_chunk_inline outside settings "m1" 0 none "k" empty).1.db.segments))
      (process_chunk_inline outside settings "m1" 0 none "k" empty).1.db
inline-IsReportedSince_example =
    inline-IsReportedSince outside settings "m1" 0 none "k" empty answered inline_once
