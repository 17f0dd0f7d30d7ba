-- ===== src/Pipeline/Tasks.antt =====
-- src/interview_analytics_agent/queue/dispatcher.py and services/pipeline_service.py: the tasks for
-- the queues, and which one follows a stage. `enqueue_stt` is in Ingest/Chunks.
pub mod Laws
use interview_analytics_agen.Common.{String, Option, none, some}
use interview_analytics_agen.Common.Exec.{Result, ok, raised, ◌>>=◌, ◌>>◌, pure}
use interview_analytics_agen.Domain.{
  PipelineStage, stt, enhancer, analytics, delivery, retention, done, transition,
}
use interview_analytics_agen.Pipeline.Io.{Io, M, State, call, Task, meeting_task, entity_task}

module _ {W : Type 0} (io : Io W) where
  -- `new_event_id` never raises.
  abbrev pub event_id : String → M io String
  event_id prefix s = let (e, w) = io.new_event_id prefix s.world in (ok e, record s { world = w })

  abbrev pub enqueue_task : String → String → String → M io (Unit {0})
  enqueue_task queue prefix meeting_id = do
    e ← event_id prefix
    call io (io.enqueue queue (meeting_task e meeting_id))

  unfoldable pub enqueue_enhancer : String → M io (Unit {0})
  enqueue_enhancer = enqueue_task "q:enhancer" "enh"

  unfoldable pub enqueue_analytics : String → M io (Unit {0})
  enqueue_analytics = enqueue_task "q:analytics" "anl"

  unfoldable pub enqueue_delivery : String → M io (Unit {0})
  enqueue_delivery = enqueue_task "q:delivery" "dlv"

  unfoldable pub enqueue_retention : String → String → String → M io (Unit {0})
  enqueue_retention entity_type entity_id reason = do
    e ← event_id "ret"
    call io (io.enqueue "q:retention" (entity_task e entity_type entity_id reason))

  -- What follows the stage that `transition` gives.
  abbrev enqueue_next : String → Option PipelineStage → M io (Unit {0})
  enqueue_next meeting_id none = enqueue_retention "meeting" meeting_id "pipeline_done"
  enqueue_next meeting_id (some stt) = pure tt
  enqueue_next meeting_id (some enhancer) = enqueue_enhancer meeting_id
  enqueue_next meeting_id (some analytics) = enqueue_analytics meeting_id
  enqueue_next meeting_id (some delivery) = enqueue_delivery meeting_id
  enqueue_next meeting_id (some retention) = enqueue_retention "meeting" meeting_id "pipeline_done"

  unfoldable pub on_stage_finished : String → PipelineStage → M io (Unit {0})
  unfolding transition enqueue_enhancer enqueue_analytics enqueue_delivery enqueue_retention
  on_stage_finished meeting_id stage = enqueue_next meeting_id (transition stage done).next_stage
