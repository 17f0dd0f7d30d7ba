-- ===== src/Pipeline/Tasks/Laws.antt =====
-- The tasks that follow one another, against domain/state_machine.py.
use interview_analytics_agen.Common.{String, ◌≡◌, refl}
use interview_analytics_agen.Common.Exec.{◌>>=◌, ◌>>◌}
use interview_analytics_agen.Common.Floats.{Floats}
use interview_analytics_agen.Domain.{enhancer, analytics, delivery}
use interview_analytics_agen.Pipeline.Io.{PipelineSettings, Io, call, with_session}
use interview_analytics_agen.Pipeline.Tasks.{on_stage_finished, enqueue_retention}
use interview_analytics_agen.Pipeline.Workers.{
  enhance_meeting, process_enhancer, analyze, process_analytics,
}
use interview_analytics_agen.Pipeline.Workers.Delivery.{deliver, process_delivery}

module _ {W : Type 0} ⦃f : Floats W⦄ (io : Io W) (cfg : PipelineSettings W) where
  -- Each worker does its work in one session and then hands the meeting on as the state machine has
  -- it: what the enhancer and the analytics put into a queue is what `on_stage_finished` would put
  -- there, and the delivery ends with the task of the retention, under a reason of its own.
  pub workers_hand_on :
      (id : String)
      → (process_enhancer io cfg id
          ≡ (with_session io (enhance_meeting io cfg id) >> on_stage_finished io id enhancer))
        × (process_analytics io cfg id ≡ (
            with_session io (analyze io cfg id) >>= λ made.
            (call io (io.write_report_artifacts id made.0 made.1 made.2)
              >> on_stage_finished io id analytics)))
        × (process_delivery io cfg id ≡ (
            with_session io (deliver io cfg id)
            >> enqueue_retention io "meeting" id "delivered_or_skipped"))
        × (on_stage_finished io id delivery ≡ enqueue_retention io "meeting" id "pipeline_done")
  unfolding process_enhancer process_analytics process_delivery on_stage_finished
  workers_hand_on id = (refl, refl, refl, refl)
