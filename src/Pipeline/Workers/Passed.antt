-- ===== src/Pipeline/Workers/Passed.antt =====
-- Which task each worker of apps/ leaves for the next one, by way of queue/dispatcher.py.
use interview_analytics_agen.Common.{ℕ, String, ◌≡◌, sym, ap, ◌∙◌}
use interview_analytics_agen.Common.Exec.{Result, ok, ◌>>=◌, bind_ok}
use interview_analytics_agen.Common.Value.{Value}
use interview_analytics_agen.Common.Floats.{Floats}
use interview_analytics_agen.Pipeline.Io.{
  Exc, SttResult, PipelineSettings, Io, M, State, call, Task, meeting_task, entity_task,
  with_session,
}
use interview_analytics_agen.Pipeline.Tasks.{
  event_id, enqueue_task, enqueue_enhancer, enqueue_analytics, enqueue_delivery, enqueue_retention,
}
use interview_analytics_agen.Pipeline.Workers.{
  channel, segment_of, recognized_update, store_recognized, announce, store_and_announce,
  attribute_chunk, recognize_chunk, process_stt, enhance_meeting, process_enhancer, analyze,
  after_analysis, process_analytics,
}
use interview_analytics_agen.Pipeline.Workers.Delivery.{deliver, process_delivery}

module _ {W : Type 0} (io : Io W) where
  -- The last call to the outside put a task on a queue, which took it.
  abbrev pub IsPassed : String → (String → Task) → State io → Type 0
  IsPassed queue task after =
      (event : String) × (w : io.World) × (io.enqueue queue (task event) w ≡ (ok tt, after.world))

  abbrev Passes : String → (String → Task) → M io (Unit {0}) → Type 0
  Passes queue task m = (s : State io) → (m s).0 ≡ ok tt → IsPassed queue task (m s).1

  enqueue-Passes :
      (queue event : String) (task : String → Task)
      → Passes queue task (call io (io.enqueue queue (task event)))
  enqueue-Passes queue event task s h =
      let put : Result Exc (Unit {0}) → Result Exc (Unit {0}) × io.World =
        λ r. (r, (io.enqueue queue (task event) s.world).1) in
      (event, s.world, ap put h)

  bind-Passes :
      {A : Type 0} (queue : String) (task : String → Task) (m : M io A) (f : A → M io (Unit {0}))
      → ((a : A) → Passes queue task (f a))
      → Passes queue task (m >>= f)
  bind-Passes queue task m f hf s h =
      let (a, got, step) = bind_ok m f s tt h in
      let (event, w, put) = hf a (m s).1 (ap (λ x. x.0) (sym step) ∙ h) in
      (event, w, put ∙ ap (λ x. (ok tt, x.1.world)) (sym step))

  enqueue_task-Passes :
      (queue prefix meeting_id : String)
      → Passes queue
          (λ event. meeting_task event meeting_id)
          (enqueue_task io queue prefix meeting_id)
  enqueue_task-Passes queue prefix meeting_id =
      bind-Passes queue (λ event. meeting_task event meeting_id) (event_id io prefix)
        (λ e. call io (io.enqueue queue (meeting_task e meeting_id)))
        λ e. enqueue-Passes queue e (λ event. meeting_task event meeting_id)

  module _ ⦃f : Floats W⦄ (cfg : PipelineSettings W) where
    announce-Passes :
        (id : String) (chunk_seq : ℕ) (res : SttResult) (speaker : Value)
        → Passes "q:enhancer"
            (λ event. meeting_task event id)
            (store_and_announce io cfg id chunk_seq res speaker)
    unfolding enqueue_enhancer
    announce-Passes id chunk_seq res speaker =
        let task : String → Task = λ event. meeting_task event id in
        bind-Passes "q:enhancer" task
          (with_session io (
            store_recognized io cfg
              (segment_of id chunk_seq speaker res.text res.text res.confidence)))
          (λ _. announce io cfg id chunk_seq res speaker)
          λ _.
            bind-Passes "q:enhancer" task
              (call io
                (io.publish (channel id) (recognized_update io cfg id chunk_seq res speaker)))
              (λ _. enqueue_enhancer io id) λ _. enqueue_task-Passes "q:enhancer" "enh" id

    process_stt-Passes :
        (id : String) (chunk_seq : ℕ) (blob_key : String)
        → Passes "q:enhancer"
            (λ event. meeting_task event id)
            (process_stt io cfg id chunk_seq blob_key)
    unfolding process_stt
    process_stt-Passes id chunk_seq blob_key =
        let task : String → Task = λ event. meeting_task event id in
        bind-Passes "q:enhancer" task (call io (io.get_bytes blob_key))
          (recognize_chunk io cfg id chunk_seq)
          λ audio.
            bind-Passes "q:enhancer" task (call io (io.transcribe audio))
              (attribute_chunk io cfg id chunk_seq audio)
              λ res.
                bind-Passes "q:enhancer" task (call io (io.resolve_speaker res chunk_seq id audio))
                  (store_and_announce io cfg id chunk_seq res) (announce-Passes id chunk_seq res)

    process_enhancer-Passes :
        (id : String)
        → Passes "q:analytics" (λ event. meeting_task event id) (process_enhancer io cfg id)
    unfolding process_enhancer enqueue_analytics
    process_enhancer-Passes id =
        bind-Passes "q:analytics" (λ event. meeting_task event id)
          (with_session io (enhance_meeting io cfg id)) (λ _. enqueue_analytics io id)
          λ _. enqueue_task-Passes "q:analytics" "anl" id

    process_analytics-Passes :
        (id : String)
        → Passes "q:delivery" (λ event. meeting_task event id) (process_analytics io cfg id)
    unfolding process_analytics enqueue_delivery
    process_analytics-Passes id =
        let task : String → Task = λ event. meeting_task event id in
        bind-Passes "q:delivery" task (with_session io (analyze io cfg id))
          (after_analysis io cfg id)
          λ made.
            bind-Passes "q:delivery" task
              (call io (io.write_report_artifacts id made.0 made.1 made.2))
              (λ _. enqueue_delivery io id) λ _. enqueue_task-Passes "q:delivery" "dlv" id

    process_delivery-Passes :
        (id : String)
        → Passes "q:retention"
            (λ event. entity_task event "meeting" id "delivered_or_skipped")
            (process_delivery io cfg id)
    unfolding process_delivery enqueue_retention
    process_delivery-Passes id =
        let task : String → Task = λ event. entity_task event "meeting" id "delivered_or_skipped" in
        bind-Passes "q:retention" task (with_session io (deliver io cfg id))
          (λ _. enqueue_retention io "meeting" id "delivered_or_skipped")
          λ _.
            bind-Passes "q:retention" task (event_id io "ret")
              (λ e. call io (io.enqueue "q:retention" (task e)))
              λ e. enqueue-Passes "q:retention" e task

    -- A worker that returns from its task has, as its last call to the outside, put the task of the
    -- same meeting on the queue of the next one, which took it: the recognition on that of the
    -- enhancer, the enhancer on that of the analytics, the analytics on that of the delivery, and the
    -- delivery on that of the retention.
    pub workers_pass_on :
        (id : String) (chunk_seq : ℕ) (blob_key : String) (s₁ s₂ s₃ s₄ : State io)
        → (process_stt io cfg id chunk_seq blob_key s₁).0 ≡ ok tt
        → (process_enhancer io cfg id s₂).0 ≡ ok tt
        → (process_analytics io cfg id s₃).0 ≡ ok tt
        → (process_delivery io cfg id s₄).0 ≡ ok tt
        → IsPassed "q:enhancer"
            (λ event. meeting_task event id)
            (process_stt io cfg id chunk_seq blob_key s₁).1
          × IsPassed "q:analytics"
              (λ event. meeting_task event id)
              (process_enhancer io cfg id s₂).1
          × IsPassed "q:delivery"
              (λ event. meeting_task event id)
              (process_analytics io cfg id s₃).1
          × IsPassed "q:retention"
              (λ event. entity_task event "meeting" id "delivered_or_skipped")
              (process_delivery io cfg id s₄).1
    workers_pass_on id chunk_seq blob_key s₁ s₂ s₃ s₄ h₁ h₂ h₃ h₄ = (
      process_stt-Passes id chunk_seq blob_key s₁ h₁,
      process_enhancer-Passes id s₂ h₂,
      process_analytics-Passes id s₃ h₃,
      process_delivery-Passes id s₄ h₄,
    )
