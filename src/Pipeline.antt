-- ===== src/Pipeline.antt =====
-- What the workers of apps/ do with a task and the inline form of the pipeline in
-- src/interview_analytics_agent/services/local_pipeline.py, over the database of storage/ and the
-- tasks of queue/dispatcher.py. `Store` holds the repositories, `Io` the outside and the database
-- session, `Tasks` the dispatcher, `Workers` the tasks' handling and `Inline` the inline form.
pub mod Store
pub mod Io
pub mod Leaves
pub mod Reported
pub mod Tasks
pub mod Workers
pub mod Inline
pub mod Retention
mod Checks
