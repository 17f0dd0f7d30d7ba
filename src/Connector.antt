-- ===== src/Connector.antt =====
-- src/interview_analytics_agent/services/sberjazz_service.py: the meeting connector, its circuit
-- breaker, its sessions, their reconciliation and the live pull; and jobs/reconciliation_job.py.
pub mod Payload
pub mod Io
pub mod Breaker
pub mod Sessions
pub mod Calls
pub mod Reconcile
pub mod Live
pub mod Pull
pub mod Health
pub mod Job
mod Memory
mod Checks
mod LiveChecks
