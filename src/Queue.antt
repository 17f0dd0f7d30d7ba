-- ===== src/Queue.antt =====
-- src/interview_analytics_agent/queue/ and the loop that the five workers of apps/ share.
pub mod Streams
pub mod Retry
pub mod Worker
mod Checks
