-- ===== src/Ingest.antt =====
-- src/interview_analytics_agent/services/chunk_ingest_service.py with queue/idempotency.py,
-- storage/blob.py and `enqueue_stt` of queue/dispatcher.py: the way of an audio chunk.
pub mod Idempotency
pub mod Blob
pub mod Chunks
mod Checks
