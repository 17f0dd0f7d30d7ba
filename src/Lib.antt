-- ===== src/Lib.antt =====
-- interview-analytics-agent: a service that records meetings, transcribes them and delivers
-- reports. This library models, as functions that compute, the code which decides who may call it,
-- how tasks survive failures, how a recording becomes a transcript, a report and a decision, how the
-- meeting connector is kept, and when a process may start.
--
-- Parts, files and code (paths from the repository's root):
-- - Settings: src/interview_analytics_agent/common/config.py. `Settings` has the fields that the
--   modelled code reads, `defaults` their defaults. Every part takes it as an argument.
-- - Security: src/interview_analytics_agent/common/security.py (Security/Auth: `require_auth`,
--   `verify_jwt`), apps/api_gateway/deps.py and the authorisation in apps/api_gateway/ws.py
--   (Security/Gate: `auth_dep`, `service_auth_internal`, `authorize_ws`, with the events they
--   report: deps.py writes them to the audit trail, ws.py only logs them), apps/api_gateway/tenancy.py (Security/Tenancy).
-- - Readiness: src/interview_analytics_agent/services/readiness_service.py, the checks
--   of the settings before a start. Its theorems say what a ready configuration means for Security.
-- - Queue: src/interview_analytics_agent/queue/streams.py (Queue/Streams), queue/retry.py
--   (Queue/Retry), and the loop that apps/worker_retention, worker_stt, worker_enhancer,
--   worker_analytics and worker_delivery share (Queue/Worker). A session is the Redis server's world
--   and the log of the commands sent to it.
-- - Connector: src/interview_analytics_agent/services/sberjazz_service.py. Connector/Io has the
--   outside world and the module's globals, Connector/Breaker the circuit breaker,
--   Connector/Sessions the states of the meetings, Connector/Calls join, leave and reconnect,
--   Connector/Reconcile the reconciliation of stale sessions, Connector/Payload, Connector/Live
--   and Connector/Pull the live pull of audio chunks, Connector/Health the health report, and
--   Connector/Job src/interview_analytics_agent/jobs/reconciliation_job.py.
-- - Ingest: src/interview_analytics_agent/services/chunk_ingest_service.py (Ingest/Chunks), with
--   queue/idempotency.py (Ingest/Idempotency), the paths of storage/blob.py (Ingest/Blob) and
--   `enqueue_stt` of queue/dispatcher.py.
-- - Socket: the messages of apps/api_gateway/ws.py, from the authorisation in Security/Gate to the
--   ingest of Ingest/Chunks.
-- - Speech: src/interview_analytics_agent/stt/diarization.py, the speakers of the meetings. Pipeline
--   takes the answer of `resolve_speaker` from its outside.
-- - Processing: src/interview_analytics_agent/processing/. Transcript has pii.py, enhancer.py and
--   aggregation.py, Quality quality.py, Rubric, Evidence and Scorecard scorecard.py, Decision
--   decision.py, Report analytics.py, Comparison comparison.py, Calibration calibration.py, and
--   Tuning rubric_tuning.py, whose weights Rubric reads back.
-- - Pipeline: Store has the meetings and segments of src/interview_analytics_agent/storage, Io the
--   outside world and the session of storage/db.py, Tasks queue/dispatcher.py and
--   services/pipeline_service.py, Workers what the workers of apps/ do with a task, Inline the same
--   stages in one call (services/local_pipeline.py), Retention the blanking of old transcripts
--   (storage/retention.py, for apps/worker_retention and jobs/retention_job.py). Both forms use Processing, and Reported says what
--   they are to leave in the database.
-- - Relay: apps/alert_relay/main.py, the forwarding of alerts.
-- - Domain: src/interview_analytics_agent/domain/state_machine.py and enums.py.
-- - Common: lists, texts, dictionaries, integers and code that may raise (Common/Exec: what was
--   written before a raise stays written).
--
-- Parameters. Redis, PyJWT, the identity provider, the clock, the meeting platform's connector,
-- regular expressions, speech recognition, the embedding of an audio, the language model, files and
-- mail are records of functions on a world of their own; what the theorems need of them are named
-- hypotheses (IsReliable, say), and the Checks modules have concrete instances. Floats are the interface
-- Common/Floats, whose order has named laws (IsOrdered); Processing/Millionths is an instance with six
-- decimals. Queue/Worker takes what a worker does with a task as an argument.
--
-- Choices. A JSON text is identified with the value that it reads as, a time stamp with its
-- instant in microseconds; stamps without a time zone are not modelled. Stripping is that of
-- ASCII, lower-casing that of the ASCII and the Russian letters. Integers of the settings are ℤ,
-- with the `max(1, ...)` of the code; counters, attempts and the limits of listings are natural numbers. The name of a stream's
-- consumer is left out. A Python set is a list in order of insertion. Connectors are built without
-- raising. `str.isdigit` is that of ASCII digits. Logs and metrics are left out.
-- The sessions of the database come one after the other. Within a session a query finds what its
-- start had, with later changes to it, but not the rows that the session added (autoflush is off).
-- The creation time of a meeting is the clock when it is made. Of the model's answer the risk flags are
-- missing, a list of items or a value that cannot be iterated (Processing/Report), of the document of
-- weights `global` may be no dictionary (Processing/Rubric); both raise as in the code.
-- Numbers of chunks are natural numbers in Pipeline, and integers in Ingest and Socket.
--
-- Loops. The retry loop runs by structural recursion on the attempts that are left, which the
-- settings bound; the endless loop of a worker is its first n rounds, for each n, and that of a
-- connection its first frames, for each list of them. No function runs on fuel that could be
-- missing.
--
-- Not modelled: the forwarding of published updates to a WebSocket, which is a background task,
-- the engines of speech recognition and the language model's client, the rendering of mails and
-- files, the HTTP routers, the recorder on the operator's machine (quick_record.py), and
-- observability. Most of these call other services; the ones with logic of their own can be added
-- as further parts.
pub mod Common
pub mod Domain
pub mod Queue
pub mod Settings
pub mod Security
pub mod Pipeline
pub mod Processing
pub mod Readiness
pub mod Connector
pub mod Ingest
pub mod Relay
pub mod Socket
pub mod Speech
