-- ===== src/Queue/Retry.antt =====
-- src/interview_analytics_agent/queue/retry.py: a task that failed goes back to its queue with one
-- attempt more, or to the dead letter queue. Integers of a payload's `attempts` are not negative:
-- nothing but this function writes that field.
pub mod Laws
use interview_analytics_agen.Common.{
  ℕ, suc, ◌+◌, String, Bool, true, false, List, [], ◌∷◌, ◌++◌, ltb, if◌then◌else◌,
}
use interview_analytics_agen.Queue.Streams.{
  Attempts, absent, count, unreadable, Payload, object, other_value, value_error, attribute_error,
  Exc, sleep, StreamClient, Session, M, enqueue, stream_dlq_name,
}
use interview_analytics_agen.Common.Exec.{Result, ok, raised, ◌>>=◌, ◌>>◌, pure, lift}

-- `int(task_payload.get("attempts", 0)) + 1`
next_count : Attempts → Result Exc ℕ
next_count absent = ok 1
next_count (count n) = ok (n + 1)
next_count unreadable = raised value_error

unfoldable pub next_attempts : Payload → Result Exc ℕ
unfolding next_count
next_attempts (object task) = next_count task.attempts
next_attempts (other_value text) = raised attribute_error

-- `task_payload["attempts"] = attempts`
unfoldable pub stamp : Payload → ℕ → Payload
stamp (object task) n = object (record task { attempts = count n })
stamp (other_value text) n = other_value text

module _ (r : StreamClient) where
  -- `time.sleep(backoff_sec)`, where `backoff_sec` is positive.
  unfoldable pub back_off : ℕ → M r (Unit {0})
  back_off sec s =
      if ltb 0 sec then (ok tt, record s { log = s.log ++ sleep sec ∷ [] }) else (ok tt, s)

  unfoldable pub requeue_with_backoff : String → Payload → ℕ → ℕ → M r Bool
  unfolding next_attempts stamp back_off enqueue
  requeue_with_backoff queue_name payload max_attempts backoff_sec = do
    attempts ← lift (next_attempts payload)
    let task = stamp payload attempts
    if ltb max_attempts attempts
        then (do enqueue r (stream_dlq_name queue_name) task; pure false)
        else (do back_off backoff_sec; enqueue r queue_name task; pure true)
