-- ===== src/Queue/Checks.antt =====
-- A stream server that answers every call, tests of the queue, and instances of its theorems.
use interview_analytics_agen.Common.{
  ℕ, ◌+◌, ◌≤◌, ◌≡◌, refl, ◌⊎◌, true, none, some, [], ◌∷◌, ltb, if◌then◌else◌,
}
use interview_analytics_agen.Common.Exec.{ok, raised}
use interview_analytics_agen.Queue.Streams.{
  absent, count, Task, Payload, object, Exc, xadd, xack, sleep, created, StreamTask, StreamClient,
  Session, M, enqueue, ack_task, stream_dlq_name,
}
use interview_analytics_agen.Queue.Retry.{stamp, back_off, requeue_with_backoff}
use interview_analytics_agen.Queue.Retry.Laws.{last?, Requeued, fresh, again, attempts_bounded}
use interview_analytics_agen.Queue.Worker.{retention, handle}
use interview_analytics_agen.Queue.Worker.Outcomes.{
  IsProcessed, IsStored, IsPending, handle_settles,
}

abbrev server : StreamClient
server = record {
  World = Unit;
  create_group = λ _ _ w. (created, w);
  autoclaim = λ _ _ _ w. (ok none, w);
  readgroup = λ _ _ _ w. (ok none, w);
  add = λ _ _ w. (ok "1-0", w);
  acknowledge = λ _ _ _ w. (ok 1, w);
}

abbrev start : Session server
start = record { world = tt; log = [] }

abbrev task : Task
task = record { attempts = absent; fields = ("entity_id", "m1") ∷ [] }

abbrev retried : ℕ → Payload
retried n = object (record task { attempts = count n })

abbrev broken : Payload → M server (Unit {0})
broken p s = (raised Exc.key_error, s)

abbrev message : StreamTask
message = record { stream = "q:retention"; entry_id = "7-0"; payload = object task }

-- A task that failed is stored before its message is acknowledged.
failed_once :
    (handle server retention broken message start).log
    ≡ sleep 3 ∷ xadd "q:retention" (retried 1) ∷ xack "q:retention" "g:retention" "7-0" ∷ []
unfolding handle requeue_with_backoff back_off ack_task enqueue
failed_once = refl

failed_twice : Requeued server "q:stt" 3 2 (retried 2)
unfolding requeue_with_backoff back_off enqueue
failed_twice =
    again {p = retried 1} 1 start (again {p = object task} 1 start (fresh task refl) refl refl) refl
      refl

attempts_bounded_example :
    (2 ≤ 3)
    × (true ≡ ltb 2 3)
    × (last? (requeue_with_backoff server "q:stt" (retried 2) 3 1 start).1.log
        ≡ some (
            xadd
              (if ltb 2 3 then "q:stt" else stream_dlq_name "q:stt")
              (stamp (retried 2) (2 + 1))))
unfolding requeue_with_backoff back_off enqueue
attempts_bounded_example = attempts_bounded server 1 start true failed_twice refl

handle_settles_example :
    IsProcessed server retention broken message start
    ⊎ IsStored server retention broken message start
    ⊎ IsPending server retention broken message start
handle_settles_example = handle_settles server retention broken message start
