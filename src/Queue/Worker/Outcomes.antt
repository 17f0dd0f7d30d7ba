-- ===== src/Queue/Worker/Outcomes.antt =====
-- What becomes of a message that a worker has read.
use interview_analytics_agen.Common.{
  ℕ, suc, ◌+◌, ◌≡◌, ◌⊎◌, inl, inr, Bool, List, [], ◌∷◌, ◌++◌, some, String, arith,
}
use interview_analytics_agen.Common.Exec.{Result, ok, raised, Result-cases}
use interview_analytics_agen.Queue.Streams.{
  Payload, Exc, Command, xgroup_create, xautoclaim, xreadgroup, xadd, xack, sleep, StreamTask,
  StreamClient, Session, M, enqueue, ack_task,
}
use interview_analytics_agen.Queue.Retry.{stamp, back_off, requeue_with_backoff}
use interview_analytics_agen.Queue.Retry.Laws.{
  last?, tried, destination, requeue_writes, requeue_tried, requeue_accepted,
}
use interview_analytics_agen.Queue.Worker.{Worker, max_attempts, handle}

-- The acknowledgements among the commands.
abbrev pub acks : List Command → ℕ
acks [] = 0
acks (xack _ _ _ ∷ log) = suc (acks log)
acks (xadd _ _ ∷ log) = acks log
acks (sleep _ ∷ log) = acks log
acks (xgroup_create _ _ ∷ log) = acks log
acks (xautoclaim _ _ _ ∷ log) = acks log
acks (xreadgroup _ _ _ ∷ log) = acks log

acks-append : (l k : List Command) → acks (l ++ k) ≡ acks l + acks k
acks-append [] k = omega arith
acks-append (xack _ _ _ ∷ l) k = omega (arith, acks-append l k)
acks-append (xadd _ _ ∷ l) k = omega (arith, acks-append l k)
acks-append (sleep _ ∷ l) k = omega (arith, acks-append l k)
acks-append (xgroup_create _ _ ∷ l) k = omega (arith, acks-append l k)
acks-append (xautoclaim _ _ _ ∷ l) k = omega (arith, acks-append l k)
acks-append (xreadgroup _ _ _ ∷ l) k = omega (arith, acks-append l k)

acks-xadd : (l : List Command) (q : String) (p : Payload) → acks (l ++ xadd q p ∷ []) ≡ acks l
acks-xadd l q p = omega (arith, acks-append l (xadd q p ∷ []))

acks-sleep : (l : List Command) (n : ℕ) → acks (l ++ sleep n ∷ []) ≡ acks l
acks-sleep l n = omega (arith, acks-append l (sleep n ∷ []))

module _ (r : StreamClient) where
  -- Requeueing, whether it raises or not, acknowledges nothing.
  acks-requeue_with_backoff :
      (queue : String) (p : Payload) (m backoff : ℕ) (s : Session r)
      → acks (requeue_with_backoff r queue p m backoff s).1.log ≡ acks s.log
  unfolding requeue_with_backoff back_off enqueue
  acks-requeue_with_backoff queue p m backoff s = grind (arith, acks-xadd, acks-sleep)

module _ (r : StreamClient) (w : Worker) (process : Payload → M r (Unit {0})) where
  -- The message was processed, and acknowledged then.
  pub record IsProcessed (msg : StreamTask) (s : Session r) : Type 0 where
    pub no_raise : (process msg.payload s).0 ≡ ok tt
    pub acked :
        (handle r w process msg s).log
        ≡ (process msg.payload s).1.log ++ xack w.queue w.group msg.entry_id ∷ []

  -- Where the task goes after n attempts, and what is written there.
  abbrev pub next_queue : ℕ → String
  next_queue n = destination r w.queue max_attempts (n + 1)

  -- Processing raised; the server took the task, with one attempt more, into its queue or into the
  -- dead letter queue, and the message was acknowledged after that.
  pub record IsStored (msg : StreamTask) (s : Session r) : Type 0 where
    pub error : Exc
    pub raised_error : (process msg.payload s).0 ≡ raised error
    pub attempts : ℕ
    pub tried_before : tried msg.payload ≡ ok attempts
    pub entry : String
    pub accepted :
        (r.add
          (next_queue attempts)
          (stamp msg.payload (attempts + 1))
          (process msg.payload s).1.world).0
        ≡ ok entry
    pub log : List Command
    pub written : last? log ≡ some (xadd (next_queue attempts) (stamp msg.payload (attempts + 1)))
    pub acked :
        handle r w process msg s
        ≡ (ack_task r w.queue w.group msg.entry_id (record {
          world =
              (r.add
                (next_queue attempts)
                (stamp msg.payload (attempts + 1))
                (process msg.payload s).1.world).1;
          log = log;
        })).1

  -- Processing raised, and the task was not stored: nothing was acknowledged, the message stays
  -- pending.
  pub record IsPending (msg : StreamTask) (s : Session r) : Type 0 where
    pub error : Exc
    pub raised_error : (process msg.payload s).0 ≡ raised error
    pub requeue_error : Exc
    pub not_stored :
        (requeue_with_backoff r w.queue msg.payload max_attempts w.backoff_sec
          (process msg.payload s).1).0
        ≡ raised requeue_error
    pub unacked : acks (handle r w process msg s).log ≡ acks (process msg.payload s).1.log

  abbrev requeued : StreamTask → Session r → Result Exc Bool × Session r
  requeued msg s =
      requeue_with_backoff r w.queue msg.payload max_attempts w.backoff_sec
        (process msg.payload s).1

  -- Each message is processed without an exception and then acknowledged; or processing raised, the
  -- server took the task into its queue or into the dead letter queue, and then the message was
  -- acknowledged; or processing and requeueing raised, and it was not acknowledged.
  pub handle_settles :
      (msg : StreamTask) (s : Session r) → IsProcessed msg s ⊎ IsStored msg s ⊎ IsPending msg s
  unfolding handle ack_task
  handle_settles msg s = elim (Result-cases (process msg.payload s).0) [
    | inl (a, e) ↦ inl (record { no_raise = e; acked = ground arith })
    | inr (x, e) ↦ inr (elim (Result-cases (requeued msg s).0) [
      | inl (b, stored) ↦
          let before = (process msg.payload s).1 in
          let (n, t) =
            requeue_tried r w.queue msg.payload max_attempts w.backoff_sec before b stored in
          let (entry, accepted, world) =
            requeue_accepted r w.queue msg.payload max_attempts w.backoff_sec n before b t stored in
          inl (record {
            error = x;
            raised_error = e;
            attempts = n;
            tried_before = t;
            entry = entry;
            accepted = accepted;
            log = (requeued msg s).1.log;
            written =
                (requeue_writes r w.queue msg.payload max_attempts w.backoff_sec n before b t
                  stored).1;
            acked = ground (arith, world);
          })
      | inr (y, lost) ↦ inr (record {
        error = x;
        raised_error = e;
        requeue_error = y;
        not_stored = lost;
        unacked = ground (
          arith,
          acks-requeue_with_backoff r w.queue msg.payload max_attempts w.backoff_sec
              (process msg.payload s).1,
        );
      })
    ])
  ]
