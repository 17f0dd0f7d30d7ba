-- ===== src/Queue/Worker.antt =====
-- The loop of apps/worker_retention/main.py, which apps/worker_stt, worker_enhancer,
-- worker_analytics and worker_delivery share but for the queue, the group, the seconds of backoff
-- and what they do with a task. That part is a parameter, `process`, which may raise and may send
-- commands of its own: Pipeline/Retention has that of worker_retention, which writes to the database,
-- and Pipeline/Workers those of the others.
pub mod Outcomes
use interview_analytics_agen.Common.{
  ℕ, zero, suc, String, Bool, true, false, Option, none, some, List, [], ◌∷◌, ◌++◌,
}
use interview_analytics_agen.Common.Exec.{Result, ok, raised, ◌>>=◌, ◌>>◌, pure}
use interview_analytics_agen.Queue.Streams.{
  Payload, Exc, Command, sleep, StreamTask, StreamClient, Session, M, read_task, ack_task,
}
use interview_analytics_agen.Queue.Retry.{requeue_with_backoff}

pub record Worker : Type 0 where
  pub queue : String
  pub group : String
  pub block_ms : ℕ
  pub backoff_sec : ℕ

abbrev pub retention : Worker
retention = record {
  queue = "q:retention";
  group = "g:retention";
  block_ms = 10000;
  backoff_sec = 3;
}

abbrev pub stt : Worker
stt = record { queue = "q:stt"; group = "g:stt"; block_ms = 5000; backoff_sec = 1 }

abbrev pub delivery : Worker
delivery = record { queue = "q:delivery"; group = "g:delivery"; block_ms = 5000; backoff_sec = 2 }

abbrev pub analytics : Worker
analytics = record {
  queue = "q:analytics";
  group = "g:analytics";
  block_ms = 5000;
  backoff_sec = 2;
}

abbrev pub enhancer : Worker
enhancer = record { queue = "q:enhancer"; group = "g:enhancer"; block_ms = 5000; backoff_sec = 1 }

abbrev pub max_attempts : ℕ
max_attempts = 3

module _ (r : StreamClient) (w : Worker) (process : Payload → M r (Unit {0})) where
  abbrev succeeded : {A : Type 0} → Result Exc A → Bool
  succeeded (ok a) = true
  succeeded (raised e) = false

  -- The handler of an exception: `should_ack` is set where requeueing raised nothing.
  abbrev pub recover : Payload → Result Exc (Unit {0}) × Session r → Bool × Session r
  recover payload (ok a, s) = (true, s)
  recover payload (raised e, s) =
      let (answer, s') = requeue_with_backoff r w.queue payload max_attempts w.backoff_sec s in
      (succeeded answer, s')

  -- The `finally` clause, whose exceptions are suppressed.
  pub settle : String → Bool × Session r → Session r
  settle entry_id (true, s) = (ack_task r w.queue w.group entry_id s).1
  settle entry_id (false, s) = s

  -- One message.
  unfoldable pub handle : StreamTask → Session r → Session r
  unfolding settle
  handle msg s = settle msg.entry_id (recover msg.payload (process msg.payload s))

  -- One round of `run_loop`; where reading raises, `main` logs it, sleeps and enters the loop again.
  round_of : Result Exc (Option StreamTask) → Session r → Session r
  unfolding handle
  round_of (ok none) s = s
  round_of (ok (some msg)) s = handle msg s
  round_of (raised e) s = record s { log = s.log ++ sleep 2 ∷ [] }

  unfoldable pub round : Session r → Session r
  unfolding round_of
  round s = let (got, s') = read_task r w.queue w.group w.block_ms 60000 s in round_of got s'

  -- The first n rounds of the endless loop.
  pub serve : ℕ → Session r → Session r
  serve zero s = s
  serve (suc n) s = serve n (round s)
