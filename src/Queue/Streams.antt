-- ===== src/Queue/Streams.antt =====
-- src/interview_analytics_agent/queue/streams.py: tasks on Redis streams with consumer groups.
-- The Redis server is a parameter: what it answers depends on a state of its own, and every command
-- that the program sends is recorded, so that a theorem can speak of it.
use interview_analytics_agen.Common.{ℕ, String, Option, none, some, List, [], ◌∷◌, ◌++◌}
use interview_analytics_agen.Common.Exec.{Result, ok, raised, Exec, ◌>>=◌, ◌>>◌, pure, raise}

-- `attempts` of a task, as `int(payload.get("attempts", 0))` finds it.
pub data Attempts : Type 0 where
  absent : Attempts
  count : ℕ → Attempts
  unreadable : Attempts

pub record Task : Type 0 where
  pub attempts : Attempts
  pub fields : List (String × String)

-- What the JSON text of an entry holds: an object, or another value.
pub data Payload : Type 0 where
  object : Task → Payload
  other_value : String → Payload

-- The field `payload` of an entry: missing, no JSON, or JSON.
pub data RawPayload : Type 0 where
  missing : RawPayload
  malformed : String → RawPayload
  json : Payload → RawPayload

pub record RawEntry : Type 0 where
  pub entry_id : String
  pub raw : RawPayload

pub record StreamTask : Type 0 where
  pub stream : String
  pub entry_id : String
  pub payload : Payload

pub data Exc : Type 0 where
  response_error connection_error value_error key_error type_error attribute_error : Exc
  other_error : String → Exc

pub data GroupReply : Type 0 where
  created busy_group : GroupReply
  refused : Exc → GroupReply

pub data Command : Type 0 where
  xgroup_create : String → String → Command
  xautoclaim : String → String → ℕ → Command
  xreadgroup : String → String → ℕ → Command
  xadd : String → Payload → Command
  xack : String → String → String → Command
  sleep : ℕ → Command

-- redis.Redis, as far as streams.py uses it: each call answers or raises, and moves the server on.
pub record StreamClient : Type 1 where
  pub World : Type 0
  pub create_group : String → String → World → GroupReply × World
  pub autoclaim : String → String → ℕ → World → Result Exc (Option RawEntry) × World
  pub readgroup : String → String → ℕ → World → Result Exc (Option RawEntry) × World
  pub add : String → Payload → World → Result Exc String × World
  pub acknowledge : String → String → String → World → Result Exc ℕ × World

-- `stream_dlq_name`
unfoldable pub stream_dlq_name : String → String
stream_dlq_name stream = Prim.Native.String.◌++◌ stream ":dlq"

module _ (r : StreamClient) where
  -- The server's state, and the commands sent so far.
  pub record Session : Type 0 where
    pub world : r.World
    pub log : List Command

  abbrev pub M : Type 0 → Type 0
  M = Exec Exc Session

  -- One call of the client, recorded.
  abbrev pub send : {A : Type 0} → Command → (r.World → A × r.World) → Session → A × Session
  send c f s = let (a, w) = f s.world in (a, record { world = w; log = s.log ++ c ∷ [] })

  abbrev group_result : GroupReply → Result Exc (Unit {0})
  group_result created = ok tt
  group_result busy_group = ok tt
  group_result (refused e) = raised e

  pub ensure_group : String → String → M (Unit {0})
  ensure_group stream group s =
      let (reply, s') = send (xgroup_create stream group) (r.create_group stream group) s in
      (group_result reply, s')

  unfoldable pub enqueue : String → Payload → M String
  enqueue stream payload = send (xadd stream payload) (r.add stream payload)

  unfoldable pub ack_task : String → String → String → M ℕ
  ack_task stream group entry_id =
      send (xack stream group entry_id) (r.acknowledge stream group entry_id)

  pub parse_raw : String → String → RawPayload → M StreamTask
  parse_raw stream entry_id missing = raise value_error
  parse_raw stream entry_id (malformed text) = raise value_error
  parse_raw stream entry_id (json payload) =
      pure (record { stream = stream; entry_id = entry_id; payload = payload })

  -- `_parse_entry`
  pub parse_entry : String → RawEntry → M StreamTask
  unfolding parse_raw
  parse_entry stream e = parse_raw stream e.entry_id e.raw

  abbrev parse_first : String → Option RawEntry → M (Option StreamTask)
  parse_first stream none = pure none
  parse_first stream (some e) = do task ← parse_entry stream e; pure (some task)

  -- `_claim_stale`
  pub claim_stale : String → String → ℕ → M (Option StreamTask)
  claim_stale stream group min_idle_ms = do
    claimed ← send (xautoclaim stream group min_idle_ms) (r.autoclaim stream group min_idle_ms)
    parse_first stream claimed

  -- `_read_new`
  pub read_new : String → String → ℕ → M (Option StreamTask)
  read_new stream group block_ms = do
    rows ← send (xreadgroup stream group block_ms) (r.readgroup stream group block_ms)
    parse_first stream rows

  abbrev or_new : String → String → ℕ → Option StreamTask → M (Option StreamTask)
  or_new stream group block_ms (some task) = pure (some task)
  or_new stream group block_ms none = read_new stream group block_ms

  unfoldable pub read_task : String → String → ℕ → ℕ → M (Option StreamTask)
  unfolding ensure_group parse_entry claim_stale read_new
  read_task stream group block_ms min_idle_claim_ms = do
    ensure_group stream group
    stale ← claim_stale stream group min_idle_claim_ms
    or_new stream group block_ms stale
