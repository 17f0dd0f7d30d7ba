-- ===== src/Connector/Io.antt =====
-- What the connector service calls: the clock, Redis, the connector to the meeting platform. Each is
-- an operation on a state of the outside world. A JSON text in Redis is identified with the value
-- that it reads as, and an ISO time stamp with its instant in microseconds; stamps without a time
-- zone, which the program does not write, are not modelled. A key is a constructor for its prefix.
use interview_analytics_agen.Common.{
  ℕ, String, Bool, Option, none, some, List, [], ◌∷◌, ◌==◌, if◌then◌else◌,
}
use interview_analytics_agen.Connector.Payload.{Payload}
use interview_analytics_agen.Common.Exec.{Result, Exec}

-- common/errors.py, the codes that the connector's adapter and this service raise.
pub data ErrCode : Type 0 where
  connector_provider_error connector_auth_error connector_timeout : ErrCode
  connector_rate_limit connector_unavailable connector_bad_request : ErrCode
  connector_invalid_response storage_error : ErrCode

-- An exception with the text that `str()` gives.
pub data Exc : Type 0 where
  provider_error : ErrCode → String → Exc
  other_exception : String → Exc

pub data Stamp : Type 0 where
  at : ℕ → Stamp
  unreadable : String → Stamp

pub record SessionState : Type 0 where
  pub meeting_id : String
  pub provider : String
  pub connected : Bool
  pub attempts : ℕ
  pub last_error : Option String
  pub updated_at : Stamp

pub data CbPhase : Type 0 where
  closed opened half_open : CbPhase

pub record CircuitBreakerState : Type 0 where
  pub state : CbPhase
  pub consecutive_failures : ℕ
  pub opened_at : Option Stamp
  pub last_error : Option String
  pub updated_at : Stamp

pub data Key : Type 0 where
  session op_lock live_cursor live_seq live_fail_count : String → Key
  session_index circuit_breaker : Key

pub data Stored : Type 0 where
  session_doc : SessionState → Stored
  breaker_doc : CircuitBreakerState → Stored
  plain : String → Stored

pub data Provider : Type 0 where
  sberjazz sberjazz_mock : Provider

pub record Io : Type 1 where
  pub World : Type 0
  pub utc_now : World → ℕ × World
  pub sleep_ms : ℕ → World → World
  pub uuid : World → String × World
  pub get : Key → World → Result Exc (Option Stored) × World
  pub set : Key → Stored → ℕ → World → Result Exc (Unit {0}) × World
  pub set_nx : Key → Stored → ℕ → World → Result Exc Bool × World
  pub delete : Key → World → Result Exc (Unit {0}) × World
  pub sadd : Key → String → World → Result Exc (Unit {0}) × World
  pub smembers : Key → World → Result Exc (List String) × World
  pub join : Provider → String → World → Result Exc (Unit {0}) × World
  pub leave : Provider → String → World → Result Exc (Unit {0}) × World
  -- The ping of the platform, INCR, the platform's next chunks after a cursor, and the ingest of one chunk under a key, which
  -- answers whether it is a duplicate.
  pub health : Provider → World → Result Exc (Unit {0}) × World
  pub incr : Key → World → Result Exc ℕ × World
  pub fetch_live_chunks : Provider → String → Option String → ℕ → World → Result Exc Payload × World
  pub ingest : String → ℕ → String → String → World → Result Exc Bool × World

-- `_SESSIONS`: a dictionary in its order of insertion.
abbrev pub SessionTable : Type 0
SessionTable = List (String × SessionState)

unfoldable pub find_session : SessionTable → String → Option SessionState
find_session [] k = none
find_session ((j, st) ∷ t) k = if j == k then some st else find_session t k

unfoldable pub put_session : SessionTable → String → SessionState → SessionTable
put_session [] k st = (k, st) ∷ []
put_session ((j, old) ∷ t) k st = if j == k then (j, st) ∷ t else (j, old) ∷ put_session t k st

module _ (io : Io) where
  -- The module's globals, and the world around the process.
  pub record Service : Type 0 where
    pub world : io.World
    pub sessions : SessionTable
    pub breaker : Option CircuitBreakerState

  abbrev pub M : Type 0 → Type 0
  M = Exec Exc Service

  -- One call that may raise.
  abbrev pub call : {A : Type 0} → (io.World → Result Exc A × io.World) → M A
  call f s = let (r, w) = f s.world in (r, record s { world = w })

  -- `utc_now()`, and `_now_iso()` by its instant.
  abbrev pub now : Service → ℕ × Service
  now s = let (t, w) = io.utc_now s.world in (t, record s { world = w })
