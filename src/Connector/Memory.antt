-- ===== src/Connector/Memory.antt =====
-- A world in memory for the tests: Redis with the breaker's key, a clock that stands still, and a
-- platform that is up or down.
use interview_analytics_agen.Common.{ℕ, refl, inl, Bool, true, false, Option, none, some, [], ◌∷◌}
use interview_analytics_agen.Common.Exec.{Result, ok, raised}
use interview_analytics_agen.Common.Int.{pos}
use interview_analytics_agen.Common.Value.{string, null}
use interview_analytics_agen.Connector.Payload.{Payload, object, items, chunk, integer, no_seq}
use interview_analytics_agen.Connector.Io.{
  Exc, other_exception, Stamp, at, SessionState, Key, circuit_breaker, Stored, breaker_doc, CbPhase,
  closed, opened, CircuitBreakerState, Io, Service,
}
use interview_analytics_agen.Connector.Breaker.Laws.{IsReliable}

pub record Memory : Type 0 where
  pub stored_breaker : Option Stored
  pub up : Bool
  pub clock : ℕ

abbrev pub lookup : Key → Memory → Option Stored
lookup circuit_breaker w = w.stored_breaker
lookup _ w = none

abbrev pub write : Key → Stored → Memory → Memory
write circuit_breaker v w = record w { stored_breaker = some v }
write _ v w = w

abbrev pub erase : Key → Memory → Memory
erase circuit_breaker w = record w { stored_breaker = none }
erase _ w = w

abbrev pub down : Exc
down = other_exception "timed out"

abbrev pub platform : Bool → Result Exc (Unit {0})
platform true = ok tt
platform false = raised down

-- A chunk with all it needs, and one without content.
abbrev pub two_chunks : Bool → Payload
two_chunks b =
    object
      (items (
        chunk (record {
          content_b64 = string "YQ==";
          seq = integer (pos 3);
          id = string "c3";
          chunk_id = null;
        })
        ∷ chunk (record { content_b64 = null; seq = no_seq; id = null; chunk_id = null })
        ∷ []))
      (string "cursor-2")

abbrev pub memory : Io
memory = record {
  World = Memory;
  utc_now = λ w. (w.clock, w);
  sleep_ms = λ n w. w;
  uuid = λ w. ("token", w);
  get = λ k w. (ok (lookup k w), w);
  set = λ k v ttl w. (ok tt, write k v w);
  set_nx = λ k v ttl w. (ok true, w);
  delete = λ k w. (ok tt, erase k w);
  sadd = λ k v w. (ok tt, w);
  smembers = λ k w. (ok [], w);
  join = λ p m w. (platform w.up, w);
  leave = λ p m w. (platform w.up, w);
  health = λ p w. (platform w.up, w);
  incr = λ k w. (ok 1, w);
  fetch_live_chunks = λ p m cursor n w. (ok (two_chunks w.up), w);
  ingest = λ m seq content key w. (ok false, w);
}

pub memory-IsReliable : IsReliable memory
memory-IsReliable = record { read_back = λ b ttl w. inl refl }

abbrev pub breaker_in : CbPhase → ℕ → Option Stamp → CircuitBreakerState
breaker_in phase n since = record {
  state = phase;
  consecutive_failures = n;
  opened_at = since;
  last_error = none;
  updated_at = at 0;
}

abbrev pub fresh : CircuitBreakerState
fresh = breaker_in closed 0 none

abbrev pub start : CircuitBreakerState → Bool → Service memory
start b up = record {
  world = record { stored_breaker = some (breaker_doc b); up = up; clock = 90000000 };
  sessions = [];
  breaker = none;
}

-- Opened at second 80, ten seconds before the present, and at second 0.
abbrev pub cooling_breaker : CircuitBreakerState
cooling_breaker = breaker_in opened 5 (some (at 80000000))

abbrev pub cooled_breaker : CircuitBreakerState
cooled_breaker = breaker_in opened 5 (some (at 0))

abbrev pub joined : SessionState
joined = record {
  meeting_id = "m1";
  provider = "sberjazz_mock";
  connected = true;
  attempts = 1;
  last_error = none;
  updated_at = at 90000000;
}
