-- ===== src/Connector/Breaker.antt =====
-- The circuit breaker of sberjazz_service.py. Redis holds the shared state and the process a copy;
-- what Redis answers wins, and whatever Redis raises is logged and passed over.
pub mod Laws
use interview_analytics_agen.Common.{
  ℕ, ◌+◌, ◌-◌, ◌/◌, String, Bool, true, false, ◌&&◌, ◌||◌, not, Option, none, some, max, ltb, leb,
  nat_eq, if◌then◌else◌,
}
use interview_analytics_agen.Common.Exec.{Result, ok, raised, Exec}
use interview_analytics_agen.Common.Int.{at_least}
use interview_analytics_agen.Settings.{Settings}
use interview_analytics_agen.Connector.Io.{
  ErrCode, connector_provider_error, Exc, provider_error, Stamp, at, unreadable, CbPhase, closed,
  opened, half_open, CircuitBreakerState, Key, circuit_breaker, Stored, breaker_doc, session_doc,
  plain, Io, Service, M, call, now,
}

-- `_cb_failure_threshold`, `_cb_open_sec`, `_session_ttl_sec`
abbrev pub cb_failure_threshold : Settings → ℕ
cb_failure_threshold cfg = at_least 1 cfg.sberjazz_cb_failure_threshold

abbrev pub cb_open_sec : Settings → ℕ
cb_open_sec cfg = at_least 5 cfg.sberjazz_cb_open_sec

abbrev pub session_ttl_sec : Settings → ℕ
session_ttl_sec cfg = at_least 60 cfg.sberjazz_session_ttl_sec

abbrev pub is_open : CbPhase → Bool
is_open opened = true
is_open _ = false

abbrev pub is_half_open : CbPhase → Bool
is_half_open half_open = true
is_half_open _ = false

abbrev pub is_closed : CbPhase → Bool
is_closed closed = true
is_closed _ = false

-- `int((later - earlier).total_seconds())`, at least 0.
abbrev pub age_sec : ℕ → ℕ → ℕ
age_sec later earlier = (later - earlier) / 1000000

-- `_load_cb_state_redis`: `none` where it returns None or raises, which its caller treats alike.
load_cb_state : Result Exc (Option Stored) → Option CircuitBreakerState
load_cb_state (ok (some (breaker_doc b))) = some b
load_cb_state (ok (some (session_doc st))) = none
load_cb_state (ok (some (plain t))) = none
load_cb_state (ok none) = none
load_cb_state (raised e) = none

-- The refusal of `_before_connector_call`.
abbrev pub cb_is_open : Exc
cb_is_open =
    provider_error connector_provider_error
      "connector_provider_error: SberJazz connector circuit breaker is open"

module _ (io : Io) (cfg : Settings) where
  -- `_parse_dt`: a text that is no time stamp stands for the present.
  unfoldable pub parse_dt : Stamp → Service io → ℕ × Service io
  parse_dt (at t) s = (t, s)
  parse_dt (unreadable text) s = now io s

  default_cb_state : Service io → CircuitBreakerState × Service io
  default_cb_state s =
      let (t, s') = now io s in
      (
        record {
          state = closed;
          consecutive_failures = 0;
          opened_at = none;
          last_error = none;
          updated_at = at t;
        },
        s',
      )

  -- `_save_cb_state`
  unfoldable pub save_cb_state : CircuitBreakerState → Service io → CircuitBreakerState × Service io
  save_cb_state b s =
      let (r, w) = io.set circuit_breaker (breaker_doc b) (session_ttl_sec cfg) s.world in
      (b, record s { world = w; breaker = some b })

  local_or_default : Option CircuitBreakerState → Service io → CircuitBreakerState × Service io
  unfolding default_cb_state
  local_or_default none s = default_cb_state s
  local_or_default (some b) s = (b, s)

  read_cb : Option CircuitBreakerState → Service io → CircuitBreakerState × Service io
  unfolding local_or_default
  read_cb (some b) s = (b, record s { breaker = some b })
  read_cb none s = local_or_default s.breaker s

  -- `get_sberjazz_circuit_breaker_state`
  unfoldable pub get_cb_state : Service io → CircuitBreakerState × Service io
  unfolding load_cb_state read_cb
  get_cb_state s =
      let (r, w) = io.get circuit_breaker s.world in
      read_cb (load_cb_state r) (record s { world = w })

  -- `reset_sberjazz_circuit_breaker`
  unfoldable pub reset_cb : Service io → CircuitBreakerState × Service io
  unfolding default_cb_state
  reset_cb s = let (b, s') = default_cb_state s in save_cb_state b s'

  opened_or_now : Option Stamp → Service io → Stamp × Service io
  opened_or_now (some t) s = (t, s)
  opened_or_now none s = let (t, s') = now io s in (at t, s')

  half_open_of : CircuitBreakerState → Service io → Service io
  half_open_of b s =
      let (t, s') = now io s in
      (save_cb_state (record b { state = half_open; updated_at = at t }) s').1

  check_open : CircuitBreakerState → M io (Unit {0})
  unfolding parse_dt opened_or_now half_open_of
  check_open b s =
      let (opened_at, s₁) = opened_or_now b.opened_at s in
      let (since, s₂) = parse_dt opened_at s₁ in
      let (t, s₃) = now io s₂ in
      if ltb (age_sec t since) (cb_open_sec cfg)
      then (raised cb_is_open, s₃)
      else (ok tt, half_open_of b s₃)

  check_breaker : CircuitBreakerState → M io (Unit {0})
  unfolding check_open
  check_breaker b s = if not (is_open b.state) then (ok tt, s) else check_open b s

  -- `_before_connector_call`
  unfoldable pub before_connector_call : M io (Unit {0})
  unfolding check_breaker
  before_connector_call s = let (b, s') = get_cb_state s in check_breaker b s'

  -- `_on_connector_success`
  unfoldable pub on_connector_success : Service io → Service io
  unfolding default_cb_state
  on_connector_success s =
      let (b, s') = get_cb_state s in
      if is_closed b.state && nat_eq b.consecutive_failures 0
      then s'
      else (let (fresh, s'') = default_cb_state s' in (save_cb_state fresh s'').1)

  -- The state after a failure, with the instants at which it is opened and written.
  abbrev pub failed_state : CircuitBreakerState → Option String → ℕ → ℕ → CircuitBreakerState
  failed_state prev error t_open t_write =
      let failures = max 1 (prev.consecutive_failures + 1) in
      let should_open = leb (cb_failure_threshold cfg) failures || is_half_open prev.state in
      record {
        state = if should_open then opened else closed;
        consecutive_failures = failures;
        opened_at = if should_open then some (at t_open) else none;
        last_error = error;
        updated_at = at t_write;
      }

  abbrev pub opens : CircuitBreakerState → Bool
  opens prev =
      leb (cb_failure_threshold cfg) (max 1 (prev.consecutive_failures + 1))
      || is_half_open prev.state

  -- `_on_connector_failure`: the clock is read once more where the breaker opens.
  unfoldable pub on_connector_failure : Option String → Service io → Service io
  on_connector_failure error s =
      let (prev, s₁) = get_cb_state s in
      let (t_open, s₂) = if opens prev then now io s₁ else (0, s₁) in
      let (t_write, s₃) = now io s₂ in (save_cb_state (failed_state prev error t_open t_write) s₃).1
