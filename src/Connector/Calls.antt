-- ===== src/Connector/Calls.antt =====
-- Joining, leaving and reconnecting a meeting in sberjazz_service.py: retries around the platform's
-- connector, under the circuit breaker and a lock for each meeting.
pub mod Attempts
pub mod Outcomes
pub mod Failures
use interview_analytics_agen.Common.{
  ℕ, zero, suc, ◌+◌, ◌-◌, ◌*◌, String, Bool, true, false, ◌&&◌, not, Option, none, some, List, [],
  ◌∷◌, ◌==◌, max, leb, take_prefix, if◌then◌else◌,
}
use interview_analytics_agen.Common.Exec.{Result, ok, raised, Exec, ◌>>=◌, ◌>>◌, pure, raise, lift}
use interview_analytics_agen.Common.Int.{at_least, rounds}
use interview_analytics_agen.Settings.{Settings}
use interview_analytics_agen.Connector.Io.{
  ErrCode, connector_provider_error, connector_auth_error, connector_bad_request,
  connector_invalid_response, Exc, provider_error, other_exception, Stamp, at, SessionState, Key,
  op_lock, Stored, plain, Provider, Io, Service, M, call, now,
}
use interview_analytics_agen.Connector.Breaker.{
  age_sec, parse_dt, before_connector_call, on_connector_success, on_connector_failure,
}
use interview_analytics_agen.Connector.Sessions.{
  provider_name, resolve_connector, save_state, get_meeting_state,
}

-- `str(e)[:300]`
abbrev pub error_text : Exc → String
error_text (provider_error code t) = take_prefix 300 t
error_text (other_exception t) = take_prefix 300 t

abbrev retryable_code : ErrCode → Bool
retryable_code connector_auth_error = false
retryable_code connector_bad_request = false
retryable_code connector_invalid_response = false
retryable_code _ = true

-- `_is_retryable_connector_error`
unfoldable pub is_retryable : Exc → Bool
is_retryable (other_exception t) = true
is_retryable (provider_error code t) = retryable_code code

-- How the attempts ended: the number of the one that succeeded, or the last exception.
pub data Tried : Type 0 where
  succeeded : ℕ → Tried
  gave_up : Exc → Tried

abbrev op_failed : Exc
op_failed =
    provider_error connector_provider_error "connector_provider_error: not done after retries"

abbrev busy : Exc
busy = provider_error connector_provider_error "connector_provider_error: operation already running"

-- The exception that a failed operation raises at the end.
abbrev pub final_error : Exc → Exc
final_error (provider_error code t) = provider_error code t
final_error (other_exception t) = op_failed

module _ (io : Io) (cfg : Settings) where
  -- `_retry_config`
  abbrev pub retry_attempts : ℕ
  retry_attempts = rounds cfg.sberjazz_retries

  abbrev backoff_ms : ℕ
  backoff_ms = at_least 0 cfg.sberjazz_retry_backoff_ms

  abbrev pub back_off : ℕ → Service io → Service io
  back_off attempt s =
      if leb 1 backoff_ms
      then record s { world = io.sleep_ms (backoff_ms * attempt) s.world }
      else s

  -- The loop `for attempt in range(1, attempts + 1)`, with the attempts left behind this one.
  pub try_attempts : M io (Unit {0}) → ℕ → ℕ → Service io → Tried × Service io
  try_attempts op zero attempt s =
      let (r, s') = op s in elim r [ ok u ↦ (succeeded attempt, s') | raised e ↦ (gave_up e, s') ]
  try_attempts op (suc left) attempt s =
      let (r, s') = op s in
      let again = try_attempts op left (suc attempt) (back_off attempt s') in
      elim r [
        | ok u ↦ (succeeded attempt, s')
        | raised e ↦ if is_retryable e then again else (gave_up e, s')
      ]

  abbrev pub state_after : String → Provider → Bool → ℕ → Option String → ℕ → SessionState
  state_after meeting_id provider connected attempts last_error t = record {
    meeting_id = meeting_id;
    provider = provider_name provider;
    connected = connected;
    attempts = attempts;
    last_error = last_error;
    updated_at = at t;
  }

  -- The end of the loop: `reached` is the state of the connection where the operation succeeds, and
  -- the other one where it fails.
  pub conclude :
      Bool → String → Provider → Tried × Service io → Result Exc SessionState × Service io
  conclude reached meeting_id provider (succeeded attempt, s) =
      let (t, s₁) = now io s in
      let (st, s₂) =
        save_state io cfg (state_after meeting_id provider reached attempt none t)
          (on_connector_success io cfg s₁) in
      (ok st, s₂)
  conclude reached meeting_id provider (gave_up e, s) =
      let (t, s₁) = now io s in
      let failed =
        state_after meeting_id provider (not reached) retry_attempts (some (error_text e)) t in
      let (st, s₂) = save_state io cfg failed s₁ in
      (raised (final_error e), on_connector_failure io cfg (some (error_text e)) s₂)

  pub run_operation :
      Bool
      → (Provider → String → io.World → Result Exc (Unit {0}) × io.World)
      → String
      → M io SessionState
  unfolding conclude try_attempts
  run_operation reached op meeting_id = do
    provider ← lift (resolve_connector cfg)
    λ s.
        conclude reached meeting_id provider
          (try_attempts (call io (op provider meeting_id)) (retry_attempts - 1) 1 s)

  -- `_join_idempotent_ttl_sec`
  abbrev idempotent_ttl : ℕ
  idempotent_ttl = at_least 0 cfg.sberjazz_join_idempotent_ttl_sec

  -- A join of a meeting that joined lately is not repeated.
  join_again : SessionState → String → Service io → Result Exc SessionState × Service io
  join_again previous meeting_id s =
      let (t, s₁) = now io s in
      let (st, s₂) =
        save_state io cfg
          (record {
            meeting_id = meeting_id;
            provider = previous.provider;
            connected = true;
            attempts = previous.attempts;
            last_error = none;
            updated_at = at t;
          })
          s₁ in
      (ok st, s₂)

  joined_lately : SessionState → Service io → Bool × Service io
  joined_lately previous s =
      let (t, s₁) = now io s in
      let (since, s₂) = parse_dt io cfg previous.updated_at s₁ in
      (leb (age_sec t since) idempotent_ttl, s₂)

  join_connected : SessionState → String → M io SessionState
  unfolding join_again run_operation joined_lately
  join_connected previous meeting_id s =
      let (lately, s') = joined_lately previous s in
      (if lately then join_again previous meeting_id else run_operation true io.join meeting_id) s'

  -- `_join_sberjazz_meeting_impl`
  unfoldable pub join_impl : Bool → String → M io SessionState
  unfolding join_connected run_operation
  join_impl force meeting_id = do
    before_connector_call io cfg
    previous ← get_meeting_state io cfg meeting_id
    if previous.connected && not force
        then join_connected previous meeting_id
        else run_operation true io.join meeting_id

  -- `_leave_sberjazz_meeting_impl`
  unfoldable pub leave_impl : String → M io SessionState
  unfolding run_operation
  leave_impl meeting_id = do before_connector_call io cfg; run_operation false io.leave meeting_id

  abbrev op_lock_ttl_sec : ℕ
  op_lock_ttl_sec = at_least 10 cfg.sberjazz_op_lock_ttl_sec

  is_plain : Option Stored → String → Bool
  is_plain (some (plain t)) token = t == token
  is_plain (some (Stored.session_doc st)) token = false
  is_plain (some (Stored.breaker_doc b)) token = false
  is_plain none token = false

  delete_if_own : Key → String → Option Stored → M io (Unit {0})
  unfolding is_plain
  delete_if_own key token current =
      if is_plain current token then call io (io.delete key) else pure tt

  -- `_release_op_lock`
  pub release_op_lock : String → String → M io (Unit {0})
  unfolding delete_if_own
  release_op_lock meeting_id token = do
    current ← call io (io.get (op_lock meeting_id))
    delete_if_own (op_lock meeting_id) token current

  abbrev locked_body : {A : Type 0} → String → String → M io A → Bool → M io A
  locked_body meeting_id token body false s = (raised busy, s)
  locked_body meeting_id token body true s =
      let (r, s') = body s in (r, (release_op_lock meeting_id token s').1)

  -- `_meeting_operation_lock`: what releasing the lock raises is logged.
  unfoldable pub with_lock : {A : Type 0} → String → M io A → M io A
  unfolding release_op_lock
  with_lock meeting_id body s =
      let (token, w) = io.uuid s.world in
      (do
        acquired ← call io (io.set_nx (op_lock meeting_id) (plain token) op_lock_ttl_sec)
        locked_body meeting_id token body acquired)
        (record s { world = w })

  pub join_meeting : String → M io SessionState
  join_meeting meeting_id = with_lock meeting_id (join_impl false meeting_id)

  pub leave_meeting : String → M io SessionState
  leave_meeting meeting_id = with_lock meeting_id (leave_impl meeting_id)

  -- Only a ProviderError of the leave is passed over.
  after_leave : String → Result Exc SessionState → M io SessionState
  after_leave meeting_id (ok st) = join_impl true meeting_id
  after_leave meeting_id (raised (provider_error c t)) = join_impl true meeting_id
  after_leave meeting_id (raised (other_exception t)) = raise (other_exception t)

  leave_first : String → M io SessionState
  unfolding after_leave
  leave_first meeting_id s = let (r, s') = leave_impl meeting_id s in after_leave meeting_id r s'

  reconnect_body : String → M io SessionState
  unfolding leave_first
  reconnect_body meeting_id = do
    st ← get_meeting_state io cfg meeting_id
    if st.connected then leave_first meeting_id else join_impl true meeting_id

  -- `reconnect_sberjazz_meeting`
  unfoldable pub reconnect_meeting : String → M io SessionState
  unfolding reconnect_body
  reconnect_meeting meeting_id = with_lock meeting_id (reconnect_body meeting_id)
