-- ===== src/Connector/Checks.antt =====
-- Tests of the connector's breaker, joins and leaves, and instances of their theorems.
use interview_analytics_agen.Common.{◌≡◌, ◌≢◌, refl, ◌⊎◌, true, false, none, some, normalize}
use interview_analytics_agen.Common.Exec.{ok, raised}
use interview_analytics_agen.Settings.{defaults}
use interview_analytics_agen.Connector.Io.{
  Exc, provider_error, connector_provider_error, find_session, closed, opened, half_open, Service,
  M, call,
}
use interview_analytics_agen.Connector.Breaker.{
  get_cb_state, save_cb_state, before_connector_call, on_connector_success, on_connector_failure,
  cb_is_open, parse_dt,
}
use interview_analytics_agen.Connector.Breaker.Laws.{
  current, Failures, rested, failed, opens_at_threshold, cooling, before_call_gates,
}
use interview_analytics_agen.Connector.Sessions.{get_meeting_state, resolve_connector, save_state}
use interview_analytics_agen.Connector.Calls.{join_impl, leave_impl, try_attempts, is_retryable}
use interview_analytics_agen.Connector.Calls.Attempts.{IsRun, try_attempts-IsRun}
use interview_analytics_agen.Connector.Io.{SessionState}
use interview_analytics_agen.Connector.Calls.Outcomes.{IsReached, IsJoined, join_impl-IsReached}
use interview_analytics_agen.Connector.Calls.Failures.{
  IsTriedInVain, IsFailed, leave_impl-IsFailed, open_refuses,
}
use interview_analytics_agen.Connector.Memory.{
  breaker_in, cooled_breaker, cooling_breaker, fresh, joined, memory, memory-IsReliable, platform,
  start,
}

-- A platform that is down is tried twice, and the fifth failed call opens the breaker.
fifth_failure :
    (current memory defaults
      (join_impl memory defaults false "m1" (start (breaker_in closed 4 none) false)).1).state
    ≡ opened
unfolding join_impl get_cb_state save_cb_state on_connector_failure before_connector_call
    get_meeting_state find_session resolve_connector normalize is_retryable save_state
fifth_failure = refl

abbrev fail : Service memory → Service memory
fail = on_connector_failure memory defaults (some "timed out")

one-Failures : Failures memory defaults 1 (fail (start fresh false))
unfolding get_cb_state
one-Failures = failed (some "timed out") (rested refl refl) refl

two-Failures : Failures memory defaults 2 (fail (fail (start fresh false)))
two-Failures = failed (some "timed out") one-Failures refl

opens_at_threshold_example :
    ((current memory defaults (fail (fail (start fresh false)))).consecutive_failures ≡ 2)
    × ((current memory defaults (fail (fail (start fresh false)))).state ≡ closed)
opens_at_threshold_example =
    opens_at_threshold memory defaults 2 (fail (fail (start fresh false))) memory-IsReliable
      two-Failures

before_call_gates_example :
    ((current memory defaults (start cooled_breaker true)).state ≡ opened
      → cooling memory defaults (start cooled_breaker true) ≡ true
      → (before_connector_call memory defaults (start cooled_breaker true)).0 ≡ raised cb_is_open)
    × ((current memory defaults (start cooled_breaker true)).state ≡ opened
        → cooling memory defaults (start cooled_breaker true) ≡ false
        → ((before_connector_call memory defaults (start cooled_breaker true)).0 ≡ ok tt)
          × ((current memory defaults
                (before_connector_call memory defaults (start cooled_breaker true)).1).state
              ≡ half_open)
          × ((current memory defaults
                (before_connector_call memory defaults
                  (start cooled_breaker true)).1).consecutive_failures
              ≡ (current memory defaults (start cooled_breaker true)).consecutive_failures))
    × ((current memory defaults (start cooled_breaker true)).state ≢ opened
        → before_connector_call memory defaults (start cooled_breaker true)
          ≡ (ok tt, (get_cb_state memory defaults (start cooled_breaker true)).1))
before_call_gates_example =
    before_call_gates memory defaults (start cooled_breaker true) memory-IsReliable

-- The platform's refusal, tried twice.
abbrev refused : M memory (Unit {0})
refused = call memory λ w. (platform w.up, w)

try_attempts-IsRun_example :
    IsRun memory defaults refused 1 1
      (start fresh false)
      (try_attempts memory defaults refused 1 1 (start fresh false))
try_attempts-IsRun_example = try_attempts-IsRun memory defaults refused 1 1 (start fresh false)

join_impl-IsReached_example :
    IsReached memory defaults true "m1" joined
      (join_impl memory defaults false "m1" (start fresh true)).1
    × (previous : SessionState) × ((get_meeting_state memory defaults "m1"
          (before_connector_call memory defaults (start fresh true)).1).0
        ≡ ok previous)
    × IsJoined memory defaults false "m1" previous
        (get_meeting_state memory defaults "m1"
          (before_connector_call memory defaults (start fresh true)).1).1
        joined
unfolding join_impl get_cb_state save_cb_state before_connector_call get_meeting_state find_session
    resolve_connector normalize save_state on_connector_success
join_impl-IsReached_example =
    join_impl-IsReached memory defaults false "m1" (start fresh true) joined refl

abbrev given_up : Exc
given_up =
    provider_error connector_provider_error "connector_provider_error: not done after retries"

leave_impl-IsFailed_example :
    ((before_connector_call memory defaults (start fresh false)).0 ≡ raised given_up)
    ⊎ ((resolve_connector defaults ≡ raised given_up)
        ⊎ ((cause : Exc) × IsTriedInVain memory defaults memory.leave "m1"
              (before_connector_call memory defaults (start fresh false)).1
              cause
            × IsFailed memory defaults false "m1" cause given_up
                (leave_impl memory defaults "m1" (start fresh false)).1))
unfolding leave_impl get_cb_state save_cb_state before_connector_call resolve_connector normalize
    save_state on_connector_failure is_retryable
leave_impl-IsFailed_example =
    leave_impl-IsFailed memory defaults "m1" (start fresh false) given_up refl

open_refuses_example :
    (join_impl memory defaults true "m1" (start cooling_breaker true)
      ≡ (raised cb_is_open, (before_connector_call memory defaults (start cooling_breaker true)).1))
    × (leave_impl memory defaults "m1" (start cooling_breaker true) ≡ (
      raised cb_is_open,
      (before_connector_call memory defaults (start cooling_breaker true)).1,
    ))
unfolding get_cb_state cooling parse_dt
open_refuses_example =
    open_refuses memory defaults true "m1" (start cooling_breaker true) memory-IsReliable refl refl
