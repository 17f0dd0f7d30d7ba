-- ===== src/Connector/LiveChecks.antt =====
-- Tests of the reconciliation, the live pull and the job, and instances of their theorems.
use interview_analytics_agen.Common.{
  ◌+◌, ◌≤◌, ◌≡◌, refl, ◌⊎◌, true, false, List, [], ◌∷◌, max, length, strip, normalize,
}
use interview_analytics_agen.Common.Exec.{ok}
use interview_analytics_agen.Common.Int.{pos}
use interview_analytics_agen.Settings.{Settings, defaults}
use interview_analytics_agen.Connector.Io.{
  at, SessionState, find_session, put_session, closed, Service, now,
}
use interview_analytics_agen.Connector.Breaker.{
  reset_cb, get_cb_state, save_cb_state, before_connector_call, on_connector_success, parse_dt,
}
use interview_analytics_agen.Connector.Breaker.Laws.{current}
use interview_analytics_agen.Connector.Sessions.{
  list_sessions, get_meeting_state, resolve_connector, save_state,
}
use interview_analytics_agen.Connector.Calls.{
  join_impl, leave_impl, is_retryable, with_lock, reconnect_meeting,
}
use interview_analytics_agen.Connector.Reconcile.{ReconcileResult, reconcile_sessions}
use interview_analytics_agen.Connector.Reconcile.Laws.{Reconciles, reconcile_sessions-Reconciles}
use interview_analytics_agen.Connector.Live.{parse_chunk_seq, parse_payload, pull_meeting}
use interview_analytics_agen.Connector.Pull.{LivePullResult, no_counts, pull_live_chunks}
use interview_analytics_agen.Connector.Pull.Laws.{PullsAll, pull_live_chunks-PullsAll}
use interview_analytics_agen.Connector.Health.{get_connector_health}
use interview_analytics_agen.Connector.Job.{maybe_auto_reset}
use interview_analytics_agen.Connector.Job.Laws.{IsRecovered, Kept, auto_reset_guarded}
use interview_analytics_agen.Connector.Memory.{
  cooled_breaker, fresh, joined, memory, memory-IsReliable, start,
}

-- A session that was connected long ago, and one that is not connected.
abbrev idle : Service memory
idle = record (start fresh true) {
  sessions =
      ("m1", record joined { updated_at = at 0 })
      ∷ ("m2", record joined { meeting_id = "m2"; connected = false })
      ∷ [];
}

abbrev counted : ReconcileResult
counted = record {
  counts = record { scanned = 2; stale = 1; reconnected = 1; failed = 0 };
  stale_threshold_sec = 60;
  updated_at = at 90000000;
}

abbrev impatient : Settings
impatient = record defaults { sberjazz_reconcile_stale_sec = pos 60 }

reconcile_sessions-Reconciles_example :
    (states : List SessionState) × (after : Service memory) × ((list_sessions memory impatient 200
        (now memory idle).1).0
      ≡ ok states)
    × (length states ≤ max 1 200)
    × (counted.counts.scanned ≡ length states)
    × (counted.counts.reconnected + counted.counts.failed ≡ counted.counts.stale)
    × Reconciles memory impatient
        (now memory idle).0
        states
        0
        0
        (list_sessions memory impatient 200 (now memory idle).1).1
        counted.counts.reconnected
        counted.counts.failed
        after
    × ((reconcile_sessions memory impatient 200 idle).1 ≡ (now memory after).1)
unfolding reconcile_sessions list_sessions reconnect_meeting join_impl leave_impl get_cb_state
    save_cb_state before_connector_call get_meeting_state find_session resolve_connector normalize
    save_state on_connector_success is_retryable parse_dt with_lock put_session
reconcile_sessions-Reconciles_example =
    reconcile_sessions-Reconciles memory impatient 200 counted idle refl

abbrev pulled : LivePullResult
pulled = record {
  counts = record {
    scanned = 2;
    connected = 1;
    pulled = 1;
    ingested = 1;
    failed = 0;
    invalid_chunks = 1;
  };
  updated_at = at 90000000;
}

pull_live_chunks-PullsAll_example :
    (states : List SessionState) × (after : Service memory) × ((list_sessions memory defaults
        (max 1 100)
        idle).0
      ≡ ok states)
    × (length states ≤ max 1 100)
    × PullsAll memory defaults 20 states no_counts
        (list_sessions memory defaults (max 1 100) idle).1
        pulled.counts
        after
    × ((pull_live_chunks memory defaults 100 20 idle).1 ≡ (now memory after).1)
unfolding pull_live_chunks pull_meeting parse_payload parse_chunk_seq strip list_sessions
    get_meeting_state find_session put_session resolve_connector normalize save_state parse_dt
pull_live_chunks-PullsAll_example =
    pull_live_chunks-PullsAll memory defaults 100 20 idle pulled refl

-- The mock is healthy, and the breaker opened ninety seconds ago.
auto_reset_guarded_example :
    IsRecovered memory defaults
      (start cooled_breaker true)
      (maybe_auto_reset memory defaults (start cooled_breaker true)).1
    ⊎ Kept memory defaults
        (start cooled_breaker true)
        (maybe_auto_reset memory defaults (start cooled_breaker true)).1
unfolding maybe_auto_reset get_cb_state get_connector_health resolve_connector normalize reset_cb
    save_cb_state
auto_reset_guarded_example =
    auto_reset_guarded memory defaults (start cooled_breaker true) memory-IsReliable refl

reset_done :
    (current memory defaults (maybe_auto_reset memory defaults (start cooled_breaker true)).1).state
    ≡ closed
unfolding maybe_auto_reset get_cb_state get_connector_health resolve_connector normalize reset_cb
    save_cb_state
reset_done = refl
