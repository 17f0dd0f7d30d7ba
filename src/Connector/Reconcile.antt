-- ===== src/Connector/Reconcile.antt =====
-- `reconcile_sberjazz_sessions` of sberjazz_service.py: sessions that were not touched for too long
-- are reconnected, one after the other.
pub mod Laws
use interview_analytics_agen.Common.{
  ℕ, ◌+◌, ◌-◌, ◌*◌, ◌≤◌, ◌≡◌, refl, sym, ◌∙◌, ap, inl, inr, String, not, List, [], ◌∷◌, ltb, length,
  take, length-take, max, if◌then◌else◌, arith,
}
use interview_analytics_agen.Common.Exec.{Result, ok, raised, Result-cases, ◌>>=◌}
use interview_analytics_agen.Common.Int.{at_least}
use interview_analytics_agen.Settings.{Settings}
use interview_analytics_agen.Connector.Io.{
  Exc, session_index, Stamp, at, SessionState, Io, Service, M, now,
}
use interview_analytics_agen.Connector.Breaker.{parse_dt}
use interview_analytics_agen.Connector.Sessions.{
  list_sessions, latest_first, add_members, table_keys, members_of, read_states, sort_keys,
  sort_desc, states_of,
}
use interview_analytics_agen.Connector.Calls.{reconnect_meeting}

-- The counts of `SberJazzReconcileResult`.
pub record Counts : Type 0 where
  pub scanned : ℕ
  pub stale : ℕ
  pub reconnected : ℕ
  pub failed : ℕ

-- `SberJazzReconcileResult`
pub record ReconcileResult : Type 0 where
  pub counts : Counts
  pub stale_threshold_sec : ℕ
  pub updated_at : Stamp

abbrev pub no_counts : Counts
no_counts = record { scanned = 0; stale = 0; reconnected = 0; failed = 0 }

abbrev pub stale_threshold_sec : Settings → ℕ
stale_threshold_sec cfg = at_least 30 cfg.sberjazz_reconcile_stale_sec

abbrev pub count_one : Result Exc SessionState → Counts → Counts
count_one (ok st) c = record c { stale = c.stale + 1; reconnected = c.reconnected + 1 }
count_one (raised e) c = record c { stale = c.stale + 1; failed = c.failed + 1 }

module _ (io : Io) (cfg : Settings) where
  reconnect_counted : String → Counts → Service io → Counts × Service io
  reconnect_counted meeting_id c s =
      let (r, s') = reconnect_meeting io cfg meeting_id s in (count_one r c, s')

  -- One round of the loop, at the instant of the call.
  reconcile_one : ℕ → SessionState → Counts → Service io → Counts × Service io
  unfolding reconnect_counted
  reconcile_one present st c s =
      let seen = record c { scanned = c.scanned + 1 } in
      if not st.connected
      then (seen, s)
      else (let (since, s') = parse_dt io cfg st.updated_at s in
          if ltb (present - since) (stale_threshold_sec cfg * 1000000)
          then (seen, s')
          else reconnect_counted st.meeting_id seen s')

  pub reconcile_all : ℕ → List SessionState → Counts → Service io → Counts × Service io
  reconcile_all present [] c s = (c, s)
  reconcile_all present (st ∷ states) c s =
      let (c', s') = reconcile_one present st c s in reconcile_all present states c' s'

  reconcile_listed :
      ℕ → Result Exc (List SessionState) × Service io → Result Exc ReconcileResult × Service io
  unfolding reconcile_all reconcile_one
  reconcile_listed present (raised e, s) = (raised e, s)
  reconcile_listed present (ok states, s) =
      let (c, s') = reconcile_all present states no_counts s in
      let (t, s'') = now io s' in
      (
        ok (record {
          counts = c;
          stale_threshold_sec = stale_threshold_sec cfg;
          updated_at = at t;
        }),
        s'',
      )

  -- `reconcile_sberjazz_sessions`
  unfoldable pub reconcile_sessions : ℕ → M io ReconcileResult
  unfolding reconcile_listed
  reconcile_sessions limit s =
      let (present, s') = now io s in reconcile_listed present (list_sessions io cfg limit s')
