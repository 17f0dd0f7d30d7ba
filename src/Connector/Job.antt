-- ===== src/Connector/Job.antt =====
-- src/interview_analytics_agent/jobs/reconciliation_job.py: one run of the reconciliation.
pub mod Laws
use interview_analytics_agen.Common.{
  ℕ, String, Bool, true, false, not, Option, none, some, ltb, if◌then◌else◌,
}
use interview_analytics_agen.Common.Exec.{Result, ok, raised, Exec, ◌>>=◌, ◌>>◌, pure, total}
use interview_analytics_agen.Common.Int.{ℤ, at_least}
use interview_analytics_agen.Settings.{Settings}
use interview_analytics_agen.Connector.Io.{
  Exc, Stamp, at, unreadable, CbPhase, CircuitBreakerState, Io, Service, M, now,
}
use interview_analytics_agen.Connector.Breaker.{age_sec, is_open, get_cb_state, reset_cb}
use interview_analytics_agen.Connector.Reconcile.{ReconcileResult, reconcile_sessions}
use interview_analytics_agen.Connector.Pull.{pull_live_chunks}
use interview_analytics_agen.Connector.Health.{ConnectorHealth, get_connector_health}

-- `_parse_opened_at`
abbrev pub parse_opened_at : Option Stamp → Option ℕ
parse_opened_at none = none
parse_opened_at (some (at t)) = some t
parse_opened_at (some (unreadable text)) = none

module _ (io : Io) (cfg : Settings) where
  abbrev pub min_age_sec : ℕ
  min_age_sec = at_least 0 cfg.sberjazz_cb_auto_reset_min_age_sec

  -- Whether the breaker opened too short a time ago.
  pub too_young : Option ℕ → Service io → Bool × Service io
  too_young none s = (false, s)
  too_young (some opened) s = let (t, s') = now io s in (ltb (age_sec t opened) min_age_sec, s')

  reset_if_healthy : ConnectorHealth → M io (Unit {0})
  reset_if_healthy health s = if health.healthy then (ok tt, (reset_cb io cfg s).1) else (ok tt, s)

  reset_old : Bool → M io (Unit {0})
  unfolding reset_if_healthy
  reset_old true = pure tt
  reset_old false = get_connector_health io cfg >>= reset_if_healthy

  reset_open : CircuitBreakerState → M io (Unit {0})
  unfolding too_young reset_old
  reset_open b s = let (young, s') = too_young (parse_opened_at b.opened_at) s in reset_old young s'

  -- `_maybe_auto_reset_circuit_breaker`
  unfoldable pub maybe_auto_reset : M io (Unit {0})
  unfolding reset_open
  maybe_auto_reset s =
      let (b, s') = get_cb_state io cfg s in
      if not cfg.sberjazz_cb_auto_reset_enabled
      then (ok tt, s)
      else if not (is_open b.state)
      then (ok tt, s')
      else reset_open b s'

  -- `_maybe_pull_live_chunks`
  unfoldable pub maybe_pull_live_chunks : M io (Unit {0})
  maybe_pull_live_chunks =
      if not cfg.sberjazz_live_pull_enabled
      then pure tt
      else (pull_live_chunks io cfg (at_least 1 cfg.sberjazz_live_pull_sessions_limit)
            (at_least 1 cfg.sberjazz_live_pull_batch_limit)
          >> pure tt)

  after_reconcile :
      Result Exc ReconcileResult × Service io → Result Exc (Option ReconcileResult) × Service io
  unfolding maybe_pull_live_chunks
  after_reconcile (raised e, s) = (raised e, s)
  after_reconcile (ok result, s) = (ok (some result), (maybe_pull_live_chunks s).1)

  abbrev pub limit_of : Option ℤ → ℕ
  limit_of none = at_least 1 cfg.reconciliation_limit
  limit_of (some limit) = at_least 1 limit

  -- `run`: what the reset and the pull raise is logged.
  unfoldable pub run : Option ℤ → M io (Option ReconcileResult)
  unfolding after_reconcile maybe_auto_reset
  run limit s =
      if not cfg.reconciliation_enabled
      then (ok none, s)
      else after_reconcile (reconcile_sessions io cfg (limit_of limit) (maybe_auto_reset s).1)
