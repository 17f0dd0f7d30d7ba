-- ===== src/Connector/Health.antt =====
-- `get_sberjazz_connector_health` of sberjazz_service.py.
use interview_analytics_agen.Common.{
  String, Bool, true, false, Option, none, some, is_empty, strip, if◌then◌else◌,
}
use interview_analytics_agen.Common.Exec.{ok, raised, ◌>>=◌, lift, total}
use interview_analytics_agen.Settings.{Settings}
use interview_analytics_agen.Connector.Io.{
  Stamp, at, CbPhase, Provider, sberjazz, sberjazz_mock, Io, Service, M, call, now,
}
use interview_analytics_agen.Connector.Breaker.{get_cb_state}
use interview_analytics_agen.Connector.Sessions.{resolve_connector}
use interview_analytics_agen.Connector.Calls.{error_text}

-- `SberJazzConnectorHealth`; of its details, the error and the phase of the circuit breaker.
pub record ConnectorHealth : Type 0 where
  pub provider : Provider
  pub configured : Bool
  pub healthy : Bool
  pub error : Option String
  pub circuit_breaker : CbPhase
  pub updated_at : Stamp

module _ (io : Io) (cfg : Settings) where
  abbrev report :
      Provider → CbPhase → Bool → Bool → Option String → Service io → ConnectorHealth × Service io
  report p phase configured healthy error s =
      let (t, s') = now io s in
      (
        record {
          provider = p;
          configured = configured;
          healthy = healthy;
          error = error;
          circuit_breaker = phase;
          updated_at = at t;
        },
        s',
      )

  ping : CbPhase → Service io → ConnectorHealth × Service io
  ping phase s =
      let (r, s') = call io (io.health sberjazz) s in
      elim r [
        | ok u ↦ report sberjazz phase true true none s'
        | raised e ↦ report sberjazz phase true false (some (error_text e)) s'
      ]

  health_of : Provider → CbPhase → Service io → ConnectorHealth × Service io
  unfolding ping strip
  health_of sberjazz_mock phase s = report sberjazz_mock phase true true none s
  health_of sberjazz phase s =
      if is_empty (strip cfg.sberjazz_api_base)
      then report sberjazz phase false false (some "SBERJAZZ_API_BASE is empty") s
      else ping phase s

  -- `get_sberjazz_connector_health`
  unfoldable pub get_connector_health : M io ConnectorHealth
  unfolding health_of
  get_connector_health = do
    p ← lift (resolve_connector cfg)
    b ← total (get_cb_state io cfg)
    total (health_of p b.state)
