-- ===== src/Settings.antt =====
-- src/interview_analytics_agent/common/config.py: the settings that the modelled code reads. Fields
-- that may be absent (`str | None`) are read by the program as `x or ""`, so an absent one is "".
use interview_analytics_agen.Common.{String, Bool, true, false}
use interview_analytics_agen.Common.Int.{ℤ, pos}

pub record Settings : Type 0 where
  pub app_env : String
  pub cors_allowed_origins : String
  pub auth_mode : String
  pub api_keys : String
  pub service_api_keys : String
  pub allow_service_api_key_in_jwt_mode : Bool
  pub auth_require_jwt_in_prod : Bool
  pub oidc_issuer_url : String
  pub oidc_jwks_url : String
  pub oidc_audience : String
  pub oidc_algorithms : String
  pub oidc_discovery_timeout_sec : ℤ
  pub jwt_shared_secret : String
  pub jwt_clock_skew_sec : ℤ
  pub jwt_service_claim_key : String
  pub jwt_service_claim_values : String
  pub jwt_service_role_claim : String
  pub jwt_service_allowed_roles : String
  pub jwt_service_permission_claim : String
  pub jwt_service_required_scopes_admin_read : String
  pub jwt_service_required_scopes_admin_write : String
  pub jwt_service_required_scopes_ws_internal : String
  pub tenant_enforcement_enabled : Bool
  pub tenant_claim_key : String
  pub tenant_context_key : String
  pub queue_mode : String
  pub storage_mode : String
  pub storage_require_shared_in_prod : Bool
  pub chunks_dir : String
  pub storage_shared_fs_dir : String
  pub meeting_connector_provider : String
  pub sberjazz_api_base : String
  pub sberjazz_api_token : String
  pub sberjazz_retries : ℤ
  pub sberjazz_retry_backoff_ms : ℤ
  pub sberjazz_cb_failure_threshold : ℤ
  pub sberjazz_cb_open_sec : ℤ
  pub sberjazz_op_lock_ttl_sec : ℤ
  pub sberjazz_cb_auto_reset_enabled : Bool
  pub sberjazz_cb_auto_reset_min_age_sec : ℤ
  pub sberjazz_session_ttl_sec : ℤ
  pub sberjazz_reconcile_stale_sec : ℤ
  pub sberjazz_live_pull_enabled : Bool
  pub sberjazz_live_pull_batch_limit : ℤ
  pub sberjazz_live_pull_sessions_limit : ℤ
  pub sberjazz_live_pull_retries : ℤ
  pub sberjazz_live_pull_retry_backoff_ms : ℤ
  pub sberjazz_live_pull_fail_reconnect_threshold : ℤ
  pub sberjazz_join_idempotent_ttl_sec : ℤ
  pub sberjazz_require_https_in_prod : Bool
  pub sberjazz_startup_probe_enabled : Bool
  pub sberjazz_startup_probe_fail_fast_in_prod : Bool
  pub reconciliation_enabled : Bool
  pub reconciliation_limit : ℤ
  pub readiness_fail_fast_in_prod : Bool

-- The defaults of the fields.
abbrev pub defaults : Settings
defaults = record {
  app_env = "dev";
  cors_allowed_origins = "*";
  auth_mode = "api_key";
  api_keys = "";
  service_api_keys = "";
  allow_service_api_key_in_jwt_mode = true;
  auth_require_jwt_in_prod = true;
  oidc_issuer_url = "";
  oidc_jwks_url = "";
  oidc_audience = "";
  oidc_algorithms = "RS256";
  oidc_discovery_timeout_sec = pos 5;
  jwt_shared_secret = "";
  jwt_clock_skew_sec = pos 30;
  jwt_service_claim_key = "token_type";
  jwt_service_claim_values = "service,client_credentials,m2m";
  jwt_service_role_claim = "roles";
  jwt_service_allowed_roles = "service,admin";
  jwt_service_permission_claim = "scope";
  jwt_service_required_scopes_admin_read = "agent.admin.read,agent.admin";
  jwt_service_required_scopes_admin_write = "agent.admin.write,agent.admin";
  jwt_service_required_scopes_ws_internal = "agent.ws.internal,agent.admin";
  tenant_enforcement_enabled = false;
  tenant_claim_key = "tenant_id";
  tenant_context_key = "tenant_id";
  queue_mode = "redis";
  storage_mode = "local_fs";
  storage_require_shared_in_prod = true;
  chunks_dir = "./data/chunks";
  storage_shared_fs_dir = "";
  meeting_connector_provider = "sberjazz_mock";
  sberjazz_api_base = "";
  sberjazz_api_token = "";
  sberjazz_retries = pos 2;
  sberjazz_retry_backoff_ms = pos 300;
  sberjazz_cb_failure_threshold = pos 5;
  sberjazz_cb_open_sec = pos 60;
  sberjazz_op_lock_ttl_sec = pos 60;
  sberjazz_cb_auto_reset_enabled = true;
  sberjazz_cb_auto_reset_min_age_sec = pos 30;
  sberjazz_session_ttl_sec = pos 86400;
  sberjazz_reconcile_stale_sec = pos 900;
  sberjazz_live_pull_enabled = true;
  sberjazz_live_pull_batch_limit = pos 20;
  sberjazz_live_pull_sessions_limit = pos 100;
  sberjazz_live_pull_retries = pos 1;
  sberjazz_live_pull_retry_backoff_ms = pos 200;
  sberjazz_live_pull_fail_reconnect_threshold = pos 3;
  sberjazz_join_idempotent_ttl_sec = pos 30;
  sberjazz_require_https_in_prod = true;
  sberjazz_startup_probe_enabled = true;
  sberjazz_startup_probe_fail_fast_in_prod = true;
  reconciliation_enabled = true;
  reconciliation_limit = pos 200;
  readiness_fail_fast_in_prod = true;
}
