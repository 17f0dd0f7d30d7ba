-- ===== src/Readiness.antt =====
-- src/interview_analytics_agent/services/readiness_service.py: the checks that a service makes of
-- its settings before it starts.
mod Laws
mod Checks
use interview_analytics_agen.Common.{
  String, Bool, true, false, ◌&&◌, ◌||◌, not, Option, none, some, List, [], ◌∷◌, ◌++◌, ◌==◌, all,
  if◌then◌else◌, normalize, strip, lower, is_empty, starts_with, has_char,
}
use interview_analytics_agen.Common.Exec.{Result, ok, raised}
use interview_analytics_agen.Settings.{Settings}
use interview_analytics_agen.Security.Auth.{is_prod_env}

pub data Severity : Type 0 where
  error warning : Severity

pub record ReadinessIssue : Type 0 where
  pub severity : Severity
  pub code : String

pub record ReadinessState : Type 0 where
  pub ready : Bool
  pub issues : List ReadinessIssue

-- `if test: issues.append(issue)`
pub record Check : Type 0 where
  pub test : Bool
  pub issue : ReadinessIssue

unfoldable pub collect : List Check → List ReadinessIssue
collect [] = []
collect (c ∷ cs) = let rest = collect cs in if c.test then c.issue ∷ rest else rest

abbrev pub is_blank : String → Bool
is_blank t = is_empty (strip t)

abbrev check : Bool → Severity → String → Check
check test severity code = record {
  test = test;
  issue = record { severity = severity; code = code };
}

abbrev error_if : Bool → Severity
error_if b = if b then error else warning

abbrev pub is_clean : ReadinessIssue → Bool
is_clean i = elim i.severity [ error ↦ false | warning ↦ true ]

module _ (s : Settings) where
  abbrev pub is_prod : Bool
  is_prod = is_prod_env s.app_env

  abbrev pub mode : String
  mode = normalize s.auth_mode

  abbrev pub provider : String
  provider = normalize s.meeting_connector_provider

  abbrev pub real_connector : Bool
  real_connector = provider == "sberjazz"

  abbrev pub common_checks : List Check
  common_checks =
      check (mode == "api_key" && is_blank s.api_keys) error "auth_api_keys_empty"
      ∷ check (is_blank s.service_api_keys) warning "service_api_keys_empty"
      ∷ check (real_connector && is_blank s.sberjazz_api_base) error "sberjazz_api_base_empty"
      ∷ check (real_connector && is_blank s.sberjazz_api_token) (error_if is_prod)
          "sberjazz_api_token_empty"
      ∷ []

  -- `if is_prod:`, with the condition of each inner `if` written out.
  abbrev pub prod_checks : List Check
  prod_checks =
      check (mode == "none") error "auth_none_in_prod"
      ∷ check (s.tenant_enforcement_enabled && not (mode == "jwt")) error "tenant_requires_jwt"
      ∷ check (s.tenant_enforcement_enabled && is_blank s.tenant_claim_key) error
          "tenant_claim_key_missing"
      ∷ check (s.auth_require_jwt_in_prod && not (mode == "jwt")) error
          "auth_mode_must_be_jwt_in_prod"
      ∷ check (mode == "jwt" && s.allow_service_api_key_in_jwt_mode) warning
          "jwt_service_key_fallback_enabled"
      ∷ check (mode == "jwt" && (is_blank s.oidc_issuer_url && is_blank s.oidc_jwks_url)) error
          "oidc_not_configured"
      ∷ check (mode == "jwt" && not (is_blank s.jwt_shared_secret)) warning "jwt_shared_secret_set"
      ∷ check (s.storage_require_shared_in_prod && not (normalize s.storage_mode == "shared_fs"))
          error "storage_not_shared_fs"
      ∷ check (has_char b'*' s.cors_allowed_origins) error "cors_wildcard_in_prod"
      ∷ check (provider == "sberjazz_mock") warning "mock_connector_in_prod"
      ∷ check
          (real_connector
            && (starts_with (normalize s.sberjazz_api_base) "http://"
                && s.sberjazz_require_https_in_prod))
          error "sberjazz_api_base_not_https"
      ∷ check (real_connector && not (mode == "jwt")) error "sberjazz_requires_jwt_auth_mode"
      ∷ []

  issues : List ReadinessIssue
  issues = collect common_checks ++ (if is_prod then collect prod_checks else [])

  abbrev state_of : List ReadinessIssue → ReadinessState
  state_of found = record { ready = all is_clean found; issues = found }

  unfoldable pub evaluate_readiness : ReadinessState
  unfolding issues
  evaluate_readiness = state_of issues

  -- The startup probe of the connector: its health, or `none` where the probe raises.
  probe_issues : Option Bool → List ReadinessIssue
  probe_issues none =
      record {
        severity = error_if s.sberjazz_startup_probe_fail_fast_in_prod;
        code = "sberjazz_startup_probe_error";
      }
      ∷ []
  probe_issues (some true) = []
  probe_issues (some false) =
      record {
        severity = error_if s.sberjazz_startup_probe_fail_fast_in_prod;
        code = "sberjazz_startup_probe_failed";
      }
      ∷ []

  abbrev probed : Bool
  probed = is_prod && (real_connector && s.sberjazz_startup_probe_enabled)

  abbrev errors : List ReadinessIssue → List ReadinessIssue
  errors [] = []
  errors (i ∷ is) = let rest = errors is in if is_clean i then rest else i ∷ rest

  finish : List ReadinessIssue → Result (List ReadinessIssue) ReadinessState
  finish found =
      if (is_prod && s.readiness_fail_fast_in_prod) && not (all is_clean found)
      then raised (errors found)
      else ok (state_of found)

  -- `RuntimeError` carries the issues whose codes its message names. `if errors` tests whether an
  -- issue is an error.
  unfoldable pub enforce_startup_readiness :
      Option Bool → Result (List ReadinessIssue) ReadinessState
  unfolding finish probe_issues evaluate_readiness
  enforce_startup_readiness health =
      finish (evaluate_readiness.issues ++ (if probed then probe_issues health else []))
