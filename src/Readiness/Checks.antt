-- ===== src/Readiness/Checks.antt =====
-- Tests of the readiness checks, and instances of their theorems.
use interview_analytics_agen.Common.{◌≡◌, refl, true, false, some, normalize, strip, has_char}
use interview_analytics_agen.Common.Exec.{ok}
use interview_analytics_agen.Common.Value.{string, get}
use interview_analytics_agen.Common.{[], ◌∷◌}
use interview_analytics_agen.Settings.{Settings, defaults}
use interview_analytics_agen.Security.Auth.{
  AuthContext, Verifier, jwt, require_auth, verify_jwt, auth_mode,
}
use interview_analytics_agen.Security.Auth.Laws.{IsVerified}
use interview_analytics_agen.Readiness.{
  is_prod, collect, evaluate_readiness, enforce_startup_readiness,
}
use interview_analytics_agen.Readiness.Laws.{ready_demands_tokens}

abbrev prod : Settings
prod = record defaults {
  app_env = "prod";
  auth_mode = "jwt";
  service_api_keys = "gamma";
  oidc_issuer_url = "https://id.example.com";
  storage_mode = "shared_fs";
  cors_allowed_origins = "https://app.example.com";
  allow_service_api_key_in_jwt_mode = false;
  meeting_connector_provider = "sberjazz";
  sberjazz_api_base = "https://jazz.example.com";
  sberjazz_api_token = "t";
}

default_prod_not_ready : (evaluate_readiness (record defaults { app_env = "prod" })).ready ≡ false
unfolding evaluate_readiness normalize strip collect has_char
default_prod_not_ready = refl

prod-is_prod : is_prod prod ≡ true
unfolding normalize
prod-is_prod = refl

prod_ready : (evaluate_readiness prod).ready ≡ true
unfolding evaluate_readiness normalize strip collect has_char
prod_ready = refl

prod_starts : enforce_startup_readiness prod (some true) ≡ ok (record { ready = true; issues = [] })
unfolding enforce_startup_readiness normalize strip collect has_char
prod_starts = refl

abbrev verifier : Verifier
verifier = record {
  installed = true;
  decode = λ token key options. some (("sub", string token) ∷ []);
  signing_key = λ url token. some "k";
  discover = λ issuer timeout. some "https://id.example.com/keys";
}

abbrev ann : AuthContext
ann = record { subject = "ann"; auth_type = jwt; claims = some (("sub", string "ann") ∷ []) }

ann_accepted : require_auth prod verifier "Bearer ann" "" ≡ ok ann
unfolding require_auth auth_mode verify_jwt normalize strip get
ann_accepted = refl

ready_demands_tokens_example : IsVerified prod verifier "Bearer ann" ann
ready_demands_tokens_example =
    ready_demands_tokens prod verifier "Bearer ann" "" ann prod-is_prod refl prod_ready ann_accepted
