-- ===== src/Security/Auth.antt =====
-- src/interview_analytics_agent/common/security.py: API keys and bearer tokens. PyJWT, the discovery
-- request and the key sets are parameters.
pub mod Laws
use interview_analytics_agen.Common.{
  ℕ, String, Bool, true, false, ◌&&◌, ◌||◌, not, Option, none, some, List, [], ◌∷◌, ◌++◌, ◌==◌,
  if◌then◌else◌, normalize, strip, lower, is_empty, parse_csv, contains, meets, starts_with,
  drop_prefix,
}
use interview_analytics_agen.Common.Exec.{Result, ok, raised}
use interview_analytics_agen.Common.Int.{ℤ, pos, or_default}
use interview_analytics_agen.Common.Value.{Value, Dict, truthy, str, get, claim_values}
use interview_analytics_agen.Settings.{Settings}

-- The messages of `UnauthorizedError` that this module raises.
pub data Unauthorized : Type 0 where
  auth_none_in_prod bad_api_key unknown_mode jwt_missing jwt_required_no_fallback : Unauthorized
  jwt_or_service_key_required jwt_library_missing jwt_rejected oidc_not_configured : Unauthorized
  discovery_failed discovery_without_jwks : Unauthorized

pub data AuthType : Type 0 where
  anonymous service_api_key user_api_key jwt : AuthType

pub record AuthContext : Type 0 where
  pub subject : String
  pub auth_type : AuthType
  pub claims : Option Dict

pub record JwtOptions : Type 0 where
  pub algorithms : List String
  pub audience : Option String
  pub issuer : Option String
  pub leeway : ℤ

-- PyJWT and the identity provider. `none` stands for `jwt.PyJWTError` and, in `discover`, for a
-- request that failed; a discovery document may lack its `jwks_uri`.
pub record Verifier : Type 0 where
  pub installed : Bool
  pub decode : String → String → JwtOptions → Option Dict
  pub signing_key : String → String → Option String
  pub discover : String → ℤ → Option String

abbrev pub is_prod_env : String → Bool
is_prod_env app_env = normalize app_env == "prod" || normalize app_env == "production"

-- `_jwt_algorithms`
jwt_algorithms : String → List String
jwt_algorithms raw = elim (parse_csv raw) [ [] ↦ "RS256" ∷ [] | a ∷ rest ↦ a ∷ rest ]

-- `_extract_bearer`
unfoldable pub extract_bearer : String → Option String
unfolding lower strip
extract_bearer authorization =
    if starts_with (lower authorization) "bearer "
    then some (strip (drop_prefix 7 authorization))
    else none

-- Whether the values of a claim meet the allowed ones, where both are configured.
abbrev claim_allows : Dict → String → String → Bool
claim_allows claims key_setting values_setting =
    let key = strip key_setting in
    let allowed = parse_csv values_setting in
    not (is_empty key) && meets (claim_values (get claims key)) allowed

unfoldable pub is_service_jwt_claims : Settings → Option Dict → Bool
is_service_jwt_claims s none = false
is_service_jwt_claims s (some claims) =
    claim_allows claims s.jwt_service_claim_key s.jwt_service_claim_values
    || claim_allows claims s.jwt_service_role_claim s.jwt_service_allowed_roles

has_permission : Settings → Dict → List String → Bool
has_permission s claims required =
    let key = strip s.jwt_service_permission_claim in
    not (is_empty key) && meets (claim_values (get claims key)) required

unfoldable pub has_any_service_permission : Settings → Option Dict → List String → Bool
unfolding has_permission
has_any_service_permission s claims [] = true
has_any_service_permission s none (p ∷ required) = false
has_any_service_permission s (some claims) (p ∷ required) = has_permission s claims (p ∷ required)

abbrev nonempty : String → Option String
nonempty t = if is_empty t then none else some t

abbrev or_raise : Option Dict → Unauthorized → Result Unauthorized Dict
or_raise none e = raised e
or_raise (some claims) e = ok claims

module _ (s : Settings) (v : Verifier) where
  pub jwt_options : JwtOptions
  unfolding jwt_algorithms
  jwt_options = record {
    algorithms = jwt_algorithms s.oidc_algorithms;
    audience = nonempty s.oidc_audience;
    issuer = nonempty s.oidc_issuer_url;
    leeway = or_default s.jwt_clock_skew_sec (pos 30);
  }

  -- `_discover_jwks_url`
  discover_jwks_url : Result Unauthorized String
  discover_jwks_url =
      elim (v.discover s.oidc_issuer_url (or_default s.oidc_discovery_timeout_sec (pos 5))) [
        | none ↦ raised discovery_failed
        | some url ↦ if is_empty url then raised discovery_without_jwks else ok url
      ]

  jwks_url : Result Unauthorized String
  unfolding discover_jwks_url
  jwks_url =
      if not (is_empty (strip s.oidc_jwks_url))
      then ok (strip s.oidc_jwks_url)
      else if is_empty s.oidc_issuer_url
      then raised oidc_not_configured
      else discover_jwks_url

  key_decode : String → Option String → Result Unauthorized Dict
  key_decode token none = raised jwt_rejected
  key_decode token (some key) = or_raise (v.decode token key jwt_options) jwt_rejected

  decode_by_key_set : String → Result Unauthorized String → Result Unauthorized Dict
  decode_by_key_set token (raised e) = raised e
  decode_by_key_set token (ok url) = key_decode token (v.signing_key url token)

  -- `_verify_jwt`
  unfoldable pub verify_jwt : String → Result Unauthorized Dict
  unfolding jwt_options jwks_url key_decode decode_by_key_set
  verify_jwt token =
      if not v.installed
      then raised jwt_library_missing
      else if not (is_empty (strip s.jwt_shared_secret))
      then or_raise (v.decode token (strip s.jwt_shared_secret) jwt_options) jwt_rejected
      else decode_by_key_set token jwks_url

  -- `claims.get("sub") or claims.get("client_id") or "jwt_subject"`
  abbrev subject_of : Dict → String
  subject_of claims =
      if truthy (get claims "sub")
      then str (get claims "sub")
      else if truthy (get claims "client_id")
      then str (get claims "client_id")
      else "jwt_subject"

  abbrev of_claims : Result Unauthorized Dict → Result Unauthorized AuthContext
  of_claims (raised e) = raised e
  of_claims (ok claims) =
      ok (record { subject = subject_of claims; auth_type = jwt; claims = some claims })

  abbrev identity : String → AuthType → AuthContext
  identity subject auth_type = record { subject = subject; auth_type = auth_type; claims = none }

  -- `bool(x_api_key and x_api_key in keys)`
  abbrev pub holds_key : List String → String → Bool
  holds_key keys x_api_key = not (is_empty x_api_key) && contains keys x_api_key

  unfoldable pub is_prod : Bool
  is_prod = is_prod_env s.app_env

  unfoldable pub valid_service_key : String → Bool
  valid_service_key x_api_key = holds_key (parse_csv s.service_api_keys) x_api_key

  unfoldable pub valid_key : String → Bool
  valid_key x_api_key = holds_key (parse_csv s.api_keys ++ parse_csv s.service_api_keys) x_api_key

  by_api_key : String → Result Unauthorized AuthContext
  by_api_key x_api_key =
      if not (valid_key x_api_key)
      then raised bad_api_key
      else if valid_service_key x_api_key
      then ok (identity "service" service_api_key)
      else ok (identity "user" user_api_key)

  without_token : String → Result Unauthorized AuthContext
  without_token x_api_key =
      if s.allow_service_api_key_in_jwt_mode && not is_prod && valid_service_key x_api_key
      then ok (identity "service" service_api_key)
      else if is_prod && valid_service_key x_api_key
      then raised jwt_required_no_fallback
      else if is_prod
      then raised jwt_missing
      else raised jwt_or_service_key_required

  -- `if token:` a bearer header whose token is blank counts as none.
  by_token : Option String → String → Result Unauthorized AuthContext
  unfolding without_token
  by_token none x_api_key = without_token x_api_key
  by_token (some token) x_api_key =
      if is_empty token then without_token x_api_key else of_claims (verify_jwt token)

  unfoldable pub auth_mode : String
  auth_mode = normalize (if is_empty s.auth_mode then "api_key" else s.auth_mode)

  -- An absent header is "".
  unfoldable pub require_auth : String → String → Result Unauthorized AuthContext
  unfolding by_api_key by_token extract_bearer
  require_auth authorization x_api_key =
      if auth_mode == "none"
      then (if is_prod then raised auth_none_in_prod else ok (identity "anonymous" anonymous))
      else if auth_mode == "api_key"
      then by_api_key x_api_key
      else if not (auth_mode == "jwt")
      then raised unknown_mode
      else by_token (extract_bearer authorization) x_api_key
