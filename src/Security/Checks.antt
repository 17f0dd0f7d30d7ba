-- ===== src/Security/Checks.antt =====
-- Tests of the gateway's gates, and instances of their theorems.
use interview_analytics_agen.Common.{
  ◌≡◌, ◌≢◌, refl, String, true, Option, none, some, List, [], ◌∷◌, ◌==◌, eq_iff, arith, normalize,
  strip, parse_csv, contains, meets, if◌then◌else◌,
}
use interview_analytics_agen.Common.Exec.{ok, raised}
use interview_analytics_agen.Common.Value.{string, Dict, get, put, claim_values}
use interview_analytics_agen.Settings.{Settings, defaults}
use interview_analytics_agen.Security.Auth.{
  anonymous, service_api_key, jwt, AuthContext, Verifier, is_service_jwt_claims,
  has_any_service_permission, verify_jwt, is_prod, valid_service_key, valid_key, auth_mode,
  require_auth,
}
use interview_analytics_agen.Security.Auth.Laws.{IsVerified, prod_jwt_only, prod_not_anonymous}
use interview_analytics_agen.Security.Gate.{service_auth_internal, authorize_ws}
use interview_analytics_agen.Security.Gate.Laws.{IsService, gate-IsService}
use interview_analytics_agen.Security.Tenancy.{
  Forbidden, tenant_context_key, tenant_of, resolve_tenant_id, apply_tenant_to_context,
  enforce_meeting_access,
}
use interview_analytics_agen.Security.Tenancy.Laws.{tenants_isolated, other_keys_kept}

abbrev keys_mode : Settings
keys_mode = record defaults {
  api_keys = "alpha,beta";
  service_api_keys = "gamma";
  tenant_enforcement_enabled = true;
}

abbrev prod_jwt : Settings
prod_jwt = record keys_mode {
  app_env = "Production";
  auth_mode = " JWT ";
  jwt_shared_secret = "hush";
}

abbrev decode_token : String → Option Dict
decode_token token =
    if token == "svc"
    then some
        (("sub", string "bot") ∷ ("roles", string "admin") ∷ ("scope", string "agent.admin") ∷ [])
    else if token == "ann"
    then some (("sub", string "ann") ∷ ("tenant_id", string "t1") ∷ [])
    else none

abbrev verifier : Verifier
verifier = record {
  installed = true;
  decode = λ token key options. if key == "hush" then decode_token token else none;
  signing_key = λ url token. none;
  discover = λ issuer timeout. none;
}

abbrev bot : AuthContext
bot = record {
  subject = "bot";
  auth_type = jwt;
  claims =
      some
        (("sub", string "bot") ∷ ("roles", string "admin") ∷ ("scope", string "agent.admin") ∷ []);
}

abbrev user : String → String → AuthContext
user name tenant = record {
  subject = name;
  auth_type = jwt;
  claims = some (("sub", string name) ∷ ("tenant_id", string tenant) ∷ []);
}

bot_accepted : require_auth prod_jwt verifier "Bearer svc" "gamma" ≡ ok bot
unfolding require_auth auth_mode verify_jwt normalize get
bot_accepted = refl

key_accepted :
    require_auth keys_mode verifier "" "gamma"
    ≡ ok (record { subject = "service"; auth_type = service_api_key; claims = none })
unfolding require_auth auth_mode valid_key valid_service_key normalize parse_csv contains
key_accepted = refl

prod_jwt-is_prod : is_prod prod_jwt verifier ≡ true
unfolding is_prod normalize
prod_jwt-is_prod = refl

prod_jwt-auth_mode : auth_mode prod_jwt verifier ≡ "jwt"
unfolding auth_mode normalize
prod_jwt-auth_mode = refl

prod_jwt_only_example : (jwt ≡ jwt) × IsVerified prod_jwt verifier "Bearer svc" bot
prod_jwt_only_example =
    prod_jwt_only prod_jwt verifier "Bearer svc" "gamma" bot prod_jwt-is_prod prod_jwt-auth_mode
      bot_accepted

prod_not_anonymous_example : jwt ≢ anonymous
prod_not_anonymous_example =
    prod_not_anonymous prod_jwt verifier "Bearer svc" "gamma" bot prod_jwt-is_prod bot_accepted

abbrev scopes : List String
scopes = "agent.admin.read" ∷ "agent.admin" ∷ []

bot_passes : (service_auth_internal prod_jwt verifier scopes "read" "Bearer svc" "gamma").0 ≡ ok bot
unfolding service_auth_internal is_service_jwt_claims has_any_service_permission require_auth
    auth_mode verify_jwt normalize claim_values parse_csv meets get
bot_passes = refl

gate-IsService_example :
    ((service_auth_internal prod_jwt verifier scopes "read" "Bearer svc" "gamma").0 ≡ ok bot
      → (require_auth prod_jwt verifier "Bearer svc" "gamma" ≡ ok bot)
        × IsService prod_jwt scopes bot)
    × (require_auth prod_jwt verifier "Bearer svc" "gamma" ≡ ok bot
        → IsService prod_jwt scopes bot
        → (service_auth_internal prod_jwt verifier scopes "read" "Bearer svc" "gamma").0 ≡ ok bot)
gate-IsService_example = gate-IsService prod_jwt verifier scopes "read" "Bearer svc" "gamma" bot

bot_on_ws :
    (authorize_ws keys_mode verifier true "" "gamma").0
    ≡ ok (record { subject = "service"; auth_type = service_api_key; claims = none })
unfolding authorize_ws require_auth auth_mode valid_key valid_service_key normalize parse_csv
    contains
bot_on_ws = refl

abbrev started : Dict
started = ("language", string "ru") ∷ ("tenant_id", string "t1") ∷ []

ann_starts :
    apply_tenant_to_context prod_jwt (user "ann" "t1") (("language", string "ru") ∷ []) ≡ ok started
unfolding apply_tenant_to_context resolve_tenant_id is_service_jwt_claims claim_values parse_csv
    meets strip get put
ann_starts = refl

ann_of_t1 : tenant_of prod_jwt (user "ann" "t1") ≡ some "t1"
unfolding resolve_tenant_id is_service_jwt_claims claim_values parse_csv meets strip get
ann_of_t1 = refl

bob_of_t2 : tenant_of prod_jwt (user "bob" "t2") ≢ some "t1"
unfolding resolve_tenant_id is_service_jwt_claims claim_values parse_csv meets strip get
bob_of_t2 e = ground (arith, eq_iff "t2" "t1")

tenants_isolated_example :
    (e : Forbidden) × (enforce_meeting_access prod_jwt (user "bob" "t2") started ≡ raised e)
tenants_isolated_example =
    tenants_isolated prod_jwt (user "ann" "t1") (user "bob" "t2") (("language", string "ru") ∷ [])
      started "t1" refl ann_of_t1 ann_starts bob_of_t2

language_differs : "language" ≢ tenant_context_key prod_jwt
unfolding strip
language_differs e = ground (arith, eq_iff "language" "tenant_id")

other_keys_kept_example : get started "language" ≡ get (("language", string "ru") ∷ []) "language"
other_keys_kept_example =
    other_keys_kept prod_jwt (user "ann" "t1") (("language", string "ru") ∷ []) started "language"
      language_differs ann_starts
