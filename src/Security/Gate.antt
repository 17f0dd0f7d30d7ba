-- ===== src/Security/Gate.antt =====
-- apps/api_gateway/deps.py and `_authorize_ws` of apps/api_gateway/ws.py: which identity passes
-- which gate, and what the gate tells of its decision.
pub mod Laws
use interview_analytics_agen.Common.{
  ℕ, String, Bool, true, false, ◌&&◌, ◌||◌, not, Option, none, some, List, [], ◌∷◌, if◌then◌else◌,
  parse_csv,
}
use interview_analytics_agen.Common.Exec.{Result, ok, raised}
use interview_analytics_agen.Settings.{Settings}
use interview_analytics_agen.Security.Auth.{
  Unauthorized, AuthType, service_api_key, jwt, AuthContext, Verifier, is_service_jwt_claims,
  has_any_service_permission, require_auth,
}

pub data DenyReason : Type 0 where
  unauthorized : Unauthorized → DenyReason
  not_service_identity missing_service_scope service_identity_not_allowed : DenyReason

-- What a gate tells of its decision, with what the request itself does not determine. `_audit_allow`
-- and `_audit_deny` of deps.py log it and write a row of the audit trail; the functions of ws.py of
-- similar names only log it.
pub data AuditEvent : Type 0 where
  allow : AuthContext → String → AuditEvent
  deny : ℕ → DenyReason → Option AuthContext → AuditEvent

-- `HTTPException`: the status, and the code and message of its detail by the reason.
pub record HttpError : Type 0 where
  pub status : ℕ
  pub reason : DenyReason

abbrev pub Verdict : Type 0
Verdict = Result HttpError AuthContext × AuditEvent

abbrev pub is_service_key : AuthType → Bool
is_service_key service_api_key = true
is_service_key _ = false

abbrev pub is_jwt : AuthType → Bool
is_jwt jwt = true
is_jwt _ = false

abbrev refuse : ℕ → DenyReason → Option AuthContext → Verdict
refuse status reason ctx =
    (raised (record { status = status; reason = reason }), deny status reason ctx)

abbrev admit : AuthContext → String → Verdict
admit ctx reason = (ok ctx, allow ctx reason)

abbrev is_nonempty {ℓ} : {A : Type ℓ} → List A → Bool
is_nonempty [] = false
is_nonempty (x ∷ xs) = true

module _ (s : Settings) (v : Verifier) where
  auth_dep_of : Result Unauthorized AuthContext → Verdict
  auth_dep_of (raised e) = refuse 401 (unauthorized e) none
  auth_dep_of (ok ctx) = admit ctx "auth_ok"

  unfoldable pub auth_dep : String → String → Verdict
  unfolding auth_dep_of
  auth_dep authorization x_api_key = auth_dep_of (require_auth s v authorization x_api_key)

  service_check : List String → String → AuthContext → Verdict
  service_check required_scopes allow_reason ctx =
      if is_service_key ctx.auth_type
      then admit ctx (Prim.Native.String.◌++◌ allow_reason ":service_api_key")
      else if is_jwt ctx.auth_type && is_service_jwt_claims s ctx.claims
      then (if is_nonempty required_scopes
            && not (has_any_service_permission s ctx.claims required_scopes)
          then refuse 403 missing_service_scope (some ctx)
          else admit ctx (Prim.Native.String.◌++◌ allow_reason ":service_jwt_claims"))
      else refuse 403 not_service_identity (some ctx)

  service_auth_of : List String → String → Result Unauthorized AuthContext → Verdict
  unfolding service_check
  service_auth_of required_scopes allow_reason (raised e) = refuse 401 (unauthorized e) none
  service_auth_of required_scopes allow_reason (ok ctx) =
      service_check required_scopes allow_reason ctx

  -- `_service_auth_internal`
  unfoldable pub service_auth_internal : List String → String → String → String → Verdict
  unfolding service_auth_of
  service_auth_internal required_scopes allow_reason authorization x_api_key =
      service_auth_of required_scopes allow_reason (require_auth s v authorization x_api_key)

  pub service_auth_dep : String → String → Verdict
  service_auth_dep = service_auth_internal [] "service_auth"

  unfoldable pub service_auth_read_dep : String → String → Verdict
  service_auth_read_dep =
      service_auth_internal (parse_csv s.jwt_service_required_scopes_admin_read) "service_auth_read"

  unfoldable pub service_auth_write_dep : String → String → Verdict
  service_auth_write_dep =
      service_auth_internal (parse_csv s.jwt_service_required_scopes_admin_write)
        "service_auth_write"

  -- `_is_service_ctx` of ws.py
  unfoldable pub is_service_ctx : AuthContext → Bool
  is_service_ctx ctx =
      is_service_key ctx.auth_type || (is_jwt ctx.auth_type && is_service_jwt_claims s ctx.claims)

  abbrev ws_policy_violation : ℕ
  ws_policy_violation = 1008

  ws_service_check : AuthContext → Verdict
  unfolding is_service_ctx
  ws_service_check ctx =
      let required = parse_csv s.jwt_service_required_scopes_ws_internal in
      if not (is_service_ctx ctx)
      then refuse ws_policy_violation not_service_identity (some ctx)
      else if is_jwt ctx.auth_type
          && (is_nonempty required && not (has_any_service_permission s ctx.claims required))
      then refuse ws_policy_violation missing_service_scope (some ctx)
      else admit ctx "ws_service_auth_ok"

  ws_user_check : AuthContext → Verdict
  unfolding is_service_ctx
  ws_user_check ctx =
      if is_service_ctx ctx
      then refuse ws_policy_violation service_identity_not_allowed (some ctx)
      else admit ctx "ws_user_auth_ok"

  ws_auth_of : Bool → Result Unauthorized AuthContext → Verdict
  unfolding ws_service_check ws_user_check
  ws_auth_of service_only (raised e) = refuse ws_policy_violation (unauthorized e) none
  ws_auth_of service_only (ok ctx) =
      if service_only then ws_service_check ctx else ws_user_check ctx

  -- `_authorize_ws`; where it refuses, the connection is closed and `None` is returned.
  unfoldable pub authorize_ws : Bool → String → String → Verdict
  unfolding ws_auth_of
  authorize_ws service_only authorization x_api_key =
      ws_auth_of service_only (require_auth s v authorization x_api_key)
