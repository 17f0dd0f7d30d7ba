-- ===== src/Security/Gate/Laws.antt =====
-- Which identities the gates let through.
use interview_analytics_agen.Common.{
  not, ◌≡◌, refl, ◌⊎◌, inl, inr, String, Bool, true, Option, List, [], ◌∷◌, arith,
}
use interview_analytics_agen.Common.Exec.{ok, raised, Result-cases}
use interview_analytics_agen.Common.Value.{Dict}
use interview_analytics_agen.Settings.{Settings}
use interview_analytics_agen.Security.Auth.{
  service_api_key, jwt, AuthContext, Verifier, is_service_jwt_claims, has_any_service_permission,
  require_auth, auth_mode, is_prod,
}
use interview_analytics_agen.Security.Auth.Laws.{IsVerified, prod_jwt_only}
use interview_analytics_agen.Security.Gate.{HttpError, service_auth_internal, authorize_ws}

-- An identity of a service: a service key, or a token whose claims are those of a service and, where
-- scopes are required, grant one of them.
abbrev pub IsService : Settings → List String → AuthContext → Type 0
IsService s required ctx =
    (ctx.auth_type ≡ service_api_key)
    ⊎ ((ctx.auth_type ≡ jwt)
        × (is_service_jwt_claims s ctx.claims ≡ true)
        × (has_any_service_permission s ctx.claims required ≡ true))

no_scope_required :
    (s : Settings) (claims : Option Dict) → has_any_service_permission s claims [] ≡ true
unfolding has_any_service_permission
no_scope_required s claims = refl

module _ (s : Settings) (v : Verifier) where
  -- The service gate lets through an identity exactly if authentication gave it and it is that of a
  -- service: any service API key, whatever the scopes, or a service's token that grants one of the
  -- required scopes where some are required.
  pub gate-IsService :
      (required : List String) (reason authorization x_api_key : String) (ctx : AuthContext)
      → ((service_auth_internal s v required reason authorization x_api_key).0 ≡ ok ctx
          → (require_auth s v authorization x_api_key ≡ ok ctx) × IsService s required ctx)
        × (require_auth s v authorization x_api_key ≡ ok ctx
            → IsService s required ctx
            → (service_auth_internal s v required reason authorization x_api_key).0 ≡ ok ctx)
  unfolding service_auth_internal
  gate-IsService [] reason authorization x_api_key ctx = (
    (λ h. (ground arith, ground (arith, no_scope_required s ctx.claims))),
    (λ h i. ground (arith, no_scope_required s ctx.claims)),
  )
  gate-IsService (p ∷ required) reason authorization x_api_key ctx =
      ((λ h. (ground arith, ground arith)), (λ h i. ground arith))

  -- The two WebSocket endpoints share no client: credentials that pass one are refused by the other.
  pub ws_endpoints_disjoint :
      (authorization x_api_key : String) (service_only : Bool) (ctx : AuthContext)
      → (authorize_ws s v service_only authorization x_api_key).0 ≡ ok ctx
      → (e : HttpError) × ((authorize_ws s v (not service_only) authorization x_api_key).0
          ≡ raised e)
  unfolding authorize_ws
  ws_endpoints_disjoint authorization x_api_key service_only ctx h =
      elim (Result-cases (authorize_ws s v (not service_only) authorization x_api_key).0) [
        | inl (other, passed) ↦ absurd (ground arith)
        | inr (e, refused) ↦ (e, refused)
      ]

  -- In production under AUTH_MODE=jwt the service gate opens only for a verified token whose claims
  -- are those of a service.
  pub prod_service-IsVerified :
      (required : List String) (reason authorization x_api_key : String) (ctx : AuthContext)
      → is_prod s v ≡ true
      → auth_mode s v ≡ "jwt"
      → (service_auth_internal s v required reason authorization x_api_key).0 ≡ ok ctx
      → IsVerified s v authorization ctx × (is_service_jwt_claims s ctx.claims ≡ true)
  prod_service-IsVerified required reason authorization x_api_key ctx p m h =
      let gate = (gate-IsService required reason authorization x_api_key ctx).0 h in
      let token = prod_jwt_only s v authorization x_api_key ctx p m gate.0 in
      (token.1, ground arith)
