-- ===== src/Security/Tenancy/Laws.antt =====
-- Which meetings a caller may open.
use interview_analytics_agen.Common.{
  ◌≡◌, ◌≢◌, inl, inr, String, true, false, some, arith, eq_iff, Option-cases,
}
use interview_analytics_agen.Common.Exec.{ok, raised}
use interview_analytics_agen.Common.Value.{string, Dict, get, put, get-put}
use interview_analytics_agen.Settings.{Settings}
use interview_analytics_agen.Security.Auth.{AuthContext, jwt, is_service_jwt_claims}
use interview_analytics_agen.Security.Tenancy.{
  Forbidden, tenant_mismatch, tenant_claim_missing, tenant_context_key, tenant_of,
  resolve_tenant_id, apply_tenant_to_context, enforce_meeting_access,
}

module _ (s : Settings) where
  -- A context that was given a tenant has that tenant, and every other key as before.
  pub applied :
      (ctx : AuthContext) (context context' : Dict) (t : String)
      → s.tenant_enforcement_enabled ≡ true
      → tenant_of s ctx ≡ some t
      → apply_tenant_to_context s ctx context ≡ ok context'
      → context' ≡ put context (tenant_context_key s) (string t)
  unfolding apply_tenant_to_context
  applied ctx context context' t on named h = ground arith

  -- Whoever starts a meeting may read it: the context that `apply_tenant_to_context` returns to a
  -- caller passes `enforce_meeting_access` for that caller.
  pub access_to_own :
      (ctx : AuthContext) (context context' : Dict)
      → apply_tenant_to_context s ctx context ≡ ok context'
      → enforce_meeting_access s ctx context' ≡ ok tt
  unfolding apply_tenant_to_context enforce_meeting_access
  access_to_own ctx context context' h = elim (Option-cases (tenant_of s ctx)) [
    | inl e ↦ ground arith
    | inr (t, e) ↦ ground (
      arith,
      get-put context (tenant_context_key s) (tenant_context_key s) (string t),
      eq_iff (tenant_context_key s) (tenant_context_key s),
      eq_iff t t,
    )
  ]

  refused_elsewhere :
      (other : AuthContext) (context : Dict) (t : String)
      → s.tenant_enforcement_enabled ≡ true
      → get context (tenant_context_key s) ≡ string t
      → tenant_of s other ≢ some t
      → (e : Forbidden) × (enforce_meeting_access s other context ≡ raised e)
  unfolding enforce_meeting_access
  refused_elsewhere other context t on stored differ = elim (Option-cases (tenant_of s other)) [
    | inl missing ↦ (tenant_claim_missing, ground arith)
    | inr (u, named) ↦ (tenant_mismatch, ground (arith, eq_iff t u))
  ]

  stored_tenant :
      (ctx : AuthContext) (context context' : Dict) (t : String)
      → s.tenant_enforcement_enabled ≡ true
      → tenant_of s ctx ≡ some t
      → apply_tenant_to_context s ctx context ≡ ok context'
      → get context' (tenant_context_key s) ≡ string t
  stored_tenant ctx context context' t on named h =
      let key = tenant_context_key s in
      rw (applied ctx context context' t on named h)
        (ground (arith, get-put context key key (string t), eq_iff key key))

  -- Under enforcement `enforce_meeting_access` raises for every caller of another tenant, and for every
  -- caller without one, on the context that `apply_tenant_to_context` gave a caller of tenant t. A route
  -- that does not call it is not protected.
  pub tenants_isolated :
      (ctx other : AuthContext) (context context' : Dict) (t : String)
      → s.tenant_enforcement_enabled ≡ true
      → tenant_of s ctx ≡ some t
      → apply_tenant_to_context s ctx context ≡ ok context'
      → tenant_of s other ≢ some t
      → (e : Forbidden) × (enforce_meeting_access s other context' ≡ raised e)
  tenants_isolated ctx other context context' t on named h differ =
      refused_elsewhere other context' t on (stored_tenant ctx context context' t on named h) differ

  -- Starting a meeting changes no key of its context but the tenant's.
  pub other_keys_kept :
      (ctx : AuthContext) (context context' : Dict) (k : String)
      → k ≢ tenant_context_key s
      → apply_tenant_to_context s ctx context ≡ ok context'
      → get context' k ≡ get context k
  unfolding apply_tenant_to_context
  other_keys_kept ctx context context' k differ h = elim (Option-cases (tenant_of s ctx)) [
    | inl e ↦ ground arith
    | inr (t, e) ↦ ground (
      arith,
      get-put context (tenant_context_key s) k (string t),
      eq_iff (tenant_context_key s) k,
    )
  ]

  -- Under enforcement only a user's token names a tenant: API keys, anonymous callers and the tokens
  -- of services have none.
  pub tenant_needs_user_token :
      (ctx : AuthContext) (t : String)
      → tenant_of s ctx ≡ some t
      → (s.tenant_enforcement_enabled ≡ true)
        × (ctx.auth_type ≡ jwt)
        × (is_service_jwt_claims s ctx.claims ≡ false)
  unfolding resolve_tenant_id
  tenant_needs_user_token ctx t h = ground arith
