-- ===== src/Security/Tenancy.antt =====
-- apps/api_gateway/tenancy.py: a user's token names a tenant, and a meeting carries the tenant of
-- the user who started it.
pub mod Laws
use interview_analytics_agen.Common.{
  String, Bool, true, false, ◌&&◌, ◌||◌, not, Option, none, some, List, [], ◌∷◌, ◌==◌,
  if◌then◌else◌, strip, is_empty,
}
use interview_analytics_agen.Common.Exec.{Result, ok, raised}
use interview_analytics_agen.Common.Value.{
  Value, null, string, scalar, sequence, Values, nil, cons, Dict, str, is_text, get, put,
}
use interview_analytics_agen.Settings.{Settings}
use interview_analytics_agen.Security.Auth.{AuthContext, is_service_jwt_claims}
use interview_analytics_agen.Security.Gate.{is_jwt}

-- `HTTPException(403)` with its message.
pub data Forbidden : Type 0 where
  tenant_claim_missing tenant_mismatch : Forbidden

abbrev or_tenant_id : String → String
or_tenant_id key = if is_empty key then "tenant_id" else key

abbrev pub tenant_claim_key : Settings → String
tenant_claim_key s = or_tenant_id (strip s.tenant_claim_key)

abbrev pub tenant_context_key : Settings → String
tenant_context_key s = or_tenant_id (strip s.tenant_context_key)

-- The first item of a list that is not null.
first_item : Values → Option String
first_item nil = none
first_item (cons null vs) = first_item vs
first_item (cons (string t) vs) = some t
first_item (cons (scalar t b) vs) = some t
first_item (cons (sequence t ws) vs) = some t

normalize_tenant_id : Value → Option String
unfolding first_item
normalize_tenant_id null = none
normalize_tenant_id (string t) = some t
normalize_tenant_id (scalar t b) = some t
normalize_tenant_id (sequence t vs) = first_item vs

abbrev claims_of : AuthContext → Dict
claims_of ctx = elim ctx.claims [ none ↦ [] | some claims ↦ claims ]

module _ (s : Settings) where
  unfoldable pub resolve_tenant_id : AuthContext → Option String
  unfolding normalize_tenant_id
  resolve_tenant_id ctx =
      if not s.tenant_enforcement_enabled
      then none
      else if not (is_jwt ctx.auth_type)
      then none
      else if is_service_jwt_claims s ctx.claims
      then none
      else normalize_tenant_id (get (claims_of ctx) (tenant_claim_key s))

  -- `if not tenant_id`: an empty one counts as missing.
  abbrev pub named_tenant : Option String → Option String
  named_tenant none = none
  named_tenant (some t) = if is_empty t then none else some t

  abbrev pub tenant_of : AuthContext → Option String
  tenant_of ctx = named_tenant (resolve_tenant_id ctx)

  -- `out[key] in (None, "", tenant_id)`; a missing key is like None.
  abbrev pub compatible : Value → String → Bool
  compatible null t = true
  compatible (string u) t = is_empty u || u == t
  compatible (scalar u b) t = false
  compatible (sequence u vs) t = false

  apply_tenant : Option String → Dict → Result Forbidden Dict
  apply_tenant none context = raised tenant_claim_missing
  apply_tenant (some t) context =
      if compatible (get context (tenant_context_key s)) t
      then ok (put context (tenant_context_key s) (string t))
      else raised tenant_mismatch

  -- A context of None is the empty one.
  unfoldable pub apply_tenant_to_context : AuthContext → Dict → Result Forbidden Dict
  unfolding apply_tenant
  apply_tenant_to_context ctx context =
      if not s.tenant_enforcement_enabled then ok context else apply_tenant (tenant_of ctx) context

  enforce : Option String → Dict → Result Forbidden (Unit {0})
  enforce none meeting_context = raised tenant_claim_missing
  enforce (some t) meeting_context =
      if is_text (get meeting_context (tenant_context_key s)) t
      then ok tt
      else raised tenant_mismatch

  unfoldable pub enforce_meeting_access : AuthContext → Dict → Result Forbidden (Unit {0})
  unfolding enforce
  enforce_meeting_access ctx meeting_context =
      if not s.tenant_enforcement_enabled then ok tt else enforce (tenant_of ctx) meeting_context
