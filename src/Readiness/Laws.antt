-- ===== src/Readiness/Laws.antt =====
-- What a service that is ready may rely on.
use interview_analytics_agen.Common.{
  ◌≡◌, ◌≢◌, refl, String, Bool, true, false, ◌&&◌, not, Bool-cases, inl, inr, Option, none, some,
  List, [], ◌∷◌, ◌++◌, all, All, eq_iff, arith, normalize, is_empty, has_char, if◌then◌else◌,
}
use interview_analytics_agen.Common.Exec.{ok}
use interview_analytics_agen.Settings.{Settings}
use interview_analytics_agen.Security.Auth
use interview_analytics_agen.Security.Auth.{
  AuthContext, Verifier, require_auth, auth_mode, is_prod_env,
}
use interview_analytics_agen.Security.Auth.Laws.{IsVerified, prod_jwt_only}
use interview_analytics_agen.Readiness.{
  ReadinessIssue, ReadinessState, Check, collect, is_clean, is_blank, is_prod, mode, provider,
  common_checks, prod_checks, finish, probed, probe_issues, evaluate_readiness,
  enforce_startup_readiness,
}

-- A check that found an error.
abbrev IsPassed : Check → Type 0
IsPassed c = (c.test && not (is_clean c.issue)) ≡ false

all-append :
    (xs ys : List ReadinessIssue)
    → all is_clean (xs ++ ys) ≡ true
    → (all is_clean xs ≡ true) × (all is_clean ys ≡ true)
all-append [] ys h = (refl, h)
all-append (x ∷ xs) ys h = ground (arith, all-append xs ys)

collect-IsPassed : (cs : List Check) → all is_clean (collect cs) ≡ true → All IsPassed cs
unfolding collect
collect-IsPassed [] h = tt
collect-IsPassed (c ∷ cs) h = (ground arith, collect-IsPassed cs (ground arith))

module _ (s : Settings) where
  -- The settings of a production service that is ready.
  pub record IsHardened : Type 0 where
    pub not_open : mode s ≢ "none"
    pub jwt_required : s.auth_require_jwt_in_prod ≡ true → mode s ≡ "jwt"
    pub tenants_by_jwt : s.tenant_enforcement_enabled ≡ true → mode s ≡ "jwt"
    pub tenant_claim : s.tenant_enforcement_enabled ≡ true → is_blank s.tenant_claim_key ≡ false
    pub oidc : mode s ≡ "jwt" → (is_blank s.oidc_issuer_url && is_blank s.oidc_jwks_url) ≡ false
    pub shared_storage :
        s.storage_require_shared_in_prod ≡ true → normalize s.storage_mode ≡ "shared_fs"
    pub no_cors_wildcard : has_char b'*' s.cors_allowed_origins ≡ false
    pub connector_by_jwt : provider s ≡ "sberjazz" → mode s ≡ "jwt"
    pub connector_token : provider s ≡ "sberjazz" → is_blank s.sberjazz_api_token ≡ false

  hardened_of_passed :
      is_prod s ≡ true → All IsPassed (common_checks s) → All IsPassed (prod_checks s) → IsHardened
  hardened_of_passed p c d = record {
    not_open = λ e. ground (arith, eq_iff (mode s) "none");
    jwt_required = λ e. ground (arith, eq_iff (mode s) "jwt");
    tenants_by_jwt = λ e. ground (arith, eq_iff (mode s) "jwt");
    tenant_claim = λ e. ground arith;
    oidc = λ e. ground (arith, eq_iff (mode s) "jwt");
    shared_storage = λ e. ground (arith, eq_iff (normalize s.storage_mode) "shared_fs");
    no_cors_wildcard = ground arith;
    connector_by_jwt = λ e. ground (arith, eq_iff (mode s) "jwt", eq_iff (provider s) "sberjazz");
    connector_token = λ e. ground (arith, eq_iff (provider s) "sberjazz");
  }

  -- The settings of a production service that `evaluate_readiness` calls ready are hardened.
  pub ready_hardened : is_prod s ≡ true → (evaluate_readiness s).ready ≡ true → IsHardened
  unfolding evaluate_readiness
  ready_hardened p h =
      let parts =
        all-append (collect (common_checks s)) (if is_prod s then collect (prod_checks s) else [])
          h in
      hardened_of_passed p (collect-IsPassed (common_checks s) parts.0)
        (collect-IsPassed (prod_checks s) (rw p at parts.1))

  finish_clean :
      (found : List ReadinessIssue) (state : ReadinessState)
      → is_prod s ≡ true
      → s.readiness_fail_fast_in_prod ≡ true
      → finish s found ≡ ok state
      → (all is_clean found ≡ true) × (state.ready ≡ true)
  unfolding finish
  finish_clean found state p f h = ground arith

  probe_clean :
      (health : Option Bool)
      → s.sberjazz_startup_probe_fail_fast_in_prod ≡ true
      → all is_clean (probe_issues s health) ≡ true
      → health ≡ some true
  unfolding probe_issues
  probe_clean none f h = ground arith
  probe_clean (some true) f h = refl
  probe_clean (some false) f h = ground arith

  -- A production service that fails fast starts only if it is ready: what `enforce_startup_readiness`
  -- returns has no error, and the settings are hardened; the probe of a real connector, where it is
  -- made and must not fail, found it healthy.
  pub started_ready :
      (health : Option Bool) (state : ReadinessState)
      → is_prod s ≡ true
      → s.readiness_fail_fast_in_prod ≡ true
      → enforce_startup_readiness s health ≡ ok state
      → (state.ready ≡ true)
        × IsHardened
        × (provider s ≡ "sberjazz"
            → s.sberjazz_startup_probe_enabled ≡ true
            → s.sberjazz_startup_probe_fail_fast_in_prod ≡ true
            → health ≡ some true)
  unfolding enforce_startup_readiness
  started_ready health state p f h =
      let probes = if probed s then probe_issues s health else [] in
      let clean = finish_clean ((evaluate_readiness s).issues ++ probes) state p f h in
      let parts = all-append (evaluate_readiness s).issues probes clean.0 in
      (
        clean.1,
        ready_hardened p parts.0,
        (λ real on strict.
            probe_clean health strict (ground (arith, eq_iff (provider s) "sberjazz"))),
      )

blank_not_jwt : normalize "" ≡ "jwt" → ⊥
unfolding normalize
blank_not_jwt e = ground (arith, eq_iff "" "jwt")

-- The authentication reads an empty AUTH_MODE as api_key, so both read the same mode where it is jwt.
mode_agrees : (s : Settings) (v : Verifier) → mode s ≡ "jwt" → auth_mode s v ≡ "jwt"
unfolding auth_mode
mode_agrees s v h = elim (Bool-cases (is_empty s.auth_mode)) [
  | inl empty ↦ absurd (blank_not_jwt (rw ((eq_iff s.auth_mode "").0 empty) at h))
  | inr given ↦ rw given h
]

-- In a production service that is ready and demands JWT, every accepted request carries a verified
-- bearer token.
pub ready_demands_tokens :
    (s : Settings) (v : Verifier) (authorization x_api_key : String) (ctx : AuthContext)
    → is_prod s ≡ true
    → s.auth_require_jwt_in_prod ≡ true
    → (evaluate_readiness s).ready ≡ true
    → require_auth s v authorization x_api_key ≡ ok ctx
    → IsVerified s v authorization ctx
unfolding Auth.is_prod auth_mode
ready_demands_tokens s v authorization x_api_key ctx p r h e =
    (prod_jwt_only s v authorization x_api_key ctx p
      (mode_agrees s v ((ready_hardened s p h).jwt_required r)) e).1
