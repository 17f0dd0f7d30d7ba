-- ===== src/Security/Auth/Laws.antt =====
-- What an accepted identity rests on.
use interview_analytics_agen.Common.{
  ◌≡◌, ◌≢◌, ◌↔◌, refl, sym, ◌∙◌, is_empty, strip, Bool-cases, ◌⊎◌, inl, inr, String, true, false,
  Option, none, some, arith, eq_iff,
}
use interview_analytics_agen.Common.Exec.{Result, ok, raised, Result-cases}
use interview_analytics_agen.Common.Value.{Dict}
use interview_analytics_agen.Settings.{Settings}
use interview_analytics_agen.Security.Auth.{
  Unauthorized, anonymous, service_api_key, user_api_key, jwt, jwt_rejected, or_raise, key_decode,
  AuthContext, Verifier, extract_bearer, jwt_options, decode_by_key_set, jwks_url, verify_jwt,
  is_prod, valid_service_key, valid_key, auth_mode, by_api_key, by_token, require_auth,
}

module _ (s : Settings) (v : Verifier) where
  -- A token's claims: the bearer token of the header was verified, and these are its claims.
  pub record IsVerified (authorization : String) (ctx : AuthContext) : Type 0 where
    pub token : String
    pub claims : Dict
    pub extracted : extract_bearer authorization ≡ some token
    pub verified : verify_jwt s v token ≡ ok claims
    pub carried : ctx.claims ≡ some claims

  or_raise-eq-ok :
      (o : Option Dict) (e : Unauthorized) (claims : Dict)
      → or_raise o e ≡ ok claims
      → o ≡ some claims
  or_raise-eq-ok none e claims h = cc
  or_raise-eq-ok (some c) e claims h = ground arith

  -- Verified claims are what the token library decoded from the token, under the options of the
  -- settings, with the shared secret or with a signing key.
  pub verify_jwt-decoded :
      (token : String) (claims : Dict)
      → verify_jwt s v token ≡ ok claims
      → (key : String) × (v.decode token key (jwt_options s v) ≡ some claims)
  unfolding verify_jwt
  verify_jwt-decoded token claims h = elim (Bool-cases (is_empty (strip s.jwt_shared_secret))) [
    | inl blank ↦ by_keys (jwks_url s v) (ground arith)
    | inr secret ↦ (
      strip s.jwt_shared_secret,
      or_raise-eq-ok (v.decode token (strip s.jwt_shared_secret) (jwt_options s v)) jwt_rejected
          claims (ground arith),
    )
  ]
    where
      by_key :
          (k : Option String)
          → key_decode s v token k ≡ ok claims
          → (key : String) × (v.decode token key (jwt_options s v) ≡ some claims)
      by_key none h = cc
      by_key (some key) h =
          (key, or_raise-eq-ok (v.decode token key (jwt_options s v)) jwt_rejected claims h)

      by_keys :
          (url : Result Unauthorized String)
          → decode_by_key_set s v token url ≡ ok claims
          → (key : String) × (v.decode token key (jwt_options s v) ≡ some claims)
      by_keys (raised e) h = cc
      by_keys (ok url) h = by_key (v.signing_key url token) h

  -- A service key identity is given only to a configured service key, and only under
  -- AUTH_MODE=api_key or outside production.
  pub service_key_sound :
      (authorization x_api_key : String) (ctx : AuthContext)
      → require_auth s v authorization x_api_key ≡ ok ctx
      → ctx.auth_type ≡ service_api_key
      → (valid_service_key s v x_api_key ≡ true)
        × ((auth_mode s v ≡ "api_key") ⊎ (is_prod s v ≡ false))
  unfolding require_auth
  service_key_sound authorization x_api_key ctx h t =
      ground (arith, eq_iff (auth_mode s v) "api_key")

  jwt_by_token :
      (bearer : Option String) (x_api_key : String) (ctx : AuthContext)
      → by_token s v bearer x_api_key ≡ ok ctx
      → ctx.auth_type ≡ jwt
      → (token : String) × (claims : Dict) × (bearer ≡ some token)
        × (verify_jwt s v token ≡ ok claims)
        × (ctx.claims ≡ some claims)
  unfolding by_token
  jwt_by_token none x_api_key ctx h t = absurd (ground arith)
  jwt_by_token (some token) x_api_key ctx h t = elim (Result-cases (verify_jwt s v token)) [
    | inl (claims, e) ↦ (token, claims, refl, e, ground arith)
    | inr (e, bad) ↦ absurd (ground arith)
  ]

  jwt_by_mode :
      (authorization x_api_key : String) (ctx : AuthContext)
      → require_auth s v authorization x_api_key ≡ ok ctx
      → ctx.auth_type ≡ jwt
      → by_token s v (extract_bearer authorization) x_api_key ≡ ok ctx
  unfolding require_auth
  jwt_by_mode authorization x_api_key ctx h t = ground arith

  -- A JWT identity is given only for a bearer token of the header that was verified, and it carries
  -- the claims of that token.
  pub jwt_sound :
      (authorization x_api_key : String) (ctx : AuthContext)
      → require_auth s v authorization x_api_key ≡ ok ctx
      → ctx.auth_type ≡ jwt
      → IsVerified authorization ctx
  jwt_sound authorization x_api_key ctx h t =
      let (token, claims, extracted, verified, carried) =
        jwt_by_token (extract_bearer authorization) x_api_key ctx
          (jwt_by_mode authorization x_api_key ctx h t) t in
      record {
        token = token;
        claims = claims;
        extracted = extracted;
        verified = verified;
        carried = carried;
      }

  require_auth_jwt :
      (authorization x_api_key : String)
      → auth_mode s v ≡ "jwt"
      → require_auth s v authorization x_api_key
        ≡ by_token s v (extract_bearer authorization) x_api_key
  unfolding require_auth
  require_auth_jwt authorization x_api_key m = rw m

  require_auth_api_key :
      (authorization x_api_key : String)
      → auth_mode s v ≡ "api_key"
      → require_auth s v authorization x_api_key ≡ by_api_key s v x_api_key
  unfolding require_auth
  require_auth_api_key authorization x_api_key m = rw m

  -- In production under AUTH_MODE=jwt every accepted request carries a verified bearer token: no API
  -- key is accepted in its place, whatever the settings.
  pub prod_jwt_only :
      (authorization x_api_key : String) (ctx : AuthContext)
      → is_prod s v ≡ true
      → auth_mode s v ≡ "jwt"
      → require_auth s v authorization x_api_key ≡ ok ctx
      → (ctx.auth_type ≡ jwt) × IsVerified authorization ctx
  unfolding by_token
  prod_jwt_only authorization x_api_key ctx p m h =
      let t =
        of_token (extract_bearer authorization)
          (sym (require_auth_jwt authorization x_api_key m) ∙ h) in
      (t, jwt_sound authorization x_api_key ctx h t)
    where
      of_token :
          (bearer : Option String) → by_token s v bearer x_api_key ≡ ok ctx → ctx.auth_type ≡ jwt
      of_token none e = ground arith
      of_token (some token) e = ground arith

  -- Under AUTH_MODE=api_key a request is accepted exactly where its key is configured, and it is a
  -- service exactly where the key is a service key, also where it is a user key too.
  pub api_key_decides :
      (authorization x_api_key : String)
      → auth_mode s v ≡ "api_key"
      → ((ctx : AuthContext)
          → require_auth s v authorization x_api_key ≡ ok ctx
          → (valid_key s v x_api_key ≡ true)
            × ((ctx.auth_type ≡ service_api_key) ↔ (valid_service_key s v x_api_key ≡ true)))
        × (valid_key s v x_api_key ≡ true
            → (ctx : AuthContext) × (require_auth s v authorization x_api_key ≡ ok ctx))
  unfolding by_api_key
  api_key_decides authorization x_api_key m = rw (require_auth_api_key authorization x_api_key m) (
    (λ ctx h. ground arith),
    (λ h. elim (Bool-cases (valid_service_key s v x_api_key)) [
      | inl e ↦
          (record { subject = "service"; auth_type = service_api_key; claims = none }, ground arith)
      | inr e ↦ (record { subject = "user"; auth_type = user_api_key; claims = none }, ground arith)
    ]),
  )

  -- In production no accepted request is anonymous.
  pub prod_not_anonymous :
      (authorization x_api_key : String) (ctx : AuthContext)
      → is_prod s v ≡ true
      → require_auth s v authorization x_api_key ≡ ok ctx
      → ctx.auth_type ≢ anonymous
  unfolding require_auth
  prod_not_anonymous authorization x_api_key ctx p h = ground arith
