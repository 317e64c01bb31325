-- ===== src/Auth/Tokens.antt =====
-- What the authenticators for tokens accept: internal/middleware/auth/jwt.go and oidc.go.
use tanugate.Common.{
  ◌≡◌, ◌≢◌, refl, ap, sym, subst, inl, inr, String, Bool, true, false, ◌&&◌, Option, none, some,
  List, Result, ok, err, ◌>>=◌, >>=-eq-ok, ◌===◌, Bool-cases, arith, ◌∙◌, ◌⊎◌, [], ◌∷◌, contains,
  eq_iff,
}
use tanugate.Http.{AuthResult, Request, Json}
use tanugate.Config.{JwtConfig, OidcConfig}
use tanugate.Auth.Bearer.{bearer_token}
use tanugate.Auth.Jwt.{
  JwtToken, JwtError, JwtLibrary, JwtAuthenticator, same_family, new_jwt_authenticator, key_func,
  parser_options, parsed, authenticate_token, authenticate_jwt, valid_claims, when_set,
}
use tanugate.Auth.Oidc.{
  OidcLibrary, OidcAuthenticator, nil_verifier, new_oidc_authenticator, with_verifier, verifier_of,
  verify_token, authenticate_oidc_token, authenticate_oidc,
}
use tanugate.Auth.Keys.{
  IsSound, family_of_algorithm, same_family_eq, if_ok, new_jwt_authenticator-ok,
  new_jwt_authenticator-fields,
}

module _ {W : Type 0} (lib : JwtLibrary W) (sound : IsSound lib) where
  -- A request that was accepted had a bearer token that parsed, as valid, under the configured
  -- algorithm and a method of its family, with the configured issuer and audience where there are
  -- any, and gave its subject and its claims.
  pub record IsAccepted (cfg : JwtConfig) (a : JwtAuthenticator lib) (r : Request) (w : W)
      (result : AuthResult) : Type 0 where
    pub token : String
    pub presented : bearer_token r ≡ ok token
    pub t : JwtToken
    pub parses : (lib.parse token (key_func lib a) (parser_options lib a) w).0 ≡ ok t
    pub valid : t.valid ≡ true
    pub method : t.method ≡ family_of_algorithm cfg.algorithm
    pub algorithm : t.alg ≡ cfg.algorithm
    pub issuer : (cfg.issuer ≡ "") ⊎ (lib.issuer_of t ≡ some cfg.issuer)
    pub audience : (cfg.audience ≡ "") ⊎ (contains cfg.audience (lib.audience_of t) ≡ true)
    pub subject : result.subject ≡ t.subject
    pub claims : result.claims ≡ t.claims

  when_set_cases : (s : String) → (s ≡ "") ⊎ (when_set s ≡ some s)
  when_set_cases s = elim (Bool-cases (s === "")) [
    | inl e ↦ inl ((eq_iff s "").0 e)
    | inr e ↦ inr (rw e refl)
  ]

  only_member : (x y : String) → contains x (y ∷ []) ≡ true → x ≡ y
  unfolding contains
  only_member x y h = ground (arith, eq_iff x y, eq_iff y x)

  key_func-family :
      (a : JwtAuthenticator lib) (t : JwtToken) (key : lib.Key)
      → key_func lib a t ≡ ok key
      → lib.family_of a.signing_key ≡ t.method
  unfolding key_func
  key_func-family a t key h =
      let (e, _) =
        if_ok (same_family (lib.family_of a.signing_key) t.method) a.signing_key _ key h in
      same_family_eq (lib.family_of a.signing_key) t.method e

  valid_claims-ok :
      (a : JwtAuthenticator lib) (t : JwtToken) (valid : Bool)
      (claims : Option (List (String × Json))) (result : AuthResult)
      → valid_claims lib a t valid claims ≡ ok result
      → (valid ≡ true) × (result.subject ≡ t.subject) × (result.claims ≡ claims)
  valid_claims-ok a t true (some claims) result h =
      let same = (if_ok true _ "" result h).1 in
      (
        refl,
        ap (λ (x : AuthResult). x.subject) (sym same),
        ap (λ (x : AuthResult). x.claims) (sym same),
      )
  valid_claims-ok a t true none result h = cc
  valid_claims-ok a t false claims result h = cc

  parsed-ok :
      (a : JwtAuthenticator lib) (o : Result JwtError JwtToken) (result : AuthResult)
      → parsed lib a o ≡ ok result
      → (t : JwtToken) × (o ≡ ok t)
        × (t.valid ≡ true)
        × (result.subject ≡ t.subject)
        × (result.claims ≡ t.claims)
  parsed-ok a (err e) result h = cc
  parsed-ok a (ok t) result h =
      let (v, s, c) = valid_claims-ok a t t.valid t.claims result h in (t, refl, v, s, c)

  authenticate_token-IsAccepted :
      (cfg : JwtConfig) (a : JwtAuthenticator lib) (r : Request) (w : W) (result : AuthResult)
      (presented : Result String String)
      → new_jwt_authenticator lib cfg ≡ ok a
      → bearer_token r ≡ presented
      → (authenticate_token lib a presented w).0 ≡ ok result
      → IsAccepted cfg a r w result
  authenticate_token-IsAccepted cfg a r w result (err e) made b h = cc
  authenticate_token-IsAccepted cfg a r w result (ok token) made b h =
      let (t, p, v, s, c) = parsed-ok a _ result h in
      let kf = key_func lib a in
      let options = parser_options lib a in
      let (seen, key, k, same, _) = sound.keyed token kf options w t p in
      let (algorithm, issuer, audience) = new_jwt_authenticator-fields lib sound cfg a made in
      let checked = sound.method_checked token kf options w t p in
      record {
        token = token;
        presented = b;
        t = t;
        parses = p;
        valid = v;
        method =
            sym same
            ∙ sym (key_func-family a seen key k)
            ∙ new_jwt_authenticator-ok lib sound cfg a made;
        algorithm = only_member t.alg a.algorithm checked ∙ algorithm;
        issuer = elim (when_set_cases a.issuer) [
          | inl e ↦ inl (sym issuer ∙ e)
          | inr e ↦
              inr (sound.issuer_checked token kf options w t a.issuer p e ∙ ap (λ i. some i) issuer)
        ];
        audience = elim (when_set_cases a.audience) [
          | inl e ↦ inl (sym audience ∙ e)
          | inr e ↦ inr (
              ap (λ i. contains i (lib.audience_of t)) (sym audience)
              ∙ sound.audience_checked token kf options w t a.audience p e)
        ];
        subject = s;
        claims = c;
      }

  -- If the library gives the documented guarantees and an authenticator was made for a
  -- configuration: it accepts a request only with a bearer token that the library parsed as valid,
  -- under the configured algorithm and a method of its family, with the configured issuer and
  -- audience where they are not empty, and the result has the token's subject and claims.
  pub authenticate_jwt-IsAccepted :
      (cfg : JwtConfig) (a : JwtAuthenticator lib) (r : Request) (w : W) (result : AuthResult)
      → new_jwt_authenticator lib cfg ≡ ok a
      → (authenticate_jwt lib a r w).0 ≡ ok result
      → IsAccepted cfg a r w result
  unfolding authenticate_jwt
  authenticate_jwt-IsAccepted cfg a r w result made accepted =
      authenticate_token-IsAccepted cfg a r w result (bearer_token r) made refl accepted

module _ {W : Type 0} (lib : OidcLibrary W) where
  -- An authenticator that can check tokens.
  abbrev IsUsable : OidcAuthenticator lib → Type 0
  IsUsable a = ((a.introspection_url === "") ≡ true) → (v : lib.Verifier) × (a.verifier ≡ some v)

  with_some :
      (cfg : OidcConfig) (a : OidcAuthenticator lib)
      → (verifier_of lib cfg >>= λ v. ok (with_verifier lib cfg (some v))) ≡ ok a
      → (v : lib.Verifier) × (a.verifier ≡ some v)
  with_some cfg a h =
      let (v, _, k) = >>=-eq-ok (verifier_of lib cfg) _ h in
      (v, ap (λ (x : OidcAuthenticator lib). x.verifier) (sym (if_ok true _ "" a k).1))

  token_usable :
      (a : OidcAuthenticator lib) (presented : Result String String) (w : W)
      → IsUsable a
      → (authenticate_oidc_token lib a presented w).0 ≢ nil_verifier
  token_usable a (err e) w u = λ n. cc
  token_usable a (ok token) w u = elim (Bool-cases (a.introspection_url === "")) [
    | inl e ↦
        let (v, k) = u e in
        rw e (subst (λ o. (verify_token lib o token w).0 ≢ nil_verifier) (sym k) (λ n. cc))
    | inr e ↦ rw e (λ n. cc)
  ]

  new_oidc_authenticator-IsUsable :
      (cfg : OidcConfig) (a : OidcAuthenticator lib)
      → new_oidc_authenticator lib cfg ≡ ok a
      → IsUsable a
  unfolding new_oidc_authenticator
  new_oidc_authenticator-IsUsable cfg a h u = elim (Bool-cases (cfg.introspection_url === "")) [
    | inl e ↦ with_some cfg a (rw e at h)
    | inr e ↦ elim (Bool-cases (cfg.jwks_url === "" && cfg.issuer_url === "")) [
      | inl f ↦
          let same = (if_ok true _ "" a (rw (e, f) at h)).1 in
          absurd (
            ground
              (arith, e, ap (λ (x : OidcAuthenticator lib). x.introspection_url === "") same, u))
      | inr f ↦ with_some cfg a (rw (e, f) at h)
    ]
  ]

  -- An authenticator that was made never calls a method of a nil verifier.
  pub authenticate_oidc_usable :
      (cfg : OidcConfig) (a : OidcAuthenticator lib) (r : Request) (w : W)
      → new_oidc_authenticator lib cfg ≡ ok a
      → (authenticate_oidc lib a r w).0 ≢ nil_verifier
  unfolding authenticate_oidc
  authenticate_oidc_usable cfg a r w made =
      token_usable a (bearer_token r) w (new_oidc_authenticator-IsUsable cfg a made)
