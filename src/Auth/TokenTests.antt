-- ===== src/Auth/TokenTests.antt =====
-- The authenticators for tokens with libraries that know one token.
use tanugate.Common.{
  ℕ, ◌≡◌, ◌≢◌, refl, String, true, false, none, some, [], ◌∷◌, lookup, Result, ok, err, has_prefix,
  cut_prefix, map_chars, contains, Bool, Option, ◌===◌, ◌&&◌, eq_iff, arith, ap, sym, ◌∙◌,
}
use tanugate.Http.{Request, no_body, AuthResult}
use tanugate.Http.Headers
use tanugate.Http.Headers.{lower_char}
use tanugate.Config.{JwtConfig, OidcConfig}
use tanugate.Auth.Bearer.{split_space, equal_fold, bearer_token}
use tanugate.Auth.Jwt.{
  Family, hmac, JwtToken, JwtError, ParserOptions, other_error, JwtLibrary, JwtAuthenticator,
  new_jwt_authenticator, key_func, authenticate_jwt,
}
use tanugate.Auth.Oidc.{
  OidcLibrary, OidcAuthenticator, nil_verifier, new_oidc_authenticator, build_oidc_config,
  authenticate_oidc,
}
use tanugate.Auth.Keys.{IsSound}
use tanugate.Auth.Tokens.{IsAccepted, authenticate_jwt-IsAccepted, authenticate_oidc_usable}

abbrev known : JwtToken
known = record { method = hmac; alg = "HS256"; claims = some []; valid = true; subject = "bob" }

abbrev accept : Bool → Result String Family → Result JwtError JwtToken
accept true (ok key) = ok known
accept true (err e) = err (other_error e)
accept false o = err (other_error "claims")

abbrev wanted : Option String → String → Bool
wanted none s = true
wanted (some t) s = s === t

abbrev fits : ParserOptions → Bool
fits options =
    contains "HS256" options.valid_methods
    && wanted options.issuer "https://issuer"
    && wanted options.audience "api"

abbrev lib : JwtLibrary ℕ
lib = record {
  Key = Family;
  family_of = λ k. k;
  secret_key = λ s. hmac;
  parse = λ token kf options w. (accept (fits options) (kf known), w);
  read_file = λ path. err "no such file";
  pem_decode = λ b. none;
  issuer_of = λ t. some "https://issuer";
  audience_of = λ t. "api" ∷ [];
  parse_pkix = λ b. err "no key";
  parse_pkcs1 = λ b. none;
}

accept-ok :
    (b : Bool) (kf : JwtToken → Result String Family) (o : Result String Family) (t : JwtToken)
    → kf known ≡ o
    → accept b o ≡ ok t
    → (b ≡ true) × (known ≡ t) × (key : Family) × (kf known ≡ ok key)
accept-ok true kf (err e) t k h = cc
accept-ok true kf (ok key) t k h = (refl, cc, key, k)
accept-ok false kf o t k h = cc

module _ (options : ParserOptions) (fit : fits options ≡ true) where
  fits_methods : contains "HS256" options.valid_methods ≡ true
  fits_methods = ground (arith, fit)

  fits_issuer : wanted options.issuer "https://issuer" ≡ true
  fits_issuer = ground (arith, fit)

  fits_audience : wanted options.audience "api" ≡ true
  fits_audience = ground (arith, fit)

wanted_eq : (o : Option String) (s t : String) → wanted o s ≡ true → o ≡ some t → s ≡ t
wanted_eq none s t h k = cc
wanted_eq (some u) s t h k = let e = (eq_iff s u).0 h in cc

sound : IsSound lib
unfolding contains
sound = record {
  keyed = λ token kf options w t h.
      let (_, e, key, k) = accept-ok (fits options) kf (kf known) t refl h in
      (known, key, k, ap (λ (x : JwtToken). x.method) e, ap (λ (x : JwtToken). x.alg) e);
  method_checked = λ token kf options w t h.
      let (b, e, _, _) = accept-ok (fits options) kf (kf known) t refl h in
      ap (λ (x : JwtToken). contains x.alg options.valid_methods) (sym e) ∙ fits_methods options b;
  issuer_checked = λ token kf options w t issuer h k.
      let (b, _, _, _) = accept-ok (fits options) kf (kf known) t refl h in
      ap (λ i. some i) (wanted_eq options.issuer "https://issuer" issuer (fits_issuer options b) k);
  audience_checked = λ token kf options w t audience h k.
      let (b, _, _, _) = accept-ok (fits options) kf (kf known) t refl h in
      let e = wanted_eq options.audience "api" audience (fits_audience options b) k in
      ground (arith, eq_iff audience "api");
  secret = λ s. refl;
  pkcs1 = λ b key h. cc;
}

abbrev jwt_cfg : JwtConfig
jwt_cfg = record {
  secret = "s";
  public_key_file = "";
  algorithm = "HS256";
  issuer = "https://issuer";
  audience = "api";
}

abbrev made : JwtAuthenticator lib
made = record {
  signing_key = hmac;
  algorithm = "HS256";
  issuer = "https://issuer";
  audience = "api";
}

abbrev ask : Request
ask = record {
  method = "GET";
  host = "h";
  path = "/";
  remote_addr = "";
  header = ("Authorization", "bearer abc" ∷ []) ∷ [];
  body = no_body;
  context = record {
    request_id = none;
    auth_result = none;
    matched_route = none;
    start_time = none;
  };
}

abbrev bob : AuthResult
bob = record { subject = "bob"; claims = some []; name = ""; provider = "" }

tokens : Unit {0}
unfolding bearer_token split_space equal_fold map_chars lower_char Headers.get Headers.canonical
    lookup has_prefix cut_prefix contains new_jwt_authenticator key_func authenticate_jwt
    new_oidc_authenticator build_oidc_config
tokens = tt

authenticate_jwt-IsAccepted_example : IsAccepted lib sound jwt_cfg made ask 0 bob
unfolding tokens
authenticate_jwt-IsAccepted_example =
    authenticate_jwt-IsAccepted lib sound jwt_cfg made ask 0 bob refl refl

abbrev oidc_lib : OidcLibrary ℕ
oidc_lib = record {
  Verifier = String;
  discover = λ issuer cfg. ok issuer;
  remote_key_set = λ issuer url cfg. url;
  verify = λ v token w. (ok (record { subject = "bob"; claims = ok [] }), w);
  new_request = λ i. none;
  post = λ i w. (err "down", w);
  decode = λ b. err "no JSON";
  contains_text = λ s t. false;
  format_int = λ n. "500";
}

abbrev oidc_cfg : OidcConfig
oidc_cfg = record {
  issuer_url = "https://issuer";
  jwks_url = "";
  introspection_url = "";
  client_id = "";
  client_secret = "";
  audience = "";
  skip_issuer_check = false;
  allowed_algorithms = [];
}

abbrev oidc_made : OidcAuthenticator oidc_lib
oidc_made = record {
  verifier = some "https://issuer";
  audience = "";
  introspection_url = "";
  client_id = "";
  client_secret = "";
}

authenticate_oidc_usable_example : (authenticate_oidc oidc_lib oidc_made ask 0).0 ≢ nil_verifier
unfolding tokens
authenticate_oidc_usable_example = authenticate_oidc_usable oidc_lib oidc_cfg oidc_made ask 0 refl
