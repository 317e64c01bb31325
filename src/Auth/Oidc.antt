-- ===== src/Auth/Oidc.antt =====
-- The OIDC authenticator: internal/middleware/auth/oidc.go.
-- The library go-oidc and the HTTP client are parameters (`OidcLibrary`).
use tanugate.Common.{
  ℕ, ◌<>◌, String, Bool, true, not, ◌&&◌, ◌||◌, Option, none, some, List, [], ◌∷◌, Result, ok, err,
  ◌>>=◌, map_err, ◌==◌, ◌===◌, if◌then◌else◌,
}
use tanugate.Http.{Bytes, AuthResult, Request, Json, text, bool}
use tanugate.Config.{OidcConfig}
use tanugate.Auth.Bearer.{bearer_token}

-- `oidc.Config`.
pub record VerifierConfig : Type 0 where
  pub client_id : String
  pub skip_client_id_check : Bool
  pub supported_signing_algs : List String
  pub skip_issuer_check : Bool

pub record IdToken : Type 0 where
  pub subject : String
  pub claims : Result String (List (String × Json))

-- An error of `Verify`: `TokenExpiredError`, or one with a message.
pub data VerifyError : Type 0 where
  token_expired : VerifyError
  with_message : String → VerifyError

-- `introspectionResponse`.
pub record IntrospectionResponse : Type 0 where
  pub active : Bool
  pub sub : String
  pub client_id : String

-- The request for an introspection: its address, the token, and the credentials.
pub record Introspection : Type 0 where
  pub url : String
  pub token : String
  pub basic_auth : Option (String × String)

pub record OidcLibrary (W : Type 0) : Type 1 where
  pub Verifier : Type 0
  pub discover : String → VerifierConfig → Result String Verifier
  pub remote_key_set : String → String → VerifierConfig → Verifier
  pub verify : Verifier → String → W → Result VerifyError IdToken × W
  pub new_request : Introspection → Option String
  pub post : Introspection → W → Result String (ℕ × Bytes) × W
  pub decode : Bytes → Result String IntrospectionResponse
  pub contains_text : String → String → Bool
  pub format_int : ℕ → String

-- How `Authenticate` ends: the call of a method on a nil verifier is a panic.
pub data Outcome : Type 0 where
  returned : Result String AuthResult → Outcome
  nil_verifier : Outcome

-- `buildOIDCConfig`.
unfoldable pub build_oidc_config : OidcConfig → VerifierConfig
build_oidc_config cfg = record {
  client_id = cfg.audience;
  skip_client_id_check = cfg.audience === "";
  supported_signing_algs = cfg.allowed_algorithms;
  skip_issuer_check = if cfg.issuer_url === "" then true else cfg.skip_issuer_check;
}

module _ {W : Type 0} (lib : OidcLibrary W) where
  open lib use {
    Verifier, discover, remote_key_set, verify, new_request, post, decode, contains_text,
    format_int,
  }

  -- `OIDCAuthenticator`, without its client and its background context.
  pub record OidcAuthenticator : Type 0 where
    pub verifier : Option Verifier
    pub audience : String
    pub introspection_url : String
    pub client_id : String
    pub client_secret : String

  abbrev pub with_verifier : OidcConfig → Option Verifier → OidcAuthenticator
  with_verifier cfg v = record {
    verifier = v;
    audience = cfg.audience;
    introspection_url = cfg.introspection_url;
    client_id = cfg.client_id;
    client_secret = cfg.client_secret;
  }

  abbrev pub verifier_of : OidcConfig → Result String Verifier
  verifier_of cfg =
      if not (cfg.issuer_url === "")
      then map_err (λ e. "oidc discovery: " <> e) (discover cfg.issuer_url (build_oidc_config cfg))
      else if not (cfg.jwks_url === "")
      then ok (
          remote_key_set cfg.issuer_url cfg.jwks_url
            (record (build_oidc_config cfg) { skip_issuer_check = true }))
      else err "oidc: either jwks_url, issuer_url, or introspection_url is required"

  -- `NewOIDCAuthenticator`.
  unfoldable pub new_oidc_authenticator : OidcConfig → Result String OidcAuthenticator
  unfolding build_oidc_config
  new_oidc_authenticator cfg =
      if not (cfg.introspection_url === "") && cfg.jwks_url === "" && cfg.issuer_url === ""
      then ok (with_verifier cfg none)
      else verifier_of cfg >>= λ v. ok (with_verifier cfg (some v))

  -- `classifyVerifyError`.
  abbrev pub classify_verify_error : VerifyError → String
  classify_verify_error token_expired = "token expired"
  classify_verify_error (with_message e) =
      if contains_text e "issuer" || contains_text e "different provider"
      then "invalid token issuer"
      else if contains_text e "audience"
      then "invalid token audience"
      else "invalid token: " <> e

  abbrev pub verified : Result VerifyError IdToken → Result String AuthResult
  verified (err e) = err (classify_verify_error e)
  verified (ok t) = map_err (λ e. "extracting claims: " <> e) t.claims >>= λ claims.
      ok (record { subject = t.subject; claims = some claims; name = ""; provider = "" })

  -- `verifyToken`.
  abbrev pub verify_token : Option Verifier → String → W → Outcome × W
  verify_token none token w = (nil_verifier, w)
  verify_token (some v) token w =
      let (outcome, w') = verify v token w in (returned (verified outcome), w')

  abbrev pub credentials : OidcAuthenticator → Option (String × String)
  credentials a =
      if not (a.client_id === "") && not (a.client_secret === "")
      then some (a.client_id, a.client_secret)
      else none

  abbrev pub if_active : IntrospectionResponse → Result String AuthResult
  if_active result =
      if result.active
      then ok (record {
        subject = result.sub;
        claims = some (
            ("sub", text result.sub)
            ∷ (("client_id", text result.client_id) ∷ (("active", bool true) ∷ [])));
        name = "";
        provider = "";
      })
      else err "token is not active"

  abbrev pub introspected : Result String (ℕ × Bytes) → Result String AuthResult
  introspected (err e) = err ("introspection request failed: " <> e)
  introspected (ok (status, body)) =
      if status == 200
      then map_err (λ e. "introspection decode: " <> e) (decode body) >>= if_active
      else err ("introspection endpoint returned status " <> format_int status)

  abbrev pub post_or_fail : Introspection → Option String → W → Result String AuthResult × W
  post_or_fail request (some e) w = (err ("introspection request: " <> e), w)
  post_or_fail request none w = let (response, w') = post request w in (introspected response, w')

  -- `introspect`.
  abbrev pub introspect : OidcAuthenticator → String → W → Result String AuthResult × W
  introspect a token w =
      let request : Introspection = record {
        url = a.introspection_url;
        token = token;
        basic_auth = credentials a;
      } in
      post_or_fail request (new_request request) w

  abbrev pub authenticate_oidc_token : OidcAuthenticator → Result String String → W → Outcome × W
  authenticate_oidc_token a (err e) w = (returned (err e), w)
  authenticate_oidc_token a (ok token) w =
      if a.introspection_url === ""
      then verify_token a.verifier token w
      else (let (outcome, w') = introspect a token w in (returned outcome, w'))

  -- `OIDCAuthenticator.Authenticate`.
  unfoldable pub authenticate_oidc : OidcAuthenticator → Request → W → Outcome × W
  unfolding bearer_token
  authenticate_oidc a r w = authenticate_oidc_token a (bearer_token r) w
