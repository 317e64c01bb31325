-- ===== src/Auth.antt =====
-- Authentication: internal/middleware/auth/auth.go and apikey.go.
-- An authenticator may consult the network, so it acts on the world. The constructors of the JWT and
-- OIDC authenticators are parameters here; Jwt and Oidc model them.
pub mod Guard
pub mod Bearer
pub mod Jwt
pub mod Oidc
mod Keys
pub mod Tokens
mod ApiKey
mod TokenTests
mod Tests
use tanugate.Common.{
  ℕ, ◌<>◌, String, Bool, true, false, ◌&&◌, Option, none, some, List, [], ◌∷◌, lookup, Result, ok,
  err, ◌==◌, ◌===◌, join, if◌then◌else◌,
}
use tanugate.Http.{
  AuthResult, Context, Request, Call, set_header, write_header, write, Reply, reply, Handler,
  Middleware, with_context, json_error, text,
}
use tanugate.Http.Headers
use tanugate.Config.{AuthProvider, JwtConfig, OidcConfig, ApiKeyConfig, ApiKeyEntry}

-- `Authenticator`.
abbrev pub Authenticator : Type 0 → Type 0
Authenticator W = Request → W → Result String AuthResult × W

-- `WithAuthResult`.
abbrev pub with_auth_result : Context → AuthResult → Context
with_auth_result ctx result = record ctx { auth_result = some result }

-- `writeError`.
unfoldable pub write_error : ℕ → String → List Call
write_error status message =
    let err_key =
      (if status == 403
        then "forbidden"
        else if status == 500
        then "internal_error"
        else "unauthorized") in
    set_header "Content-Type" "application/json"
    ∷ (write_header status ∷ (write (json_error err_key message) ∷ []))

-- How the loop over the providers ends.
pub data Verdict (W : Type 0) : Type 0 where
  unknown_provider : W → Verdict W
  accepted : AuthResult → W → Verdict W
  all_failed : List String → W → Verdict W

module _ {W : Type 0} where
  -- The loop over the providers, with the errors so far, the last one first.
  unfoldable pub try_providers :
      List (String × Authenticator W) → List String → List String → Request → W → Verdict W
  try_providers authenticators [] errors r w = all_failed errors w
  try_providers authenticators (name ∷ names) errors r w = elim (lookup name authenticators) [
    | none ↦ unknown_provider w
    | some authn ↦
        let (outcome, w') = authn r w in
        elim outcome [
          | ok result ↦ accepted (record result { provider = name }) w'
          | err e ↦ try_providers authenticators names ((name <> ": " <> e) ∷ errors) r w'
        ]
  ]

  abbrev pub answer : Handler W → Request → Verdict W → Reply W
  answer next r (unknown_provider w) = reply (write_error 500 "misconfigured auth provider") w
  answer next r (accepted result w) = next (with_context r (with_auth_result r.context result)) w
  answer next r (all_failed errors w) = reply (write_error 401 "authentication failed") w

  -- `NewAuthMiddleware`.
  unfoldable pub new_auth_middleware : List (String × Authenticator W) → List String → Middleware W
  unfolding try_providers
  new_auth_middleware authenticators [] next r w =
      reply (write_error 500 "misconfigured auth middleware") w
  new_auth_middleware authenticators (name ∷ []) next r w =
      if name === "none"
      then next r w
      else answer next r (try_providers authenticators (name ∷ []) [] r w)
  new_auth_middleware authenticators (name ∷ (other ∷ names)) next r w =
      answer next r (try_providers authenticators (name ∷ (other ∷ names)) [] r w)

-- `APIKeyAuthenticator`.
pub record ApiKeyAuthenticator : Type 0 where
  pub header : String
  pub keys : List ApiKeyEntry

unfoldable pub new_api_key_authenticator : ApiKeyConfig → ApiKeyAuthenticator
new_api_key_authenticator cfg = record {
  header = if cfg.header === "" then "X-API-Key" else cfg.header;
  keys = cfg.keys;
}

unfoldable pub find_key : String → List ApiKeyEntry → Option ApiKeyEntry
find_key key [] = none
find_key key (entry ∷ entries) = if key === entry.key then some entry else find_key key entries

abbrev pub key_result : ApiKeyEntry → AuthResult
key_result entry = record {
  subject = entry.name;
  claims = some (("key_name", text entry.name) ∷ []);
  name = entry.name;
  provider = "";
}

-- `APIKeyAuthenticator.Authenticate`.
unfoldable pub authenticate : {W : Type 0} → ApiKeyAuthenticator → Authenticator W
unfolding find_key
authenticate a r w =
    let key = Headers.get r.header a.header in
    if key === "" then (err "missing API key", w) else (elim (find_key key a.keys) [
      | none ↦ (err "invalid API key", w)
      | some entry ↦ (ok (key_result entry), w)
    ])

-- `NewAuthenticator`, with the constructors of the other two authenticators.
module _ {W : Type 0} (new_jwt : JwtConfig → Result String (Authenticator W))
    (new_oidc : OidcConfig → Result String (Authenticator W)) where
  unfoldable pub new_authenticator : AuthProvider → Result String (Authenticator W)
  unfolding authenticate new_api_key_authenticator
  new_authenticator provider =
      if provider.type === "jwt"
      then (elim provider.jwt [
        | none ↦ err ("auth provider type \"jwt\" requires jwt config")
        | some cfg ↦ new_jwt cfg
      ])
      else if provider.type === "apikey"
      then (elim provider.api_key [
        | none ↦ err ("auth provider type \"apikey\" requires api_key config")
        | some cfg ↦ ok (authenticate (new_api_key_authenticator cfg))
      ])
      else if provider.type === "oidc"
      then (elim provider.oidc [
        | none ↦ err ("auth provider type \"oidc\" requires oidc config")
        | some cfg ↦ new_oidc cfg
      ])
      else err ("unknown auth provider type: \"" <> provider.type <> "\"")
