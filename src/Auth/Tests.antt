-- ===== src/Auth/Tests.antt =====
-- Authentication at concrete providers and keys.
use tanugate.Common.{ℕ, suc, ◌≡◌, refl, String, none, List, [], ◌∷◌, lookup, contains}
use tanugate.Http.{AuthResult, Request, Handler, reply, no_body, with_context, write_header}
use tanugate.Http.Headers
use tanugate.Auth.{
  Authenticator, with_auth_result, try_providers, new_auth_middleware, ApiKeyAuthenticator,
  find_key, key_result, authenticate,
}
use tanugate.Auth.Guard.{refuses, refuse_none, refuse_more, accepts, new_auth_middleware-Accepts}

auth : Unit {0}
unfolding try_providers new_auth_middleware find_key authenticate lookup contains Headers.get
    Headers.canonical
auth = tt

abbrev first : ApiKeyAuthenticator
first = record { header = "X-Key"; keys = record { key = "k1"; name = "ann" } ∷ [] }

abbrev second : ApiKeyAuthenticator
second = record {
  header = "X-Key";
  keys = record { key = "k0"; name = "zoe" } ∷ (record { key = "k2"; name = "bob" } ∷ []);
}

abbrev authenticators : List (String × Authenticator ℕ)
authenticators = ("a", authenticate first) ∷ (("b", authenticate second) ∷ [])

abbrev ask : String → Request
ask key = record {
  method = "GET";
  host = "h";
  path = "/";
  remote_addr = "10.0.0.1:99";
  header = ("X-Key", key ∷ []) ∷ [];
  body = no_body;
  context = record {
    request_id = none;
    auth_result = none;
    matched_route = none;
    start_time = none;
  };
}

abbrev serve : Handler ℕ
serve r w = reply (write_header 200 ∷ []) (suc w)

abbrev bob : AuthResult
bob = key_result (record { key = "k2"; name = "bob" })

abbrev behind : Request
behind =
    with_context (ask "k2") (with_auth_result (ask "k2").context (record bob { provider = "b" }))

new_auth_middleware-Accepts_example :
    new_auth_middleware authenticators ("a" ∷ ("b" ∷ [])) serve (ask "k2") 5 ≡ serve behind 5
unfolding auth
new_auth_middleware-Accepts_example =
    new_auth_middleware-Accepts authenticators (ask "k2") serve ("a" ∷ []) [] "b" bob 5 5 5
      (λ x. cc) (refuse_more (refuses (authenticate first) "invalid API key" refl refl) refuse_none)
      (accepts (authenticate second) refl refl)
