-- ===== src/Config/Semantic.antt =====
-- Semantic checks of a configuration: `semanticErrors` in internal/config/config.go.
-- Each message is a constructor of `ConfigError`. The two regular expression tests,
-- `regexp.Compile` and `hasUnresolvedEnvVar`, are parameters.
pub mod Chains
pub mod Tests
use tanugate.Common.{
  ℕ, suc, ◌<>◌, String, Bool, true, false, not, ◌&&◌, ◌||◌, Option, none, some, List, [], ◌∷◌, ◌++◌,
  contains, map, Result, ok, err, has_prefix, ltb, ◌===◌, ◌==◌, if◌then◌else◌,
}
use tanugate.Config.{
  GatewayConfig, RouteConfig, MiddlewareRef, ResolvedMiddleware, TypedConfig, rate_limit_config,
  AuthProvider, JwtConfig, ApiKeyConfig, ApiKeyEntry, OidcConfig, RedisConfig, cors_config,
  auth_config, transform_config,
}
use tanugate.Config.Resolve.{Decoder, ResolveError, resolve_middlewares}
use tanugate.Config.Hosts.{HostError, validate_host_pattern}
use tanugate.Config.Checks.{MiddlewareError, validate_resolved_middlewares}

-- A field that has to be free of `${VAR}`.
pub data Field : Type 0 where
  jwt_secret oidc_client_secret : String → Field
  api_key : String → ℕ → Field
  redis_addr redis_password : Field

-- What is wrong with a route.
pub data RouteError : Type 0 where
  invalid_path_regex : RouteError
  invalid_host : HostError → RouteError
  invalid_header_regex : String → RouteError
  unknown_skip : String → RouteError
  unresolved : ResolveError → RouteError
  middleware_error : MiddlewareError → RouteError
  cors_not_first : String → ℕ → RouteError
  many_cors : ℕ → RouteError
  claim_without_auth : String → RouteError

pub data ConfigError : Type 0 where
  duplicate_route : String → ConfigError
  unresolved_variable : Field → ConfigError
  global_unresolved : ResolveError → ConfigError
  global_error : MiddlewareError → ConfigError
  in_route : String → RouteError → ConfigError

unfoldable pub duplicate_routes : List String → List RouteConfig → List ConfigError
unfolding contains
duplicate_routes seen [] = []
duplicate_routes seen (route ∷ routes) =
    let rest = duplicate_routes (route.name ∷ seen) routes in
    if contains route.name seen then duplicate_route route.name ∷ rest else rest

-- `effectiveChain`: the globals that the route does not skip, and the route's own.
unfoldable pub effective_chain :
    Option (List ResolvedMiddleware)
    → List String
    → List ResolvedMiddleware
    → List ResolvedMiddleware
unfolding contains
effective_chain none skipped own = own
effective_chain (some []) skipped own = own
effective_chain (some (mw ∷ mws)) skipped own =
    let rest = effective_chain (some mws) skipped own in
    if contains mw.name skipped then rest else mw ∷ rest

-- The loop over the chain: the index, and the CORS middlewares so far.
unfoldable pub cors_errors : ℕ → ℕ → List ResolvedMiddleware → List RouteError
cors_errors i count [] = if ltb 1 count then many_cors count ∷ [] else []
cors_errors i count (mw ∷ mws) =
    let counted = cors_errors (suc i) (suc count) mws in
    let rest = cors_errors (suc i) count mws in
    if mw.type === "cors"
    then (if not (i == 0) && count == 0 then cors_not_first mw.name i ∷ counted else counted)
    else rest

abbrev pub needs_claim : ResolvedMiddleware → Bool
needs_claim mw =
    mw.type === "rate_limit"
    && (elim mw.config [ rate_limit_config rl ↦ has_prefix rl.key_source "claim:" | _ ↦ false ])

unfoldable pub claim_errors : Bool → List ResolvedMiddleware → List RouteError
unfolding has_prefix
claim_errors auth_seen [] = []
claim_errors auth_seen (mw ∷ mws) =
    let seen = if mw.type === "auth" then true else auth_seen in
    let rest = claim_errors seen mws in
    if needs_claim mw && not seen then claim_without_auth mw.name ∷ rest else rest

unfoldable pub skip_errors : List MiddlewareRef → List String → List RouteError
unfolding contains
skip_errors globals [] = []
skip_errors globals (name ∷ names) =
    let rest = skip_errors globals names in
    if contains name (map (λ ref. ref.ref) globals) then rest else unknown_skip name ∷ rest

abbrev pub check_host : String → List RouteError
unfolding validate_host_pattern
check_host host =
    if host === ""
    then []
    else (elim (validate_host_pattern host) [ none ↦ [] | some e ↦ invalid_host e ∷ [] ])

module _ (compiles has_unresolved_env_var : String → Bool) where
  abbrev pub check_path : String → List RouteError
  check_path path = if path === "" || compiles path then [] else invalid_path_regex ∷ []

  unfoldable pub header_errors : List (String × String) → List RouteError
  header_errors [] = []
  header_errors ((name, pattern) ∷ headers) =
      let rest = header_errors headers in
      if pattern === "*" || compiles ("^(?:" <> pattern <> ")$")
      then rest
      else invalid_header_regex name ∷ rest

  abbrev unresolved_in : String → Field → List ConfigError
  unresolved_in text field =
      if has_unresolved_env_var text then unresolved_variable field ∷ [] else []

  unfoldable pub key_errors : String → ℕ → List ApiKeyEntry → List ConfigError
  key_errors name i [] = []
  key_errors name i (k ∷ ks) = unresolved_in k.key (api_key name i) ++ key_errors name (suc i) ks

  unfoldable pub provider_errors : List (String × AuthProvider) → List ConfigError
  unfolding key_errors
  provider_errors [] = []
  provider_errors ((name, ap) ∷ aps) =
      (elim ap.jwt [ none ↦ [] | some jwt ↦ unresolved_in jwt.secret (jwt_secret name) ])
      ++ ((elim ap.api_key [ none ↦ [] | some keys ↦ key_errors name 0 keys.keys ])
          ++ ((elim ap.oidc [
            | none ↦ []
            | some oidc ↦ unresolved_in oidc.client_secret (oidc_client_secret name)
          ])
              ++ provider_errors aps))

  unfoldable pub redis_errors : Option RedisConfig → List ConfigError
  redis_errors none = []
  redis_errors (some redis) =
      unresolved_in redis.addr redis_addr ++ unresolved_in redis.password redis_password

  module _ (d : Decoder) (cfg : GatewayConfig) where
    abbrev pub globals : Result ResolveError (List ResolvedMiddleware)
    globals = resolve_middlewares d cfg.middlewares cfg.middleware_definitions

    abbrev pub ok_or_none :
        Result ResolveError (List ResolvedMiddleware) → Option (List ResolvedMiddleware)
    ok_or_none (err e) = none
    ok_or_none (ok mws) = some mws

    -- The checks that need the route's own middlewares; a reference that fails ends the round.
    abbrev pub chain_errors :
        RouteConfig → Result ResolveError (List ResolvedMiddleware) → List RouteError
    unfolding validate_resolved_middlewares effective_chain cors_errors claim_errors
    chain_errors route (err e) = unresolved e ∷ []
    chain_errors route (ok own) =
        let chain = effective_chain (ok_or_none globals) route.skip_middlewares own in
        map middleware_error (validate_resolved_middlewares cfg own)
        ++ (cors_errors 0 0 chain ++ claim_errors false chain)

    unfoldable pub route_errors : RouteConfig → List RouteError
    unfolding check_host header_errors skip_errors chain_errors
    route_errors route =
        check_path route.match.path_regex
        ++ (check_host route.match.host
            ++ (header_errors route.match.headers
                ++ (skip_errors cfg.middlewares route.skip_middlewares
                    ++ chain_errors route
                        (resolve_middlewares d route.middlewares cfg.middleware_definitions))))

    unfoldable pub routes_errors : List RouteConfig → List ConfigError
    unfolding route_errors
    routes_errors [] = []
    routes_errors (route ∷ routes) =
        map (in_route route.name) (route_errors route) ++ routes_errors routes

    unfoldable pub global_errors : Result ResolveError (List ResolvedMiddleware) → List ConfigError
    unfolding validate_resolved_middlewares
    global_errors (err e) = global_unresolved e ∷ []
    global_errors (ok mws) = map global_error (validate_resolved_middlewares cfg mws)

    -- `semanticErrors`.
    unfoldable pub semantic_errors : List ConfigError
    unfolding duplicate_routes provider_errors redis_errors global_errors routes_errors
    semantic_errors =
        duplicate_routes [] cfg.routes
        ++ (provider_errors cfg.auth_providers
            ++ (redis_errors cfg.rate_limit.redis
                ++ (global_errors globals ++ routes_errors cfg.routes)))
