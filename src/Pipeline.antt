-- ===== src/Pipeline.antt =====
-- The pipeline of handlers: internal/pipeline/builder.go and internal/pipeline/registry.go.
-- The proxy, the transforms, logging and metrics are parameters (`Layers`). A map of handlers is an
-- association list, and a panic while the router is built is an error, as the deferred function
-- makes it.
pub mod Order
pub mod Tests
use Prim.Native.Char.{Char}
use tanugate.Common.{
  ℕ, String, Bool, true, false, Option, none, some, List, [], ◌∷◌, ◌++◌, contains, insert, lookup,
  Result, ok, err, ◌>>=◌, map_err, ◌===◌, ℤ, if◌then◌else◌,
}
use tanugate.Http.{Bytes, Request, Handler, Middleware}
use tanugate.Config.{
  GatewayConfig, RouteConfig, ResolvedMiddleware, TypedConfig, cors_config, rate_limit_config,
  auth_config, transform_config, TransformConfig,
}
use tanugate.Config.Resolve.{Decoder, ResolveError, resolve_middlewares}
use tanugate.Middleware.Cors.{cors_middleware}
use tanugate.Middleware.Chain.{chain, recovery, request_id}
use tanugate.Auth.{Authenticator, new_auth_middleware}
use tanugate.RateLimit.{Net, Printers, Limiter, new_rate_limit_middleware}
use tanugate.Retry.{Surroundings, retry_handler, cb_only_handler}
use tanugate.Router
use tanugate.Router.{Regexp, serve_http}

pub data BuildError : Type 0 where
  unknown_middleware_type : String → BuildError
  wrong_config : String → BuildError
  unresolved : ResolveError → BuildError
  panic_building_handler : BuildError

-- `FactoryDeps` without logger and metrics, and what the layers take as parameters.
pub record FactoryDeps (net : Net) (W : Type 0) : Type 0 where
  pub limiter : Limiter W
  pub authenticators : List (String × Authenticator W)
  pub trusted_proxies : List net.IpNet
  pub printers : Printers
  pub print_int : ℤ → String
  pub now_unix : W → ℕ
  pub detect : Bytes → String
  pub generate_uuid : W → String × W
  pub lower : Char → Char

-- The layers that are parameters, and the surroundings of the retry handler of each route.
pub record Layers (W : Type 0) : Type 0 where
  pub new_proxy_handler : RouteConfig → Handler W
  pub transform : TransformConfig → Middleware W
  pub surroundings : String → Surroundings W
  pub logging : Middleware W
  pub metrics : Middleware W

-- `filterSkipped`.
unfoldable pub filter_skipped : List ResolvedMiddleware → List String → List ResolvedMiddleware
unfolding contains
filter_skipped [] skip_names = []
filter_skipped (mw ∷ mws) skip_names =
    let filtered = filter_skipped mws skip_names in
    if contains mw.name skip_names then filtered else mw ∷ filtered

unfoldable pub transforms : List ResolvedMiddleware → List ResolvedMiddleware
transforms [] = []
transforms (mw ∷ mws) =
    let rest = transforms mws in if mw.type === "transform" then mw ∷ rest else rest

unfoldable pub chain_middlewares : List ResolvedMiddleware → List ResolvedMiddleware
chain_middlewares [] = []
chain_middlewares (mw ∷ mws) =
    let rest = chain_middlewares mws in if mw.type === "transform" then rest else mw ∷ rest

module _ (net : Net) (re : Regexp) (d : Decoder) {W : Type 0} (deps : FactoryDeps net W)
    (layers : Layers W) where
  open deps use {
    limiter, authenticators, trusted_proxies, printers, print_int, now_unix, detect, generate_uuid,
    lower,
  }
  open layers use {new_proxy_handler, transform, surroundings, logging, metrics}

  -- `wrapResilience`.
  unfoldable pub wrap_resilience : RouteConfig → Handler W → Handler W
  wrap_resilience route handler = elim route.circuit_breaker [
    | some cb ↦ elim route.retry [
      | some retry ↦ retry_handler detect (surroundings route.name) handler print_int retry true
      | none ↦ cb_only_handler detect (surroundings route.name) handler
    ]
    | none ↦ elim route.retry [
      | some retry ↦ retry_handler detect (surroundings route.name) handler print_int retry false
      | none ↦ handler
    ]
  ]

  -- `Registry.Build` of the default registry, with its factories.
  unfoldable pub registry_build :
      String → String → String → TypedConfig → Result BuildError (Middleware W)
  registry_build type_name route_name name cfg =
      if type_name === "cors"
      then (elim cfg [
        | cors_config c ↦ ok (cors_middleware print_int c)
        | _ ↦ err (wrong_config name)
      ])
      else if type_name === "rate_limit"
      then (elim cfg [
        | rate_limit_config c ↦ ok (
            new_rate_limit_middleware net printers print_int now_unix limiter trusted_proxies
              (some c) route_name name)
        | _ ↦ err (wrong_config name)
      ])
      else if type_name === "auth"
      then (elim cfg [
        | auth_config c ↦ ok (new_auth_middleware authenticators c.providers)
        | _ ↦ err (wrong_config name)
      ])
      else err (unknown_middleware_type type_name)

  -- The two loops run from the last entry to the first.
  unfoldable pub wrap_transforms :
      List ResolvedMiddleware → Handler W → Result BuildError (Handler W)
  wrap_transforms [] h = ok h
  wrap_transforms (t ∷ ts) h = wrap_transforms ts h >>= λ inner. elim t.config [
    | transform_config c ↦ ok (transform c inner)
    | _ ↦ err (wrong_config t.name)
  ]

  unfoldable pub wrap_chain :
      String → List ResolvedMiddleware → Handler W → Result BuildError (Handler W)
  unfolding registry_build
  wrap_chain route_name [] h = ok h
  wrap_chain route_name (mw ∷ mws) h = wrap_chain route_name mws h >>= λ inner.
      registry_build mw.type route_name mw.name mw.config >>= λ m. ok (m inner)

  -- The handler of a route with all its middlewares.
  unfoldable pub wrap_route : RouteConfig → List ResolvedMiddleware → Result BuildError (Handler W)
  unfolding wrap_resilience transforms chain_middlewares wrap_transforms wrap_chain
  wrap_route route all =
      wrap_transforms (transforms all) (wrap_resilience route (new_proxy_handler route))
      >>= λ inner. wrap_chain route.name (chain_middlewares all) inner

  module _ (cfg : GatewayConfig) where
    unfoldable pub build_route :
        List ResolvedMiddleware → RouteConfig → Result BuildError (Handler W)
    unfolding wrap_route filter_skipped
    build_route globals route =
        map_err unresolved (resolve_middlewares d route.middlewares cfg.middleware_definitions)
        >>= λ own. wrap_route route (filter_skipped globals route.skip_middlewares ++ own)

    -- `handlers[route.Name] = rh` for each route.
    unfoldable pub build_routes :
        List ResolvedMiddleware
        → List RouteConfig
        → List (String × Handler W)
        → Result BuildError (List (String × Handler W))
    unfolding build_route
    build_routes globals [] handlers = ok handlers
    build_routes globals (route ∷ routes) handlers = build_route globals route >>= λ h.
        build_routes globals routes (insert route.name h handlers)

    abbrev pub routed : List (String × Handler W) → Result BuildError (Handler W)
    routed handlers = elim (Router.new re lower handlers cfg.routes) [
      | none ↦ err panic_building_handler
      | some routes ↦ ok (serve_http re lower routes)
    ]

    -- `BuildHandler`.
    unfoldable pub build_handler : Result BuildError (Handler W)
    unfolding build_routes
    build_handler =
        map_err unresolved (resolve_middlewares d cfg.middlewares cfg.middleware_definitions)
        >>= λ globals. build_routes globals cfg.routes [] >>= λ handlers. routed handlers >>= λ r.
            ok (chain (recovery ∷ (request_id generate_uuid ∷ (logging ∷ (metrics ∷ [])))) r)
