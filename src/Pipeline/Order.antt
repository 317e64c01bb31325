-- ===== src/Pipeline/Order.antt =====
-- What internal/pipeline/builder.go builds from a checked configuration.
use tanugate.Common.{
  ◌≡◌, refl, ap, ◌∙◌, inl, inr, String, Bool, true, false, Option, none, some, List, [], ◌∷◌, ◌++◌,
  contains, insert, Result, ok, err, ◌>>=◌, map_err, ◌===◌, eq_iff, arith, All, All-append,
  Bool-cases, append-eq-nil, is_some,
}
use tanugate.Http.{Handler}
use tanugate.Config.{
  TransformConfig, GatewayConfig, RouteConfig, ResolvedMiddleware, MiddlewareRef,
  MiddlewareDefinition, TypedConfig, cors_config, rate_limit_config, auth_config, transform_config,
}
use tanugate.Config.Resolve.{Decoder, ResolveError, resolve_middlewares, Fits}
use tanugate.Config.Resolve.Laws.{Resolves, resolve-Resolves}
use tanugate.Config.Semantic.{
  effective_chain, semantic_errors, duplicate_routes, provider_errors, redis_errors, global_errors,
  globals,
}
use tanugate.Config.Semantic.Chains.{IsOrdered, semantic_errors-IsOrdered}
use tanugate.RateLimit.{Net}
use tanugate.Router
use tanugate.Router.{Regexp, CompiledRoute, serve_http}
use tanugate.Middleware.Chain.{chain, recovery, request_id}
use tanugate.Router.Validated.{semantic_errors-new}
use tanugate.Pipeline.{
  unresolved, panic_building_handler, BuildError, FactoryDeps, Layers, filter_skipped, transforms,
  chain_middlewares, registry_build, wrap_transforms, wrap_chain, wrap_route, wrap_resilience,
  build_route, build_routes, build_handler, routed,
}

-- The middlewares that the pipeline runs for a route are those that the checks look at.
pub filter_skipped_checked :
    (resolved : List ResolvedMiddleware) (skip_names : List String) (own : List ResolvedMiddleware)
    → (filter_skipped resolved skip_names ++ own) ≡ effective_chain (some resolved) skip_names own
unfolding filter_skipped effective_chain
filter_skipped_checked [] skip_names own = refl
filter_skipped_checked (mw ∷ mws) skip_names own =
    let ih = filter_skipped_checked mws skip_names own in
    elim (Bool-cases (contains mw.name skip_names)) [
      | inl e ↦ rw e ih
      | inr e ↦ rw e (ap (λ l. mw ∷ l) ih)
    ]

>>=-ok :
    {A B E : Type 0} (m : Result E A) (f : A → Result E B) {a : A} {b : B}
    → m ≡ ok a
    → f a ≡ ok b
    → (m >>= f) ≡ ok b
>>=-ok m f h k = ap (λ x. x >>= f) h ∙ k

-- A computation that gives a result.
abbrev Succeeds : {A : Type 0} → Result BuildError A → Type 0
Succeeds {A} m = (a : A) × (m ≡ ok a)

module _ (net : Net) (re : Regexp) (d : Decoder) {W : Type 0} (deps : FactoryDeps net W)
    (layers : Layers W) where
  abbrev FitsType : ResolvedMiddleware → Type 0
  FitsType mw = Fits d mw.type mw.config

  Resolves-FitsType :
      (defs : List (String × MiddlewareDefinition)) (refs : List MiddlewareRef)
      (mws : List ResolvedMiddleware)
      → Resolves d defs refs mws
      → All FitsType mws
  Resolves-FitsType defs [] [] h = tt
  Resolves-FitsType defs (ref ∷ refs) (mw ∷ mws) ((def, _, _, _, fits), h) =
      (fits, Resolves-FitsType defs refs mws h)
  Resolves-FitsType defs [] (mw ∷ mws) h = absurd h
  Resolves-FitsType defs (ref ∷ refs) [] h = absurd h

  filter_skipped-FitsType :
      (mws : List ResolvedMiddleware) (skip_names : List String)
      → All FitsType mws
      → All FitsType (filter_skipped mws skip_names)
  unfolding filter_skipped
  filter_skipped-FitsType [] skip_names h = tt
  filter_skipped-FitsType (mw ∷ mws) skip_names (f, h) =
      let ih = filter_skipped-FitsType mws skip_names h in
      elim (Bool-cases (contains mw.name skip_names)) [ inl e ↦ rw e ih | inr e ↦ rw e (f, ih) ]

  -- The types of the entries that are no transforms have factories.
  registry_build-Succeeds :
      (route_name name type : String) (c : TypedConfig)
      → Fits d type c
      → (type === "transform") ≡ false
      → Succeeds (registry_build net re d deps layers type route_name name c)
  unfolding registry_build
  registry_build-Succeeds route_name name type (cors_config c) f t =
      (_, ap (λ x. registry_build net re d deps layers x route_name name (cors_config c)) f)
  registry_build-Succeeds route_name name type (rate_limit_config c) f t =
      (_, ap (λ x. registry_build net re d deps layers x route_name name (rate_limit_config c)) f.0)
  registry_build-Succeeds route_name name type (auth_config c) f t =
      (_, ap (λ x. registry_build net re d deps layers x route_name name (auth_config c)) f)
  registry_build-Succeeds route_name name type (transform_config c) f t =
      absurd (ground (arith, eq_iff type "transform"))

  wrap_chain-Succeeds :
      (route_name : String) (mws : List ResolvedMiddleware) (h : Handler W)
      → All FitsType mws
      → Succeeds (wrap_chain net re d deps layers route_name (chain_middlewares mws) h)
  unfolding wrap_chain chain_middlewares
  wrap_chain-Succeeds route_name [] h fits = (h, refl)
  wrap_chain-Succeeds route_name (mw ∷ mws) h (f, fits) =
      let (inner, e) = wrap_chain-Succeeds route_name mws h fits in
      elim (Bool-cases (mw.type === "transform")) [
        | inl t ↦ rw t (inner, e)
        | inr t ↦
            let (m, k) = registry_build-Succeeds route_name mw.name mw.type mw.config f t in
            rw t (m inner, >>=-ok _ _ e (>>=-ok _ _ k refl))
      ]

  transform_config_of :
      (type : String) (c : TypedConfig)
      → Fits d type c
      → (type === "transform") ≡ true
      → (t : TransformConfig) × (c ≡ transform_config t)
  transform_config_of type (cors_config c) f t =
      absurd (ground (arith, eq_iff type "transform", eq_iff "cors" "transform"))
  transform_config_of type (rate_limit_config c) f t =
      absurd (ground (arith, f.0, eq_iff type "transform", eq_iff "rate_limit" "transform"))
  transform_config_of type (auth_config c) f t =
      absurd (ground (arith, eq_iff type "transform", eq_iff "auth" "transform"))
  transform_config_of type (transform_config c) f t = (c, refl)

  wrap_transforms-Succeeds :
      (mws : List ResolvedMiddleware) (h : Handler W)
      → All FitsType mws
      → Succeeds (wrap_transforms net re d deps layers (transforms mws) h)
  unfolding wrap_transforms transforms
  wrap_transforms-Succeeds [] h fits = (h, refl)
  wrap_transforms-Succeeds (mw ∷ mws) h (f, fits) =
      let (inner, e) = wrap_transforms-Succeeds mws h fits in
      elim (Bool-cases (mw.type === "transform")) [
        | inl t ↦
            let (c, k) = transform_config_of mw.type mw.config f t in
            rw t (layers.transform c inner, >>=-ok _ _ e (rw k refl))
        | inr t ↦ rw t (inner, e)
      ]

  wrap_route-Succeeds :
      (route : RouteConfig) (mws : List ResolvedMiddleware)
      → All FitsType mws
      → Succeeds (wrap_route net re d deps layers route mws)
  unfolding wrap_route
  wrap_route-Succeeds route mws fits =
      let (inner, e) =
        wrap_transforms-Succeeds mws
          (wrap_resilience net re d deps layers route (layers.new_proxy_handler route)) fits in
      let (h, k) = wrap_chain-Succeeds route.name mws inner fits in (h, >>=-ok _ _ e k)

  module _ (compiles has_unresolved_env_var : String → Bool) (cfg : GatewayConfig) where
    abbrev Ordered : RouteConfig → Type 0
    Ordered route = IsOrdered compiles has_unresolved_env_var d cfg route

    build_route-Succeeds :
        (resolved : List ResolvedMiddleware) (route : RouteConfig)
        → All FitsType resolved
        → Ordered route
        → Succeeds (build_route net re d deps layers cfg resolved route)
    unfolding build_route
    build_route-Succeeds resolved route fits (own, e, _) =
        let own_fits =
          Resolves-FitsType cfg.middleware_definitions route.middlewares own
            (resolve-Resolves d cfg.middleware_definitions route.middlewares own e) in
        let (h, k) =
          wrap_route-Succeeds route (filter_skipped resolved route.skip_middlewares ++ own) (
            All-append FitsType (filter_skipped resolved route.skip_middlewares) own
              (filter_skipped-FitsType resolved route.skip_middlewares fits) own_fits) in
        (h, rw e k)

    build_routes-Succeeds :
        (resolved : List ResolvedMiddleware) (routes : List RouteConfig)
        (handlers : List (String × Handler W))
        → All FitsType resolved
        → All Ordered routes
        → Succeeds (build_routes net re d deps layers cfg resolved routes handlers)
    unfolding build_routes
    build_routes-Succeeds resolved [] handlers fits ordered = (handlers, refl)
    build_routes-Succeeds resolved (route ∷ routes) handlers fits (o, ordered) =
        let (h, k) = build_route-Succeeds resolved route fits o in
        let (hs, ks) =
          build_routes-Succeeds resolved routes (insert route.name h handlers) fits ordered in
        (hs, >>=-ok _ _ k ks)

  -- The references of the global middlewares resolve.
  global_errors-ok :
      (compiles has_unresolved_env_var : String → Bool) (cfg : GatewayConfig)
      (g : Result ResolveError (List ResolvedMiddleware))
      → global_errors compiles has_unresolved_env_var d cfg g ≡ []
      → (mws : List ResolvedMiddleware) × (g ≡ ok mws)
  unfolding global_errors
  global_errors-ok compiles unset cfg (err e) h = cc
  global_errors-ok compiles unset cfg (ok mws) h = (mws, refl)

  routed-ok :
      (cfg : GatewayConfig) (handlers : List (String × Handler W))
      (routes : List (CompiledRoute re W))
      → Router.new re deps.lower handlers cfg.routes ≡ some routes
      → routed net re d deps layers cfg handlers ≡ ok (serve_http re deps.lower routes)
  routed-ok cfg handlers routes r =
      ap
        (λ (o : Option (List (CompiledRoute re W))).
          elim o as (λ _. Result BuildError (Handler W)) [
            | none ↦ err panic_building_handler
            | some rs ↦ ok (serve_http re deps.lower rs)
          ])
        r

  assembled :
      (cfg : GatewayConfig) (resolved : List ResolvedMiddleware)
      (handlers : List (String × Handler W)) (routes : List (CompiledRoute re W))
      → resolve_middlewares d cfg.middlewares cfg.middleware_definitions ≡ ok resolved
      → build_routes net re d deps layers cfg resolved cfg.routes [] ≡ ok handlers
      → Router.new re deps.lower handlers cfg.routes ≡ some routes
      → build_handler net re d deps layers cfg
        ≡ ok (
            chain
              (recovery
                ∷ (request_id deps.generate_uuid ∷ (layers.logging ∷ (layers.metrics ∷ []))))
              (serve_http re deps.lower routes))
  unfolding build_handler
  assembled cfg resolved handlers routes k ks r =
      >>=-ok _ _ (ap (map_err unresolved) k)
        (>>=-ok _ _ ks (>>=-ok _ _ (routed-ok cfg handlers routes r) refl))

  -- If the empty regular expression compiles and the checks of a configuration report nothing, the
  -- pipeline is built from it without an error and without a panic: it is a router behind recovery,
  -- request ids, logging and metrics, in this order.
  pub semantic_errors-build_handler :
      (has_unresolved_env_var : String → Bool) (cfg : GatewayConfig)
      → is_some (re.compile "") ≡ true
      → semantic_errors (λ p. is_some (re.compile p)) has_unresolved_env_var d cfg ≡ []
      → (routes : List (CompiledRoute re W)) × (build_handler net re d deps layers cfg
          ≡ ok (
              chain
                (recovery
                  ∷ (request_id deps.generate_uuid ∷ (layers.logging ∷ (layers.metrics ∷ []))))
                (serve_http re deps.lower routes)))
  unfolding semantic_errors
  semantic_errors-build_handler unset cfg e h =
      let compiles = λ (p : String). is_some (re.compile p) in
      let (_, a) = append-eq-nil (duplicate_routes [] cfg.routes) _ h in
      let (_, b) = append-eq-nil (provider_errors compiles unset cfg.auth_providers) _ a in
      let (_, c) = append-eq-nil (redis_errors compiles unset cfg.rate_limit.redis) _ b in
      let (global, _) =
        append-eq-nil (global_errors compiles unset d cfg (globals compiles unset d cfg)) _ c in
      let (resolved, k) =
        global_errors-ok compiles unset cfg (globals compiles unset d cfg) global in
      let fits =
        Resolves-FitsType cfg.middleware_definitions cfg.middlewares resolved
          (resolve-Resolves d cfg.middleware_definitions cfg.middlewares resolved k) in
      let (handlers, ks) =
        build_routes-Succeeds compiles unset cfg resolved cfg.routes [] fits
          (semantic_errors-IsOrdered compiles unset d cfg h) in
      let (routes, r) = semantic_errors-new re deps.lower unset d cfg handlers e h in
      (routes, assembled cfg resolved handlers routes k ks r)
