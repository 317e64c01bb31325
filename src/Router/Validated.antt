-- ===== src/Router/Validated.antt =====
-- A configuration that passes the checks of internal/config/config.go never makes `New` in
-- internal/router/router.go panic.
use Prim.Native.Char.{Char}
use tanugate.Common.{
  append-eq-nil, map-eq-nil, ◌<>◌, ◌||◌, ◌≡◌, refl, inl, inr, String, Bool, true, some, List, [],
  ◌∷◌, is_some, lookup, ◌===◌, eq_iff, arith, Option-cases, Bool-cases,
}
use tanugate.Http.{Handler}
use tanugate.Config.{GatewayConfig, RouteConfig}
use tanugate.Config.Resolve.{Decoder}
use tanugate.Config.Semantic.{
  in_route, check_path, header_errors, route_errors, routes_errors, semantic_errors,
  duplicate_routes, provider_errors, redis_errors, global_errors, globals,
}
use tanugate.Router.{
  Regexp, CompiledRoute, new_header_matcher, new_header_matchers, HeaderMatcher, presence_only,
  matching, new_host_matcher, compile_route, new,
}

module _ (re : Regexp) (lower : Char → Char) (has_unresolved_env_var : String → Bool) (d : Decoder)
    (cfg : GatewayConfig) where
  open re use {Regex, compile}

  abbrev compiles : String → Bool
  compiles pattern = is_some (compile pattern)

  header_errors-cons :
      (name pattern : String) (headers : List (String × String))
      → header_errors compiles has_unresolved_env_var ((name, pattern) ∷ headers) ≡ []
      → ((pattern === "*" || compiles ("^(?:" <> pattern <> ")$")) ≡ true)
        × (header_errors compiles has_unresolved_env_var headers ≡ [])
  unfolding header_errors
  header_errors-cons name pattern headers h = ground arith

  new_header_matcher-some :
      (name pattern : String)
      → (pattern === "*" || compiles ("^(?:" <> pattern <> ")$")) ≡ true
      → (m : HeaderMatcher re) × (new_header_matcher re (name, pattern) ≡ some m)
  unfolding new_header_matcher
  new_header_matcher-some name pattern h = elim (Bool-cases (pattern === "*")) [
    | inl e ↦ (presence_only name, ground arith)
    | inr e ↦ elim (Option-cases (compile ("^(?:" <> pattern <> ")$"))) [
      | inl n ↦ absurd (ground arith)
      | inr (regex, k) ↦ (matching name regex, ground arith)
    ]
  ]

  header_errors-nil :
      (headers : List (String × String))
      → header_errors compiles has_unresolved_env_var headers ≡ []
      → (ms : List (HeaderMatcher re)) × (new_header_matchers re headers ≡ some ms)
  unfolding new_header_matchers
  header_errors-nil [] h = ([], refl)
  header_errors-nil ((name, pattern) ∷ headers) h =
      let (c, rest) = header_errors-cons name pattern headers h in
      let (m, k) = new_header_matcher-some name pattern c in
      let (ms, ks) = header_errors-nil headers rest in (m ∷ ms, ground arith)

  -- The path of a route compiles, where the empty expression does.
  check_path-nil :
      (path : String)
      → is_some (compile "") ≡ true
      → check_path compiles has_unresolved_env_var path ≡ []
      → (regex : Regex) × (compile path ≡ some regex)
  check_path-nil path e h = elim (Option-cases (compile path)) [
    | inl n ↦ absurd (ground (arith, eq_iff path ""))
    | inr found ↦ found
  ]

  compile_route-some :
      {W : Type 0} (handlers : List (String × Handler W)) (route : RouteConfig) (regex : Regex)
      (ms : List (HeaderMatcher re))
      → compile route.match.path_regex ≡ some regex
      → new_header_matchers re route.match.headers ≡ some ms
      → compile_route re lower handlers route
        ≡ some (record {
          name = route.name;
          regex = regex;
          methods = route.match.methods;
          host = new_host_matcher lower route.match.host;
          headers = ms;
          handler = lookup route.name handlers;
          config = route;
        })
  unfolding compile_route
  compile_route-some handlers route regex ms k ks = ground arith

  route_errors-nil :
      {W : Type 0} (handlers : List (String × Handler W)) (route : RouteConfig)
      → is_some (compile "") ≡ true
      → route_errors compiles has_unresolved_env_var d cfg route ≡ []
      → (cr : CompiledRoute re W) × (compile_route re lower handlers route ≡ some cr)
  unfolding route_errors
  route_errors-nil handlers route e h =
      let (path, others) = append-eq-nil _ _ h in
      let (_, more) = append-eq-nil _ _ others in
      let (headers, _) = append-eq-nil _ _ more in
      let (regex, k) = check_path-nil route.match.path_regex e path in
      let (ms, ks) = header_errors-nil route.match.headers headers in
      (
        record {
          name = route.name;
          regex = regex;
          methods = route.match.methods;
          host = new_host_matcher lower route.match.host;
          headers = ms;
          handler = lookup route.name handlers;
          config = route;
        },
        compile_route-some handlers route regex ms k ks,
      )

  routes_errors-nil :
      {W : Type 0} (handlers : List (String × Handler W)) (routes : List RouteConfig)
      → is_some (compile "") ≡ true
      → routes_errors compiles has_unresolved_env_var d cfg routes ≡ []
      → (crs : List (CompiledRoute re W)) × (new re lower handlers routes ≡ some crs)
  unfolding routes_errors new
  routes_errors-nil handlers [] e h = ([], refl)
  routes_errors-nil handlers (route ∷ routes) e h =
      let (first, rest) = append-eq-nil _ _ h in
      let (cr, k) = route_errors-nil handlers route e (map-eq-nil (in_route route.name) _ first) in
      let (crs, ks) = routes_errors-nil handlers routes e rest in (cr ∷ crs, ground arith)

  -- If the empty regular expression compiles and the checks report nothing, the router is built
  -- from the routes without a panic, whatever the handlers.
  pub semantic_errors-new :
      {W : Type 0} (handlers : List (String × Handler W))
      → is_some (compile "") ≡ true
      → semantic_errors compiles has_unresolved_env_var d cfg ≡ []
      → (crs : List (CompiledRoute re W)) × (new re lower handlers cfg.routes ≡ some crs)
  unfolding semantic_errors
  semantic_errors-new handlers e h =
      let (_, a) = append-eq-nil (duplicate_routes [] cfg.routes) _ h in
      let (_, b) =
        append-eq-nil (provider_errors compiles has_unresolved_env_var cfg.auth_providers) _ a in
      let (_, c) =
        append-eq-nil (redis_errors compiles has_unresolved_env_var cfg.rate_limit.redis) _ b in
      let (_, routes) =
        append-eq-nil
          (global_errors compiles has_unresolved_env_var d cfg
            (globals compiles has_unresolved_env_var d cfg))
          _ c in
      routes_errors-nil handlers cfg.routes e routes
