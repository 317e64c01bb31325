-- ===== src/Config/Changes.antt =====
-- Comparison of two configurations at a reload: `NonReloadableChanges` and `DiffSummary` in
-- internal/config/config.go. Each message is a constructor; what it prints of the values is left
-- out. `yaml.Marshal` and the equality of `float64` values are parameters.
mod Settings
pub mod Laws
mod Tests
use tanugate.Common.{
  ℕ, ◌+◌, String, Bool, true, false, not, ◌&&◌, ◌||◌, Option, none, some, List, [], ◌∷◌, ◌++◌,
  length, lookup, insert, ◌==◌, ◌===◌, int_eq, if◌then◌else◌, pointer_equal, slice_equal, map_equal,
}
use tanugate.Http.{Bytes}
use tanugate.Config.{
  GatewayConfig, ServerConfig, RouteConfig, RetryConfig, CircuitBreakerConfig, MiddlewareRef,
  MiddlewareDefinition,
}
use tanugate.Config.Yaml.{Node}
use tanugate.Config.Changes.Settings.{
  string_equal, string_slice_equal, redis_config_equal, auth_providers_equal,
}

pub data Warning : Type 0 where
  host_changed port_changed read_timeout_changed write_timeout_changed : Warning
  idle_timeout_changed shutdown_timeout_changed trusted_proxies_changed : Warning
  max_header_bytes_changed backend_changed redis_changed auth_providers_changed : Warning
  logging_level_changed : Warning

abbrev pub unless : Bool → Warning → List Warning
unless true w = []
unless false w = w ∷ []

-- The warnings for the server's settings.
unfoldable pub server_changes : ServerConfig → ServerConfig → List Warning
unfolding string_slice_equal
server_changes a b =
    unless (a.host === b.host) host_changed
    ++ (unless (int_eq a.port b.port) port_changed
        ++ (unless (int_eq a.read_timeout b.read_timeout) read_timeout_changed
            ++ (unless (int_eq a.write_timeout b.write_timeout) write_timeout_changed
                ++ (unless (int_eq a.idle_timeout b.idle_timeout) idle_timeout_changed
                    ++ (unless (int_eq a.shutdown_timeout b.shutdown_timeout)
                          shutdown_timeout_changed
                        ++ (unless (string_slice_equal a.trusted_proxies b.trusted_proxies)
                              trusted_proxies_changed
                            ++ unless (int_eq a.max_header_bytes b.max_header_bytes)
                                max_header_bytes_changed))))))

-- `NonReloadableChanges`.
unfoldable pub non_reloadable_changes : GatewayConfig → GatewayConfig → List Warning
unfolding server_changes auth_providers_equal
non_reloadable_changes old new =
    server_changes old.server new.server
    ++ (unless (old.rate_limit.backend === new.rate_limit.backend) backend_changed
        ++ (unless (redis_config_equal old.rate_limit.redis new.rate_limit.redis) redis_changed
            ++ (unless (auth_providers_equal old.auth_providers new.auth_providers)
                  auth_providers_changed
                ++ unless (old.logging.level === new.logging.level) logging_level_changed)))

pub data Change : Type 0 where
  route_added route_modified route_removed : String → Change
  route_order_changed : Change
  definition_added definition_modified definition_removed : String → Change
  global_middlewares_changed : Change

-- An index of the routes by name; of two with one name the later counts.
unfoldable pub index_routes :
    List RouteConfig → List (String × RouteConfig) → List (String × RouteConfig)
unfolding insert
index_routes [] index = index
index_routes (route ∷ routes) index = index_routes routes (insert route.name route index)

abbrev pub same_order : List RouteConfig → List RouteConfig → Bool
same_order (a ∷ as_) (b ∷ bs) = a.name === b.name && same_order as_ bs
same_order [] bs = true
same_order (a ∷ as_) [] = true

abbrev pub nil_changes : List Change → Bool
nil_changes [] = true
nil_changes (_ ∷ _) = false

module _ (marshal : Node → Option Bytes) (float_equal : ℕ → ℕ → Bool) where
  abbrev bytes_equal : Bytes → Bytes → Bool
  unfolding slice_equal
  bytes_equal a b = slice_equal ◌==◌ a b

  unfoldable pub yaml_node_equal : Node → Node → Bool
  unfolding bytes_equal
  yaml_node_equal a b = elim (marshal a) [
    | none ↦ false
    | some as_bytes ↦ elim (marshal b) [
      | none ↦ false
      | some bs_bytes ↦ bytes_equal as_bytes bs_bytes
    ]
  ]

  unfoldable pub middleware_ref_equal : MiddlewareRef → MiddlewareRef → Bool
  unfolding yaml_node_equal
  middleware_ref_equal a b = a.ref === b.ref && yaml_node_equal a.config b.config

  unfoldable pub middleware_refs_equal : List MiddlewareRef → List MiddlewareRef → Bool
  unfolding middleware_ref_equal slice_equal
  middleware_refs_equal a b = slice_equal middleware_ref_equal a b

  unfoldable pub middleware_definition_equal : MiddlewareDefinition → MiddlewareDefinition → Bool
  unfolding yaml_node_equal
  middleware_definition_equal a b = a.type === b.type && yaml_node_equal a.config b.config

  abbrev retry_settings_equal : RetryConfig → RetryConfig → Bool
  unfolding slice_equal
  retry_settings_equal a b =
      int_eq a.max_retries b.max_retries
      && int_eq a.initial_delay b.initial_delay
      && float_equal a.multiplier b.multiplier
      && slice_equal int_eq a.retryable_status_codes b.retryable_status_codes

  abbrev breaker_settings_equal : CircuitBreakerConfig → CircuitBreakerConfig → Bool
  breaker_settings_equal a b =
      int_eq a.failure_threshold b.failure_threshold
      && int_eq a.success_threshold b.success_threshold
      && int_eq a.timeout b.timeout

  -- `routeChanged`: the tests in their order, each of which ends the function.
  unfoldable pub route_changed : RouteConfig → RouteConfig → Bool
  unfolding string_slice_equal map_equal retry_settings_equal middleware_refs_equal
  route_changed a b =
      not (a.match.path_regex === b.match.path_regex)
      || not (string_slice_equal a.match.methods b.match.methods)
      || not (a.match.host === b.match.host)
      || not (map_equal string_equal a.match.headers b.match.headers)
      || not (a.upstream.url === b.upstream.url)
      || not (a.upstream.path_rewrite === b.upstream.path_rewrite)
      || not (int_eq a.upstream.timeout b.upstream.timeout)
      || not (pointer_equal retry_settings_equal a.retry b.retry)
      || not (pointer_equal breaker_settings_equal a.circuit_breaker b.circuit_breaker)
      || not (string_slice_equal a.skip_middlewares b.skip_middlewares)
      || not (middleware_refs_equal a.middlewares b.middlewares)

  unfoldable pub present_changes : List (String × RouteConfig) → List RouteConfig → List Change
  unfolding route_changed lookup
  present_changes old_index [] = []
  present_changes old_index (route ∷ routes) =
      let rest = present_changes old_index routes in
      elim (lookup route.name old_index) [
        | none ↦ route_added route.name ∷ rest
        | some old ↦ if route_changed old route then route_modified route.name ∷ rest else rest
      ]

  unfoldable pub removed_routes : List (String × RouteConfig) → List RouteConfig → List Change
  unfolding lookup
  removed_routes new_index [] = []
  removed_routes new_index (route ∷ routes) =
      let rest = removed_routes new_index routes in
      elim (lookup route.name new_index) [ none ↦ route_removed route.name ∷ rest | some _ ↦ rest ]

  unfoldable pub route_changes : List RouteConfig → List RouteConfig → List Change
  unfolding index_routes present_changes removed_routes
  route_changes old new =
      present_changes (index_routes old []) new ++ removed_routes (index_routes new []) old

  unfoldable pub present_definitions :
      List (String × MiddlewareDefinition) → List (String × MiddlewareDefinition) → List Change
  unfolding middleware_definition_equal lookup
  present_definitions old [] = []
  present_definitions old ((name, nd) ∷ new) =
      let rest = present_definitions old new in
      elim (lookup name old) [
        | none ↦ definition_added name ∷ rest
        | some od ↦
            if middleware_definition_equal od nd then rest else definition_modified name ∷ rest
      ]

  unfoldable pub removed_definitions :
      List (String × MiddlewareDefinition) → List (String × MiddlewareDefinition) → List Change
  unfolding lookup
  removed_definitions new [] = []
  removed_definitions new ((name, od) ∷ old) =
      let rest = removed_definitions new old in
      elim (lookup name new) [ none ↦ definition_removed name ∷ rest | some _ ↦ rest ]

  unfoldable pub diff_middleware_definitions :
      List (String × MiddlewareDefinition) → List (String × MiddlewareDefinition) → List Change
  unfolding present_definitions removed_definitions
  diff_middleware_definitions old new = present_definitions old new ++ removed_definitions new old

  abbrev pub order_changes : List RouteConfig → List RouteConfig → List Change → List Change
  order_changes old new changes =
      if length old == length new && nil_changes changes
      then (if same_order old new then [] else route_order_changed ∷ [])
      else []

  -- `DiffSummary`.
  unfoldable pub diff_summary : GatewayConfig → GatewayConfig → List Change
  unfolding route_changes diff_middleware_definitions middleware_refs_equal
  diff_summary old new =
      let changes = route_changes old.routes new.routes in
      changes
      ++ (order_changes old.routes new.routes changes
          ++ (diff_middleware_definitions old.middleware_definitions new.middleware_definitions
              ++ (if middleware_refs_equal old.middlewares new.middlewares
                  then []
                  else global_middlewares_changed ∷ [])))
