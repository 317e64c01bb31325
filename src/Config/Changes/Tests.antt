-- ===== src/Config/Changes/Tests.antt =====
-- Comparisons of a configuration with one that has other routes and another log level.
use tanugate.Common.{
  ◌≡◌, ◌↔◌, refl, true, Option, some, [], ◌∷◌, lookup, slice_equal, items_equal, map_equal, insert,
}
use tanugate.Http.{Bytes}
use tanugate.Config.{GatewayConfig}
use tanugate.Config.Yaml.{Node}
use tanugate.Config.Semantic.Tests.{cfg}
use tanugate.Config.Changes.{
  logging_level_changed, server_changes, non_reloadable_changes, index_routes, yaml_node_equal,
  middleware_ref_equal, middleware_refs_equal, middleware_definition_equal, route_changed,
  present_changes, removed_routes, route_changes, present_definitions, removed_definitions,
  diff_middleware_definitions, diff_summary, route_removed, route_added,
}
use tanugate.Config.Changes.Settings.{
  oidc_tests, string_slice_equal, auth_provider_equal, auth_providers_equal,
}
use tanugate.Config.Changes.Laws.{IsUnchanged, non_reloadable_changes_iff}

changes : Unit {0}
unfolding slice_equal items_equal map_equal lookup insert oidc_tests string_slice_equal
    auth_provider_equal auth_providers_equal server_changes non_reloadable_changes index_routes
    yaml_node_equal middleware_ref_equal middleware_refs_equal middleware_definition_equal
    route_changed present_changes removed_routes route_changes present_definitions
    removed_definitions diff_middleware_definitions diff_summary
changes = tt

abbrev emptied : GatewayConfig
emptied = record cfg { routes = [] }

abbrev marshal : Node → Option Bytes
marshal n = some (1 ∷ [])

reload_messages :
    (non_reloadable_changes cfg (record emptied { logging = record { level = "debug" } })
      ≡ logging_level_changed ∷ [])
    × (diff_summary marshal (λ x y. true) cfg cfg ≡ [])
    × (diff_summary marshal (λ x y. true) cfg emptied ≡ route_removed "a" ∷ [])
    × (diff_summary marshal (λ x y. true) emptied cfg ≡ route_added "a" ∷ [])
unfolding changes
reload_messages = (refl, refl, refl, refl)

non_reloadable_changes_iff_example :
    (non_reloadable_changes cfg emptied ≡ []) ↔ IsUnchanged cfg emptied
unfolding changes
non_reloadable_changes_iff_example = non_reloadable_changes_iff cfg emptied (refl, tt) (refl, tt)
