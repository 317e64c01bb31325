-- ===== src/Config/Tests.antt =====
-- The configuration's functions at concrete values.
use tanugate.Common.{◌≡◌, refl, String, List, [], ◌∷◌, ok, lookup, insert}
use tanugate.Config.{MiddlewareRef, MiddlewareDefinition, ResolvedMiddleware, rate_limit_config}
use tanugate.Config.Yaml.{
  Node, mapping, other, Entries, no_entries, entry, no_nodes, merge_yaml_nodes, apply_overrides,
  apply_override, index_from, set_value, append,
}
use tanugate.Config.Yaml.Merge.{find, over, find-merge}
use tanugate.Config.Resolve.{
  Decoder, zero_cors, zero_rate_limit, zero_transform, resolve_middlewares, resolve_one,
  decode_typed_config, effective_node,
}

config : Unit {0}
unfolding merge_yaml_nodes apply_overrides apply_override index_from set_value append lookup insert
    resolve_middlewares resolve_one decode_typed_config effective_node
config = tt

abbrev key : String → Node
key k = other 8 "!!str" k no_nodes

abbrev base : Entries
base = entry (key "a") (key "1") (entry (key "b") (key "2") no_entries)

abbrev override : Entries
override = entry (key "b") (key "3") (entry (key "c") (key "4") no_entries)

merged :
    merge_yaml_nodes (mapping "!!map" base) (mapping "" override)
    ≡ ok (
        mapping "!!map" (
          entry
            (key "a")
            (key "1")
            (entry (key "b") (key "3") (entry (key "c") (key "4") no_entries))))
unfolding config
merged = refl

find-merge_example :
    (gs : Entries) × (merge_yaml_nodes (mapping "!!map" base) (mapping "" override)
      ≡ ok (mapping "!!map" gs))
    × ((j : String) → find j gs ≡ over (find j override) (find j base))
find-merge_example = find-merge "!!map" "" base override

abbrev zeros : Decoder
zeros = record {
  decode_cors = λ n. ok zero_cors;
  decode_rate_limit = λ n. ok zero_rate_limit;
  decode_auth = λ n. ok (record { providers = [] });
  decode_transform = λ n. ok zero_transform;
}

abbrev defs : List (String × MiddlewareDefinition)
defs = ("slow", record { type = "rate_limit"; config = mapping "" base }) ∷ []

abbrev refs : List MiddlewareRef
refs = record { ref = "slow"; config = mapping "" override } ∷ []

abbrev slow : ResolvedMiddleware
slow = record {
  name = "slow";
  type = "rate_limit";
  config = rate_limit_config (record zero_rate_limit { algorithm = "sliding_window" });
}

resolved : resolve_middlewares zeros refs defs ≡ ok (slow ∷ [])
unfolding config
resolved = refl
