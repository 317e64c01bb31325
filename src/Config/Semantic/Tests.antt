-- ===== src/Config/Semantic/Tests.antt =====
-- A configuration that passes every check: CORS and authentication for all routes, and a rate limit
-- by claim on one.
use tanugate.Common.{
  ◌≡◌, ◌≢◌, refl, is_some, String, Bool, true, false, none, some, [], ◌∷◌, ok, lookup, contains,
  pos, All, has_prefix, trim_prefix, cut_prefix, contains_char, split,
}
use tanugate.Config.{GatewayConfig, RouteConfig, MiddlewareRef, MiddlewareDefinition}
use tanugate.Config.Yaml.{Node, other, absent, no_nodes}
use tanugate.Config.Resolve.{
  Decoder, zero_cors, zero_transform, resolve_middlewares, resolve_one, decode_typed_config,
  effective_node, apply_rate_limit_defaults,
}
use tanugate.Config.Hosts.{validate_wildcard, validate_host_pattern}
use tanugate.Config.Checks.{
  check_key_source, check_rate_limit, check_providers, check_auth, check_cors, check_middleware,
  validate_resolved_middlewares,
}
use tanugate.Config.Semantic.{
  duplicate_routes, effective_chain, cors_errors, claim_errors, skip_errors, header_errors,
  key_errors, provider_errors, redis_errors, check_host, chain_errors, global_errors, route_errors,
  routes_errors, semantic_errors,
}
use tanugate.Config.Semantic.Chains.{IsOrdered, semantic_errors-IsOrdered}
use tanugate.Router.{Regexp}
use tanugate.Config.Load.{Source, load_config, semantic_of, apply_defaults, or_int, or_text}
use tanugate.Config.Load.Defaults.{IsFilled, load_config-IsFilled}

semantic : Unit {0}
unfolding resolve_middlewares resolve_one decode_typed_config effective_node
    apply_rate_limit_defaults validate_wildcard validate_host_pattern check_key_source
    check_rate_limit check_providers check_auth check_cors check_middleware
    validate_resolved_middlewares duplicate_routes effective_chain cors_errors claim_errors
    skip_errors header_errors key_errors provider_errors redis_errors check_host chain_errors
    global_errors route_errors routes_errors semantic_errors lookup contains has_prefix trim_prefix
    cut_prefix contains_char split load_config apply_defaults or_int or_text
semantic = tt

abbrev pub decoder : Decoder
decoder = record {
  decode_cors = λ n. ok (record zero_cors { allowed_origins = "*" ∷ [] });
  decode_rate_limit = λ n. ok (record {
    requests = pos 5;
    window = pos 60;
    key_source = "claim:sub";
    algorithm = "sliding_window";
  });
  decode_auth = λ n. ok (record { providers = "keys" ∷ [] });
  decode_transform = λ n. ok zero_transform;
}

abbrev node : Node
node = other 8 "!!str" "x" no_nodes

abbrev definition : String → String × MiddlewareDefinition
definition type = (type, record { type = type; config = node })

abbrev ref : String → MiddlewareRef
ref name = record { ref = name; config = absent }

abbrev pub route : RouteConfig
route = record {
  name = "a";
  match = record {
    path_regex = "/a";
    methods = [];
    host = "*.example.com";
    headers = ("X-Key", "*") ∷ (("X-Env", "prod") ∷ []);
  };
  upstream = record { url = "http://up"; path_rewrite = ""; timeout = pos 0 };
  retry = none;
  circuit_breaker = none;
  skip_middlewares = [];
  middlewares = ref "rate_limit" ∷ [];
}

abbrev pub cfg : GatewayConfig
cfg = record {
  server = record {
    host = "";
    port = pos 8080;
    read_timeout = pos 0;
    write_timeout = pos 0;
    idle_timeout = pos 0;
    shutdown_timeout = pos 0;
    trusted_proxies = [];
    max_header_bytes = pos 0;
  };
  logging = record { level = "info" };
  rate_limit = record { backend = "memory"; redis = none };
  auth_providers =
      (
        "keys",
        record {
          type = "apikey";
          jwt = none;
          api_key = some (record { header = ""; keys = record { key = "k"; name = "n" } ∷ [] });
          oidc = none;
        },
      )
      ∷ [];
  middleware_definitions = definition "cors" ∷ (definition "auth" ∷ (definition "rate_limit" ∷ []));
  middlewares = ref "cors" ∷ (ref "auth" ∷ []);
  routes = route ∷ [];
}

abbrev pub literal : Regexp
literal = record {
  Regex = String;
  compile = λ s. some s;
  find_submatch = λ re s. none;
  subexp_names = λ re. "" ∷ [];
  is_match = λ re s. true;
}

abbrev compiles : String → Bool
compiles pattern = is_some (literal.compile pattern)

abbrev pub unresolved : String → Bool
unresolved s = false

pub cfg_passes : semantic_errors compiles unresolved decoder cfg ≡ []
unfolding semantic
cfg_passes = refl

semantic_errors-IsOrdered_example : All (IsOrdered compiles unresolved decoder cfg) (route ∷ [])
unfolding semantic
semantic_errors-IsOrdered_example = semantic_errors-IsOrdered compiles unresolved decoder cfg refl

-- Where the order of the chain is wrong, the checks say so.
misordered :
    (semantic_errors compiles unresolved decoder
        (record cfg { middlewares = ref "auth" ∷ (ref "cors" ∷ []) })
      ≢ [])
    × (semantic_errors compiles unresolved decoder (record cfg { middlewares = ref "cors" ∷ [] })
        ≢ [])
unfolding semantic
misordered = (λ e. cc, λ e. cc)

abbrev pub source : Source
source = record {
  read_file = λ path. ok "text";
  substitute = λ text. text;
  schema_errors = λ text. [];
  unmarshal = λ text. ok cfg;
}

-- The configuration loads.
pub cfg_loads :
    (path : String) → load_config compiles unresolved decoder source path ≡ ok (apply_defaults cfg)
unfolding semantic
cfg_loads path = refl

load_config-IsFilled_example :
    (semantic_of compiles unresolved decoder source (apply_defaults cfg) ≡ [])
    × (text : String) × (raw : GatewayConfig) × (source.read_file "gateway.yaml" ≡ ok text)
    × (source.schema_errors (source.substitute text) ≡ [])
    × (source.unmarshal (source.substitute text) ≡ ok raw)
    × IsFilled raw (apply_defaults cfg)
load_config-IsFilled_example =
    load_config-IsFilled compiles unresolved decoder source "gateway.yaml" (apply_defaults cfg)
      (cfg_loads "gateway.yaml")
