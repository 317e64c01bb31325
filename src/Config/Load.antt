-- ===== src/Config/Load.antt =====
-- Loading: `LoadConfig` and `applyDefaults` in internal/config/config.go.
-- The file, the environment, the schema and the decoding of YAML are parameters. Durations are in
-- nanoseconds.
pub mod Defaults
use tanugate.Common.{
  ◌≡◌, refl, ap, ◌∙◌, sym, String, Bool, Option, none, some, List, [], ◌∷◌, map, Result, ok, err,
  ◌>>=◌, >>=-eq-ok, map_err, ◌===◌, int_eq, ℤ, pos, if◌then◌else◌,
}
use tanugate.Config.{GatewayConfig, ServerConfig, RateLimitGlobalConfig, RedisConfig, RouteConfig}
use tanugate.Config.Resolve.{Decoder}
use tanugate.Config.Semantic.{ConfigError, semantic_errors}

unfoldable pub or_int : ℤ → ℤ → ℤ
or_int d n = if int_eq n (pos 0) then d else n

unfoldable pub or_text : String → String → String
or_text d s = if s === "" then d else s

abbrev pub server_defaults : ServerConfig → ServerConfig
server_defaults s = record s {
  host = or_text "0.0.0.0" s.host;
  port = or_int (pos 8080) s.port;
  read_timeout = or_int (pos 30000000000) s.read_timeout;
  write_timeout = or_int (pos 30000000000) s.write_timeout;
  idle_timeout = or_int (pos 120000000000) s.idle_timeout;
  shutdown_timeout = or_int (pos 15000000000) s.shutdown_timeout;
  max_header_bytes = or_int (pos 1048576) s.max_header_bytes;
}

abbrev pub redis_defaults : RedisConfig → RedisConfig
redis_defaults r = record r {
  pool_size = or_int (pos 10) r.pool_size;
  dial_timeout = or_int (pos 5000000000) r.dial_timeout;
  read_timeout = or_int (pos 3000000000) r.read_timeout;
  write_timeout = or_int (pos 3000000000) r.write_timeout;
  query_timeout = or_int (pos 100000000) r.query_timeout;
}

-- The Redis settings get their defaults only where Redis is the backend.
abbrev pub backend_defaults : String → Option RedisConfig → Option RedisConfig
backend_defaults backend none = none
backend_defaults backend (some r) = if backend === "redis" then some (redis_defaults r) else some r

abbrev pub rate_limit_defaults : RateLimitGlobalConfig → RateLimitGlobalConfig
rate_limit_defaults c = record {
  backend = or_text "memory" c.backend;
  redis = backend_defaults (or_text "memory" c.backend) c.redis;
}

abbrev pub route_defaults : RouteConfig → RouteConfig
route_defaults route = record route {
  upstream = record (route.upstream) { timeout = or_int (pos 30000000000) route.upstream.timeout };
}

-- `applyDefaults`.
unfoldable pub apply_defaults : GatewayConfig → GatewayConfig
apply_defaults cfg = record cfg {
  server = server_defaults cfg.server;
  logging = record { level = or_text "info" cfg.logging.level };
  rate_limit = rate_limit_defaults cfg.rate_limit;
  routes = map route_defaults cfg.routes;
}

-- Why a configuration does not load.
pub data LoadError : Type 0 where
  reading : String → LoadError
  schema : List String → LoadError
  unmarshaling : String → LoadError
  semantic : List ConfigError → LoadError

-- `os.ReadFile`, the replacement of `${VAR}`, `ValidateRawConfig` and `yaml.Unmarshal`.
pub record Source : Type 0 where
  pub read_file : String → Result String String
  pub substitute : String → String
  pub schema_errors : String → List String
  pub unmarshal : String → Result String GatewayConfig

abbrev checked : List ConfigError → GatewayConfig → Result LoadError GatewayConfig
checked [] cfg = ok cfg
checked (e ∷ es) cfg = err (semantic (e ∷ es))

abbrev validated : List String → String → Result LoadError String
validated [] text = ok text
validated (e ∷ es) text = err (schema (e ∷ es))

module _ (compiles has_unresolved_env_var : String → Bool) (d : Decoder) (source : Source) where
  open source use {read_file, substitute, schema_errors, unmarshal}

  abbrev pub semantic_of : GatewayConfig → List ConfigError
  semantic_of cfg = semantic_errors compiles has_unresolved_env_var d cfg

  -- `LoadConfig`.
  unfoldable pub load_config : String → Result LoadError GatewayConfig
  unfolding apply_defaults
  load_config path = map_err reading (read_file path) >>= λ data_.
      validated (schema_errors (substitute data_)) (substitute data_) >>= λ resolved.
      map_err unmarshaling (unmarshal resolved) >>= λ cfg.
      checked (semantic_of (apply_defaults cfg)) (apply_defaults cfg)

  checked-ok :
      (es : List ConfigError) (cfg result : GatewayConfig)
      → checked es cfg ≡ ok result
      → (es ≡ []) × (cfg ≡ result)
  checked-ok [] cfg result h = (refl, cc)
  checked-ok (e ∷ es) cfg result h = cc

  validated-ok :
      (es : List String) (text result : String)
      → validated es text ≡ ok result
      → (es ≡ []) × (text ≡ result)
  validated-ok [] text result h = (refl, cc)
  validated-ok (e ∷ es) text result h = cc

  map_err-ok :
      {A : Type 0} (f : String → LoadError) (o : Result String A) (result : A)
      → map_err f o ≡ ok result
      → o ≡ ok result
  map_err-ok f (ok x) result h = cc
  map_err-ok f (err e) result h = cc

  -- A configuration that loads has nothing for the checks to report; the file could be read, its text
  -- with the variables replaced follows the schema, and the configuration is what that text decodes
  -- to, with its defaults.
  pub load_config_checked :
      (path : String) (cfg : GatewayConfig)
      → load_config path ≡ ok cfg
      → (semantic_of cfg ≡ [])
        × (text : String) × (raw : GatewayConfig) × (read_file path ≡ ok text)
        × (schema_errors (substitute text) ≡ [])
        × (unmarshal (substitute text) ≡ ok raw)
        × (apply_defaults raw ≡ cfg)
  unfolding load_config
  load_config_checked path cfg h =
      let (text, read, h1) = >>=-eq-ok (map_err reading (read_file path)) _ h in
      let (resolved, valid, h2) =
        >>=-eq-ok (validated (schema_errors (substitute text)) (substitute text)) _ h1 in
      let (raw, decoded, h3) = >>=-eq-ok (map_err unmarshaling (unmarshal resolved)) _ h2 in
      let (none_reported, same) =
        checked-ok (semantic_of (apply_defaults raw)) (apply_defaults raw) cfg h3 in
      let (fits, e) =
        validated-ok (schema_errors (substitute text)) (substitute text) resolved valid in
      (
        ap semantic_of (sym same) ∙ none_reported,
        text,
        raw,
        map_err-ok reading (read_file path) text read,
        fits,
        ap unmarshal e ∙ map_err-ok unmarshaling (unmarshal resolved) raw decoded,
        same,
      )
