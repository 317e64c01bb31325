-- ===== src/Config/Load/Defaults.antt =====
-- What a loaded configuration has where the file says nothing: `applyDefaults` in
-- internal/config/config.go.
use tanugate.Common.{
  ℕ, ◌≡◌, ◌≢◌, refl, subst, ◌⊎◌, String, Bool, Option, none, some, List, [], ◌∷◌, map, ok, ◌===◌,
  int_eq, int_eq_iff, eq_iff, arith, ℤ, pos, Bool-cases, inl, inr,
}
use tanugate.Config.{GatewayConfig, ServerConfig, RedisConfig, RouteConfig}
use tanugate.Config.Resolve.{Decoder}
use tanugate.Config.Load.{
  Source, load_config, load_config_checked, semantic_of, apply_defaults, server_defaults,
  redis_defaults, backend_defaults, route_defaults, or_int, or_text,
}

-- The default where the file left the value at zero, and else the file's value.
abbrev Filled : {A : Type 0} → A → A → A → A → Type 0
Filled zero default raw v = ((raw ≡ zero) × (v ≡ default)) ⊎ ((raw ≢ zero) × (v ≡ raw))

abbrev FilledInt : ℕ → ℤ → ℤ → Type 0
FilledInt default raw v = Filled (pos 0) (pos default) raw v

abbrev FilledText : String → String → String → Type 0
FilledText default raw v = Filled "" default raw v

pub record IsServerFilled (raw s : ServerConfig) : Type 0 where
  host : FilledText "0.0.0.0" raw.host s.host
  port : FilledInt 8080 raw.port s.port
  read_timeout : FilledInt 30000000000 raw.read_timeout s.read_timeout
  write_timeout : FilledInt 30000000000 raw.write_timeout s.write_timeout
  idle_timeout : FilledInt 120000000000 raw.idle_timeout s.idle_timeout
  shutdown_timeout : FilledInt 15000000000 raw.shutdown_timeout s.shutdown_timeout
  max_header_bytes : FilledInt 1048576 raw.max_header_bytes s.max_header_bytes
  trusted_proxies : s.trusted_proxies ≡ raw.trusted_proxies

pub record IsRedisFilled (raw r : RedisConfig) : Type 0 where
  pool_size : FilledInt 10 raw.pool_size r.pool_size
  dial_timeout : FilledInt 5000000000 raw.dial_timeout r.dial_timeout
  read_timeout : FilledInt 3000000000 raw.read_timeout r.read_timeout
  write_timeout : FilledInt 3000000000 raw.write_timeout r.write_timeout
  query_timeout : FilledInt 100000000 raw.query_timeout r.query_timeout
  rest : r ≡ record raw {
    pool_size = r.pool_size;
    dial_timeout = r.dial_timeout;
    read_timeout = r.read_timeout;
    write_timeout = r.write_timeout;
    query_timeout = r.query_timeout;
  }

-- Redis settings change only where Redis is the backend.
abbrev BackendFilled : String → Option RedisConfig → Option RedisConfig → Type 0
BackendFilled backend none o = o ≡ none
BackendFilled backend (some raw) o =
    (r : RedisConfig) × (o ≡ some r)
    × (((backend ≡ "redis") × IsRedisFilled raw r) ⊎ ((backend ≢ "redis") × (r ≡ raw)))

-- Of each route, only the time limit of its upstream can differ.
abbrev RoutesFilled : List RouteConfig → List RouteConfig → Type 0
RoutesFilled [] [] = Unit
RoutesFilled (raw ∷ raws) (route ∷ routes) =
    FilledInt 30000000000 raw.upstream.timeout route.upstream.timeout
    × (route ≡ record raw { upstream = record (raw.upstream) { timeout = route.upstream.timeout } })
    × RoutesFilled raws routes
RoutesFilled [] (route ∷ routes) = ⊥
RoutesFilled (raw ∷ raws) [] = ⊥

pub record IsFilled (raw cfg : GatewayConfig) : Type 0 where
  server : IsServerFilled raw.server cfg.server
  level : FilledText "info" raw.logging.level cfg.logging.level
  backend : FilledText "memory" raw.rate_limit.backend cfg.rate_limit.backend
  redis : BackendFilled cfg.rate_limit.backend raw.rate_limit.redis cfg.rate_limit.redis
  routes : RoutesFilled raw.routes cfg.routes
  auth_providers : cfg.auth_providers ≡ raw.auth_providers
  middleware_definitions : cfg.middleware_definitions ≡ raw.middleware_definitions
  middlewares : cfg.middlewares ≡ raw.middlewares

or_int-Filled : (d n : ℤ) → Filled (pos 0) d n (or_int d n)
unfolding or_int
or_int-Filled d n = elim (Bool-cases (int_eq n (pos 0))) [
  | inl e ↦ inl ((int_eq_iff n (pos 0)).0 e, rw e refl)
  | inr e ↦ inr (λ z. ground (arith, (int_eq_iff n (pos 0)).1 z), rw e refl)
]

or_text-Filled : (d s : String) → Filled "" d s (or_text d s)
unfolding or_text
or_text-Filled d s = elim (Bool-cases (s === "")) [
  | inl e ↦ inl ((eq_iff s "").0 e, rw e refl)
  | inr e ↦ inr (λ z. ground (arith, (eq_iff s "").1 z), rw e refl)
]

server_filled : (s : ServerConfig) → IsServerFilled s (server_defaults s)
server_filled s = record {
  host = or_text-Filled _ s.host;
  port = or_int-Filled _ s.port;
  read_timeout = or_int-Filled _ s.read_timeout;
  write_timeout = or_int-Filled _ s.write_timeout;
  idle_timeout = or_int-Filled _ s.idle_timeout;
  shutdown_timeout = or_int-Filled _ s.shutdown_timeout;
  max_header_bytes = or_int-Filled _ s.max_header_bytes;
  trusted_proxies = refl;
}

redis_filled : (r : RedisConfig) → IsRedisFilled r (redis_defaults r)
redis_filled r = record {
  pool_size = or_int-Filled _ r.pool_size;
  dial_timeout = or_int-Filled _ r.dial_timeout;
  read_timeout = or_int-Filled _ r.read_timeout;
  write_timeout = or_int-Filled _ r.write_timeout;
  query_timeout = or_int-Filled _ r.query_timeout;
  rest = refl;
}

backend_filled :
    (backend : String) (o : Option RedisConfig)
    → BackendFilled backend o (backend_defaults backend o)
backend_filled backend none = refl
backend_filled backend (some r) = elim (Bool-cases (backend === "redis")) [
  | inl e ↦ (redis_defaults r, rw e refl, inl ((eq_iff backend "redis").0 e, redis_filled r))
  | inr e ↦ (r, rw e refl, inr (λ z. ground (arith, (eq_iff backend "redis").1 z), refl))
]

routes_filled : (routes : List RouteConfig) → RoutesFilled routes (map route_defaults routes)
routes_filled [] = tt
routes_filled (r ∷ routes) = (or_int-Filled _ r.upstream.timeout, refl, routes_filled routes)

apply_defaults-IsFilled : (cfg : GatewayConfig) → IsFilled cfg (apply_defaults cfg)
unfolding apply_defaults
apply_defaults-IsFilled cfg = record {
  server = server_filled cfg.server;
  level = or_text-Filled _ cfg.logging.level;
  backend = or_text-Filled _ cfg.rate_limit.backend;
  redis = backend_filled _ cfg.rate_limit.redis;
  routes = routes_filled cfg.routes;
  auth_providers = refl;
  middleware_definitions = refl;
  middlewares = refl;
}

module _ (compiles has_unresolved_env_var : String → Bool) (d : Decoder) (source : Source) where
  open source use {read_file, substitute, schema_errors, unmarshal}

  -- If a configuration loads: the checks have nothing to report of it, the file could be read, its
  -- text with the variables replaced follows the schema, and each setting is what that text decodes
  -- to, or its default where that is zero or empty; those of Redis get defaults only where Redis is
  -- the backend.
  pub load_config-IsFilled :
      (path : String) (cfg : GatewayConfig)
      → load_config compiles has_unresolved_env_var d source path ≡ ok cfg
      → (semantic_of compiles has_unresolved_env_var d source cfg ≡ [])
        × (text : String) × (raw : GatewayConfig) × (read_file path ≡ ok text)
        × (schema_errors (substitute text) ≡ [])
        × (unmarshal (substitute text) ≡ ok raw)
        × IsFilled raw cfg
  load_config-IsFilled path cfg h =
      let (checked, text, raw, read, valid, decoded, same) =
        load_config_checked compiles has_unresolved_env_var d source path cfg h in
      (
        checked,
        text,
        raw,
        read,
        valid,
        decoded,
        subst (IsFilled raw) same (apply_defaults-IsFilled raw),
      )
