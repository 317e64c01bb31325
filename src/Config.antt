-- ===== src/Config.antt =====
-- The configuration: internal/config/config.go and internal/config/resolve.go.
-- `int` and `time.Duration` values are integers (durations in nanoseconds), maps are association
-- lists, a nil pointer is `none`, and a `float64` is given by its 64 bits.
pub mod Yaml
pub mod Resolve
pub mod Hosts
pub mod Checks
pub mod Semantic
pub mod Load
pub mod Changes
mod Tests
use tanugate.Common.{ℕ, ℤ, String, Bool, Option, List}
use tanugate.Config.Yaml.{Node}
use tanugate.Http.{Json}

pub record MiddlewareDefinition : Type 0 where
  pub type : String
  pub config : Node

pub record MiddlewareRef : Type 0 where
  pub ref : String
  pub config : Node

pub record RateLimitConfig : Type 0 where
  pub requests : ℤ
  pub window : ℤ
  pub key_source : String
  pub algorithm : String

pub record AuthMiddlewareConfig : Type 0 where
  pub providers : List String

pub record CorsConfig : Type 0 where
  pub allowed_origins : List String
  pub allowed_methods : List String
  pub allowed_headers : List String
  pub exposed_headers : List String
  pub allow_credentials : Bool
  pub max_age : ℤ

pub record HeaderTransform : Type 0 where
  pub add : List (String × String)
  pub remove : List String
  pub rename : List (String × String)

pub record BodyTransform : Type 0 where
  pub inject_fields : List (String × Json)
  pub strip_fields : List String
  pub rename_keys : List (String × String)

pub record DirectionTransform : Type 0 where
  pub headers : Option HeaderTransform
  pub body : Option BodyTransform

pub record TransformConfig : Type 0 where
  pub request : Option DirectionTransform
  pub response : Option DirectionTransform
  pub max_body_size : ℤ

-- The values that `ResolvedMiddleware.Config` (`any`) holds.
pub data TypedConfig : Type 0 where
  cors_config : CorsConfig → TypedConfig
  rate_limit_config : RateLimitConfig → TypedConfig
  auth_config : AuthMiddlewareConfig → TypedConfig
  transform_config : TransformConfig → TypedConfig

pub record ResolvedMiddleware : Type 0 where
  pub name : String
  pub type : String
  pub config : TypedConfig

pub record ServerConfig : Type 0 where
  pub host : String
  pub port : ℤ
  pub read_timeout : ℤ
  pub write_timeout : ℤ
  pub idle_timeout : ℤ
  pub shutdown_timeout : ℤ
  pub trusted_proxies : List String
  pub max_header_bytes : ℤ

pub record LoggingConfig : Type 0 where
  pub level : String

pub record RedisConfig : Type 0 where
  pub addr : String
  pub password : String
  pub db : ℤ
  pub pool_size : ℤ
  pub min_idle_conns : ℤ
  pub dial_timeout : ℤ
  pub read_timeout : ℤ
  pub write_timeout : ℤ
  pub max_retries : ℤ
  pub query_timeout : ℤ
  pub tls_enabled : Bool

pub record RateLimitGlobalConfig : Type 0 where
  pub backend : String
  pub redis : Option RedisConfig

pub record JwtConfig : Type 0 where
  pub secret : String
  pub public_key_file : String
  pub algorithm : String
  pub issuer : String
  pub audience : String

pub record ApiKeyEntry : Type 0 where
  pub key : String
  pub name : String

pub record ApiKeyConfig : Type 0 where
  pub header : String
  pub keys : List ApiKeyEntry

pub record OidcConfig : Type 0 where
  pub issuer_url : String
  pub jwks_url : String
  pub introspection_url : String
  pub client_id : String
  pub client_secret : String
  pub audience : String
  pub allowed_algorithms : List String
  pub skip_issuer_check : Bool

pub record AuthProvider : Type 0 where
  pub type : String
  pub jwt : Option JwtConfig
  pub api_key : Option ApiKeyConfig
  pub oidc : Option OidcConfig

pub record MatchConfig : Type 0 where
  pub path_regex : String
  pub methods : List String
  pub host : String
  pub headers : List (String × String)

pub record UpstreamConfig : Type 0 where
  pub url : String
  pub path_rewrite : String
  pub timeout : ℤ

pub record RetryConfig : Type 0 where
  pub max_retries : ℤ
  pub initial_delay : ℤ
  pub multiplier : ℕ
  pub retryable_status_codes : List ℤ

pub record CircuitBreakerConfig : Type 0 where
  pub failure_threshold : ℤ
  pub success_threshold : ℤ
  pub timeout : ℤ

pub record RouteConfig : Type 0 where
  pub name : String
  pub match : MatchConfig
  pub upstream : UpstreamConfig
  pub retry : Option RetryConfig
  pub circuit_breaker : Option CircuitBreakerConfig
  pub skip_middlewares : List String
  pub middlewares : List MiddlewareRef

pub record GatewayConfig : Type 0 where
  pub server : ServerConfig
  pub logging : LoggingConfig
  pub rate_limit : RateLimitGlobalConfig
  pub auth_providers : List (String × AuthProvider)
  pub middleware_definitions : List (String × MiddlewareDefinition)
  pub middlewares : List MiddlewareRef
  pub routes : List RouteConfig
