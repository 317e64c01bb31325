-- ===== src/Lib.antt =====
-- Models and theorems for tanugate, an API gateway in Go.
--
-- A request passes recovery, request ids, logging and metrics, then the router, which picks a route;
-- the route's middlewares (CORS, authentication, rate limits), its transforms, the retry handler
-- with its circuit breaker, and at last the reverse proxy. A configuration is read, checked and
-- turned into these handlers, at the start and at each reload.
--
-- Parts, with the code that they model:
--   Common           names shared by all parts: Boolean tests, lists, texts (Go's strings package),
--                    maps as association lists, integers, results with an error
--   Http             what the gateway uses of net/http. `Handler W` is a function from a request and
--                    a world to the calls on the ResponseWriter, a flag for a panic and the world
--                    after; `Middleware W` is a function between handlers, so a ResponseWriter that
--                    wraps another is a function on lists of calls. Http.Headers is http.Header,
--                    Http.Wire what the client gets from the calls,
--                    Http.Plain the same for handlers that send no informational status
--   CircuitBreaker   internal/middleware/circuitbreaker/circuitbreaker.go. `begin` and `finish` are
--                    the two critical sections of Execute, `execute` is a call of its own,
--                    Calls.`step` one event (a call arrives, returns or panics) of overlapping calls
--   Router           internal/router/router.go. `new` is New, `serve_http` is ServeHTTP; Matching
--                    and Dispatch hold the theorems, Validated those about checked configurations
--   Config           internal/config/config.go: the structs; Hosts: validateHostPattern; Checks:
--                    validateResolvedMiddlewares; Semantic: semanticErrors; Load: LoadConfig and
--                    applyDefaults; Changes: NonReloadableChanges and DiffSummary; Yaml and
--                    Resolve: internal/config/resolve.go
--   Middleware       Cors: internal/middleware/cors.go; Writer: internal/middleware/responsewriter.go;
--                    Chain: internal/middleware/chain.go, recovery.go and requestid.go; Logging:
--                    internal/middleware/logging.go
--   Auth             internal/middleware/auth/auth.go and apikey.go beside it; Bearer, Jwt and Oidc:
--                    jwt.go and oidc.go. Guard, ApiKey, Keys and Tokens hold what they accept
--   RateLimit        internal/middleware/ratelimit/ratelimit.go; Memory: memory.go beside it; Redis:
--                    redis.go with its two scripts. Burst and Window hold what they admit
--   Retry            internal/middleware/retry/retry.go; Recording is the recorder of httptest,
--                    Roundtrip what the client gets of a copy of it
--   Transform        internal/middleware/transform/transform.go: Variables: resolveVariables; Rules:
--                    transformHeaders and transformBody; Buffering: bufferingResponseWriter;
--                    `request_transform` and `response_transform` are the two middlewares. A pipeline
--                    takes `transform` for its parameter of that name
--   Proxy            internal/proxy/proxy.go: `director` and `new_proxy_handler`
--   Pipeline         internal/pipeline/builder.go and internal/pipeline/registry.go: `build_handler`
--                    is BuildHandler, over the handlers of the other parts
--   Gateway          cmd/gateway/main.go: `handle_reload` is handleReload, `serve` the main loop with
--                    the requests in between, `shutdown` its end; Startup: the first half of
--                    runServe; Reload: the theorems; Health: internal/observability/health.go
--
-- How Go is read:
--   * Shared state (the breaker of a route, a rate limit's backend, the clock, the client's
--     connection) is a part of the world `W`. What other requests do in between is in what the
--     functions that act on the world do; for the breaker, Calls interleaves the critical sections.
--   * What a handler does next does not depend on the result of its writes: a write that fails, as one
--     past the limit of a response transform, is seen only by the writer. What Write returns to the
--     writer that counts bytes is a parameter (`taken`).
--   * Times and durations are natural numbers where they are only compared and added, and integers
--     in the configuration. Counters are unbounded, except max_retries + 1, which wraps at 64 bits.
--   * A map is an association list, and a range over it follows the list's order. Where an order
--     shows in a result, no theorem depends on it.
--   * Error messages of the checks are constructors with the values that the messages print.
--   * A loop over a slice is structural recursion. The retry loop counts the attempts that are left,
--     max_retries + 1 at the start, so it needs no other bound.
--
-- Parameters: what is not in the repository, that is regexp (`Regexp`), the net package (`Net`), the
-- decoding of YAML (`Decoder`), reading files and the environment (`Source`), JSON (`JsonCodec`) and
-- the printing of numbers and claims (`Printers`, `print_int`), floating-point numbers (`Floats`), the
-- Redis client (`Server`), the libraries for tokens (`JwtLibrary`, `OidcLibrary`), the reverse proxy
-- (`Upstream`), clocks, the case tables of Unicode, http.DetectContentType and SHA-256; and the parts
-- that are left out below, where a part that is modelled calls them.
--
-- Not modelled: the JSON schema of a configuration, which is calls of third-party code; the expiry
-- of keys in Redis; the length of the pause between attempts, a floating-point number with jitter;
-- httputil.ReverseProxy, which forwards requests; Prometheus metrics, which nothing else reads; the
-- subcommands validate and schema of the program.
pub mod Common
pub mod CircuitBreaker
pub mod Http
pub mod Middleware
pub mod Config
pub mod Router
pub mod Auth
pub mod RateLimit
pub mod Retry
pub mod Pipeline
pub mod Gateway
pub mod Transform
pub mod Proxy
