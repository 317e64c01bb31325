-- ===== src/Gateway/Tests.antt =====
-- A process that starts, serves a request, fails to reload, reloads, and ends.
use tanugate.Common.{
  ℕ, ◌≡◌, ◌↔◌, refl, arith, String, Bool, true, Option, none, some, List, [], ◌∷◌, map, ok, err,
}
use tanugate.Http.{Bytes, Request, no_body, Handler, reply, write_header}
use tanugate.Http.Wire.{deliver}
use tanugate.Config.{GatewayConfig}
use tanugate.Config.Yaml.{Node}
use tanugate.Config.Load.{Source, apply_defaults}
use tanugate.Config.Semantic.Tests.{cfg, decoder, literal, unresolved, source, cfg_loads}
use tanugate.Pipeline.Tests.{net, deps, layers}
use tanugate.Gateway.{
  Gateway, Session, Event, hangup, terminate, request, Endpoints, any_path, parse_log_level, debug,
  info, build, serve,
}
use tanugate.Gateway.Health.{HealthChecker, health_handler, health_handler-IsDown, IsDown}
use tanugate.Gateway.Reload.{
  ClosedOnce, Served, Implements, count, loads-builds, serve-ClosedOnce, serve-Implements, answers,
}
use tanugate.Gateway.Startup.{Backends, IsReady, start, start-IsReady}

levels : (parse_log_level "debug" ≡ debug) × (parse_log_level "verbose" ≡ info)
unfolding parse_log_level
levels = (refl, refl)

abbrev broken : Source
broken = record source { read_file = λ path. err "no such file" }

abbrev marshal : Node → Option Bytes
marshal n = some (1 ∷ [])

abbrev same_float : ℕ → ℕ → Bool
same_float x y = true

abbrev endpoints : Endpoints ℕ
endpoints = record {
  pattern_of = λ r. any_path;
  metrics_handler = λ r w. reply (write_header 200 ∷ []) w;
  checker = none;
  timestamp = λ w. "now";
  encode = λ resp. [];
}

abbrev req : Request
req = record {
  method = "GET";
  host = "a.example.com";
  path = "/a";
  remote_addr = "1.2.3.4:5";
  header = [];
  body = no_body;
  context = record {
    request_id = none;
    auth_result = none;
    matched_route = none;
    start_time = none;
  };
}

abbrev events : List Event
events =
    request req
    ∷ (hangup broken ∷ (request req ∷ (hangup source ∷ (request req ∷ (terminate ∷ [])))))

abbrev backends : Backends ℕ
backends = record {
  new_memory_limiter = deps.limiter;
  new_redis_limiter = λ cfg. deps.limiter;
  ping = λ cfg w. (ok tt, w);
  new_jwt = λ cfg. err "no key";
  new_oidc = λ cfg. err "no issuer";
}

start-IsReady_example :
    IsReady backends net literal decoder unresolved marshal same_float deps
      (λ t. layers)
      "gateway.yaml"
      source
      endpoints
      (start backends net literal decoder unresolved marshal same_float deps
        (λ t. layers)
        "gateway.yaml"
        source
        0).0
start-IsReady_example =
    start-IsReady backends net literal decoder unresolved marshal same_float deps (λ t. layers)
      "gateway.yaml" source endpoints refl 0

-- The pipeline of the configuration that loads.
built :
    (h : Handler ℕ) × (build net literal decoder unresolved marshal same_float deps
        (λ t. layers)
        "gateway.yaml"
        0
        (apply_defaults cfg)
      ≡ ok h)
built =
    loads-builds net literal decoder unresolved marshal same_float deps (λ t. layers) "gateway.yaml"
      refl source (apply_defaults cfg) 0 (cfg_loads "gateway.yaml")

abbrev first : Gateway ℕ
first = record {
  config = apply_defaults cfg;
  current = record { handler = built.0; transport = 0 };
  transports = 1;
  idle_closed = [];
}

abbrev start_of : Served
start_of = record { config = apply_defaults cfg; generation = 0 }

abbrev session : Session ℕ
session =
    serve net literal decoder unresolved marshal same_float deps (λ t. layers) "gateway.yaml"
      endpoints events first 0

first-Implements :
    Implements net literal decoder unresolved marshal same_float deps
      (λ t. layers)
      "gateway.yaml"
      endpoints
      first
      start_of
first-Implements = record { config = refl; transports = refl; transport = refl; handler = built.1 }

serve-Implements_example :
    Implements net literal decoder unresolved marshal same_float deps
      (λ t. layers)
      "gateway.yaml"
      endpoints
      session.gateway
      (answers net literal decoder unresolved marshal same_float deps
        (λ t. layers)
        "gateway.yaml"
        endpoints
        events
        start_of
        0).0
    × (map ok session.replies
        ≡ (answers net literal decoder unresolved marshal same_float deps
            (λ t. layers)
            "gateway.yaml"
            endpoints
            events
            start_of
            0).1)
serve-Implements_example =
    serve-Implements net literal decoder unresolved marshal same_float deps (λ t. layers)
      "gateway.yaml" endpoints refl events first start_of 0 first-Implements

first-ClosedOnce : ClosedOnce first
unfolding count
first-ClosedOnce = (refl, λ t. ground arith)

serve-ClosedOnce_example : ClosedOnce session.gateway
serve-ClosedOnce_example =
    serve-ClosedOnce net literal decoder unresolved marshal same_float deps (λ t. layers)
      "gateway.yaml" endpoints events first 0 first-ClosedOnce

abbrev no_authenticators : List (String × ℕ)
no_authenticators = []

abbrev down : HealthChecker ℕ
down w = (err "timeout", w)

abbrev redis_cfg : GatewayConfig
redis_cfg = record cfg { rate_limit = record { backend = "redis"; redis = none } }

health_handler-IsDown_example :
    ((deliver []
        (health_handler (λ w. "now") (λ resp. []) (some down) redis_cfg req 0).calls).status
      ≡ some 503)
    ↔ IsDown (λ w. "now") (λ resp. []) (some down) redis_cfg 0
health_handler-IsDown_example =
    health_handler-IsDown (λ w. "now") (λ resp. []) (some down) redis_cfg req 0 []
