-- ===== src/Pipeline/Tests.antt =====
-- A pipeline built from a configuration that passes the checks.
use tanugate.Common.{ℕ, suc, ◌≡◌, refl, String, true, false, none, some, List, [], ◌∷◌, ok, err}
use tanugate.Http.{reply, write_header}
use tanugate.CircuitBreaker.{CircuitBreaker, closed}
use tanugate.Config.Semantic.Tests.{cfg, cfg_passes, decoder, literal, unresolved}
use tanugate.Config.{ResolvedMiddleware, auth_config}
use tanugate.Middleware.Chain.{chain, recovery, request_id}
use tanugate.RateLimit.{Net}
use tanugate.Router.{CompiledRoute, serve_http}
use tanugate.Pipeline.{FactoryDeps, Layers, build_handler}
use tanugate.Pipeline.Order.{semantic_errors-build_handler}

abbrev pub net : Net
net = record {
  Ip = String;
  IpNet = String;
  parse_ip = λ s. none;
  ip_string = λ s. s;
  is_ipv4 = λ s. true;
  parse_cidr = λ s. some s;
  network_contains = λ n ip. false;
  split_host_port = λ s. some s;
}

abbrev pub deps : FactoryDeps net ℕ
deps = record {
  limiter = λ key limit window algorithm w. (err "down", w);
  authenticators = ("keys", λ r w. (err "no", w)) ∷ [];
  trusted_proxies = [];
  printers = record { digest = λ s. s; format_float = λ x. ""; marshal = λ v. none };
  print_int = λ n. "0";
  now_unix = λ w. w;
  detect = λ b. "text/plain";
  generate_uuid = λ w. ("id", w);
  lower = λ c. c;
}

abbrev breaker : CircuitBreaker
breaker = record {
  state = closed;
  failure_count = 0;
  success_count = 0;
  half_open_probing = false;
  failure_threshold = 5;
  success_threshold = 1;
  timeout = 10;
  opened_at = 0;
  route_name = "a";
  observed = false;
}

abbrev pub layers : Layers ℕ
layers = record {
  new_proxy_handler = λ route r w. reply (write_header 200 ∷ []) (suc w);
  transform = λ t next. next;
  surroundings = λ name. record {
    breaker_of = λ w. breaker;
    set_breaker = λ cb w. w;
    now = λ w. w;
    client_gone = λ w. false;
    pause = λ n w. w;
  };
  logging = λ next. next;
  metrics = λ next. next;
}

semantic_errors-build_handler_example :
    (routes : List (CompiledRoute literal ℕ)) × (build_handler net literal decoder deps layers cfg
      ≡ ok (
          chain
            (recovery ∷ (request_id deps.generate_uuid ∷ (layers.logging ∷ (layers.metrics ∷ []))))
            (serve_http literal deps.lower routes)))
semantic_errors-build_handler_example =
    semantic_errors-build_handler net literal decoder deps layers unresolved cfg refl cfg_passes

abbrev keys : String → ResolvedMiddleware
keys name = record { name = name; type = "auth"; config = auth_config (record { providers = [] }) }
