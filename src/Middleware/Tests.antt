-- ===== src/Middleware/Tests.antt =====
-- The writers and CORS at concrete responses.
use tanugate.Common.{
  ℕ, ◌+◌, ◌≡◌, refl, String, true, false, none, List, [], ◌∷◌, arith, ℤ, pos, contains, eq_iff,
  lookup, insert, join, length,
}
use tanugate.Http.{Request, Handler, reply, no_body, Call, set_header, write_header, write}
use tanugate.Http.Headers
use tanugate.Http.Wire.{fresh, run, perform, deliver}
use tanugate.Config.{CorsConfig}
use tanugate.Middleware.Writer.{forward_all}
use tanugate.Middleware.Writer.Tracking.{final_status}
use tanugate.Middleware.Writer.Size.{taken_whole}
use tanugate.Middleware.Cors.{
  is_preflight, cors_middleware, resolve_allow_origin, is_origin_allowed, is_wildcard, cors_calls,
  inject_cors_headers, handle_preflight,
}
use tanugate.Middleware.Logging.{
  Logger, Line, request_completed, logging, inner, logging_transparent,
}
use tanugate.Middleware.Cors.Laws.{IsDecorated, cors_decorates}

middleware : Unit {0}
unfolding run perform deliver forward_all is_preflight cors_middleware resolve_allow_origin
    is_origin_allowed is_wildcard cors_calls inject_cors_headers handle_preflight contains lookup
    insert join Headers.canonical Headers.get Headers.set
middleware = tt

abbrev page : List Call
page = set_header "X-App" "1" ∷ (write_header 404 ∷ (write (7 ∷ 8 ∷ []) ∷ (write_header 500 ∷ [])))

abbrev cfg : CorsConfig
cfg = record {
  allowed_origins = "https://a.test" ∷ ("*" ∷ []);
  allowed_methods = "GET" ∷ ("POST" ∷ []);
  allowed_headers = [];
  exposed_headers = "X-App" ∷ [];
  allow_credentials = true;
  max_age = pos 60;
}

abbrev ask : String → Request
ask method = record {
  method = method;
  host = "a.test";
  path = "/";
  remote_addr = "10.0.0.1:99";
  header = ("Origin", "https://b.test" ∷ []) ∷ (("Access-Control-Request-Method", "GET" ∷ []) ∷ []);
  body = no_body;
  context = record {
    request_id = none;
    auth_result = none;
    matched_route = none;
    start_time = none;
  };
}

abbrev print_int : ℤ → String
print_int n = "60"

abbrev next : Handler ℕ
next r w = reply page (w + 1)

cors_decorates_example :
    ((cors_middleware print_int cfg next (ask "GET") 5).world ≡ 6)
    × ((cors_middleware print_int cfg next (ask "GET") 5).panicked ≡ false)
    × IsDecorated "https://b.test" cfg
        (run (fresh []) page)
        (run (fresh []) (cors_middleware print_int cfg next (ask "GET") 5).calls)
unfolding middleware
cors_decorates_example =
    cors_decorates print_int cfg next (ask "GET") 5 [] (ground (arith, eq_iff "https://b.test" ""))
      refl refl

-- A handler that panics before it writes.
abbrev faulty : Handler ℕ
faulty r w = record { calls = set_header "X-App" "1" ∷ []; panicked = true; world = w + 1 }

abbrev generate : ℕ → String × ℕ
generate w = ("id", w + 1)

-- A logger that keeps its lines.
abbrev logger : Logger (List Line)
logger = record { log = λ line w. line ∷ w; now = λ w. 5000000 }

abbrev shown : Handler (List Line)
shown r w = reply page w

logging_transparent_example :
    (deliver [] (logging logger taken_whole shown (ask "GET") []).calls
      ≡ deliver [] (inner logger taken_whole shown (ask "GET") []).calls)
    × ((logging logger taken_whole shown (ask "GET") []).world
        ≡ request_completed "GET" "/"
            (final_status (run (fresh []) page))
            0
            ""
            "unknown"
            "10.0.0.1:99"
            (length (run (fresh []) page).body)
          ∷ (inner logger taken_whole shown (ask "GET") []).world)
logging_transparent_example = logging_transparent logger shown (ask "GET") [] [] refl refl
