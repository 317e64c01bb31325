-- ===== src/Router/Tests.antt =====
-- The router with a regular expression engine that knows literal paths, and the theorems at it.
use Prim.Native.Char.{Char}
use tanugate.Common.{
  ℕ, ◌≡◌, ◌≢◌, refl, ◌↔◌, ◌⊎◌, String, true, false, none, some, List, [], ◌∷◌, ◌===◌, if◌then◌else◌,
  ◌+◌, contains_char, map_chars, ◌<>◌, pos, lookup, has_prefix, cut_suffix, before_last,
  trim_prefix, All, contains,
}
use tanugate.Http.{Request, reply, no_body, write_header}
use tanugate.Http.Headers
use tanugate.Config.{RouteConfig}
use tanugate.Router.{
  Regexp, CompiledRoute, presence_only, route_matches, matched_route, not_found, serve_http, new,
  new_host_matcher, request_host, host_matches, wildcard_suffix, header_matches, method_matches,
  headers_match, path_params, call_handler, with_route,
}
use tanugate.Router.Matching.{wildcard_host_iff}
use tanugate.Router.Dispatch.{group_of, serve_http-first, route_matches_iff}

router : Unit {0}
unfolding serve_http route_matches host_matches method_matches headers_match header_matches
    new_host_matcher request_host matched_route path_params new cut_suffix before_last map_chars
    contains_char has_prefix trim_prefix contains lookup Headers.get Headers.canonical
router = tt

abbrev literal : Regexp
literal = record {
  Regex = String;
  compile = λ s. some s;
  find_submatch = λ re s. if re === s then some (s ∷ []) else none;
  subexp_names = λ re. "" ∷ [];
  is_match = λ re s. re === s;
}

abbrev same : Char → Char
same c = c

abbrev config : String → String → RouteConfig
config name path = record {
  name = name;
  match = record { path_regex = path; methods = "GET" ∷ []; host = "*.example.com"; headers = [] };
  upstream = record { url = "http://up"; path_rewrite = ""; timeout = pos 0 };
  retry = none;
  circuit_breaker = none;
  skip_middlewares = [];
  middlewares = [];
}

abbrev route : String → String → ℕ → CompiledRoute literal ℕ
route name path code = record {
  name = name;
  regex = path;
  methods = "GET" ∷ [];
  host = some (wildcard_suffix ".example.com");
  headers = presence_only "X-Key" ∷ [];
  handler = some (λ r w. reply (write_header code ∷ []) (w + 1));
  config = config name path;
}

abbrev ask : String → String → Request
ask method path = record {
  method = method;
  host = "api.example.com:8080";
  path = path;
  remote_addr = "10.0.0.1:99";
  header = ("X-Key", "1" ∷ []) ∷ [];
  body = no_body;
  context = record {
    request_id = none;
    auth_result = none;
    matched_route = none;
    start_time = none;
  };
}

routes_tests :
    ((serve_http literal same
        (route "a" "/a" 201 ∷ (route "b" "/b" 202 ∷ []))
        (ask "GET" "/b")
        7).world
      ≡ 8)
    × (serve_http literal same (route "a" "/a" 201 ∷ []) (ask "PUT" "/a") 7 ≡ reply not_found 7)
    × (host_matches same (new_host_matcher same "*.example.com") "a.b.example.com" ≡ false)
    × (host_matches same (new_host_matcher same "*.example.com") "example.com" ≡ false)
unfolding router
routes_tests = (refl, refl, refl, refl)

-- Paths with one more segment, which is the group "id".
abbrev segments : Regexp
segments = record {
  Regex = String;
  compile = λ s. some s;
  find_submatch = λ re s. if has_prefix s re then some (s ∷ (trim_prefix s re ∷ [])) else none;
  subexp_names = λ re. "" ∷ ("id" ∷ []);
  is_match = λ re s. re === s;
}

abbrev item : String → String → ℕ → CompiledRoute segments ℕ
item name path code = record {
  name = name;
  regex = path;
  methods = "GET" ∷ [];
  host = some (wildcard_suffix ".example.com");
  headers = presence_only "X-Key" ∷ [];
  handler = some (λ r w. reply (write_header code ∷ []) (w + 1));
  config = config name path;
}

serve_http-first_example :
    (params : List (String × String)) × ((name : String)
      → lookup name params ≡ group_of name ("" ∷ ("id" ∷ [])) ("/b/7" ∷ ("7" ∷ [])))
    × (serve_http segments same
          (item "a" "/a/" 201 ∷ (item "b" "/b/" 202 ∷ (item "c" "/b/" 203 ∷ [])))
          (ask "GET" "/b/7")
          7
        ≡ call_handler
            (item "b" "/b/" 202).handler
            (with_route (ask "GET" "/b/7") (record { route_name = "b"; path_params = params }))
            7)
unfolding router
serve_http-first_example =
    serve_http-first segments same (item "a" "/a/" 201 ∷ []) (item "c" "/b/" 203 ∷ [])
      (item "b" "/b/" 202) ("/b/7" ∷ ("7" ∷ [])) (ask "GET" "/b/7") 7 (refl, tt) refl

route_matches_iff_example :
    (route_matches literal same (route "a" "/a" 201) (ask "OPTIONS" "/a") ≡ some ("/a" ∷ [])) ↔ (
      (literal.find_submatch "/a" "/a" ≡ some ("/a" ∷ []))
      × (host_matches same (some (wildcard_suffix ".example.com")) "api.example.com:8080" ≡ true)
      × ((◌≡◌ {A = List String} ("GET" ∷ []) [])
          ⊎ (contains "OPTIONS" ("GET" ∷ []) ≡ true)
          ⊎ (◌≡◌ {A = String} "OPTIONS" "OPTIONS"))
      × All
          (λ m. header_matches literal m (ask "GET" "/a").header ≡ true)
          (presence_only "X-Key" ∷ []))
route_matches_iff_example =
    route_matches_iff literal same (route "a" "/a" 201) (ask "OPTIONS" "/a") ("/a" ∷ [])

wildcard_host_iff_example :
    (host_matches same (new_host_matcher same ("*." <> "example.com")) "api.example.com:80" ≡ true)
    ↔ ((label : String) × (request_host same "api.example.com:80"
          ≡ label <> ("." <> map_chars same "example.com"))
        × (label ≢ "")
        × (contains_char b'.' label ≡ false))
wildcard_host_iff_example = wildcard_host_iff same "example.com" "api.example.com:80" refl refl
