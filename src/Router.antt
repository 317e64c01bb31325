-- ===== src/Router.antt =====
-- The router: internal/router/router.go.
-- Regular expressions are Go's `regexp`, a parameter; `lower` is `unicode.ToLower`, the table of
-- `strings.ToLower`.
pub mod Matching
pub mod Dispatch
pub mod Validated
mod Tests
use Prim.Native.Char.{Char}
use tanugate.Common.{
  ℕ, String, Bool, true, false, not, ◌&&◌, ◌||◌, Option, none, some, List, [], ◌∷◌, contains,
  lookup, insert, contains_char, has_prefix, trim_prefix, cut_suffix, before_last, map_chars, ◌===◌,
  ◌<>◌, if◌then◌else◌,
}
use tanugate.Http.{
  Request, MatchedRoute, Handler, Reply, Call, set_header, write_header, write, Bytes, reply,
  write_json,
}
use tanugate.Http.Headers
use tanugate.Config.{MatchConfig, RouteConfig}

-- What the program uses of `regexp`: `Compile` (`MustCompile` panics where it gives an error),
-- `FindStringSubmatch`, `SubexpNames` and `MatchString`.
pub record Regexp : Type 1 where
  pub Regex : Type 0
  pub compile : String → Option Regex
  pub find_submatch : Regex → String → Option (List String)
  pub subexp_names : Regex → List String
  pub is_match : Regex → String → Bool

pub data HostMatcher : Type 0 where
  exact : String → HostMatcher
  wildcard_suffix : String → HostMatcher

unfoldable pub new_host_matcher : (Char → Char) → String → Option HostMatcher
new_host_matcher lower host =
    if host === ""
    then none
    else (let h = map_chars lower host in
        if has_prefix h "*." then some (wildcard_suffix (trim_prefix h "*")) else some (exact h))

-- The host without its port, in lower case.
unfoldable pub request_host : (Char → Char) → String → String
request_host lower host = elim (before_last b':' host) [
  | none ↦ map_chars lower host
  | some name ↦ map_chars lower name
]

-- A wildcard takes one more label, which is not empty.
abbrev pub is_label : Option String → Bool
is_label none = false
is_label (some prefix) = not (prefix === "") && not (contains_char b'.' prefix)

unfoldable pub host_matches : (Char → Char) → Option HostMatcher → String → Bool
host_matches lower none host = true
host_matches lower (some (exact h)) host = request_host lower host === h
host_matches lower (some (wildcard_suffix suffix)) host =
    is_label (cut_suffix (request_host lower host) suffix)

-- No list of methods allows all; `OPTIONS` passes for CORS preflights.
unfoldable pub method_matches : List String → String → Bool
method_matches [] method = true
method_matches (m ∷ ms) method = contains method (m ∷ ms) || method === "OPTIONS"

-- `params[name] = matches[j]` for the named groups but the first.
unfoldable pub path_params :
    List String → List String → List (String × String) → List (String × String)
path_params (name ∷ names) (value ∷ values) params =
    path_params names values (if name === "" then params else insert name value params)
path_params _ _ params = params

abbrev pub drop_first : List String → List String
drop_first [] = []
drop_first (x ∷ xs) = xs

abbrev pub with_route : Request → MatchedRoute → Request
with_route r mr = record r { context = record (r.context) { matched_route = some mr } }

-- A nil handler panics when it is called.
abbrev pub call_handler : {W : Type 0} → Option (Handler W) → Handler W
call_handler none r w = record { calls = []; panicked = true; world = w }
call_handler (some handler) r w = handler r w

abbrev pub not_found : List Call
not_found = write_json 404 "not_found" "No route matched"

module _ (re : Regexp) where
  open re use {Regex, compile, find_submatch, subexp_names, is_match}

  pub data HeaderMatcher : Type 0 where
    presence_only : String → HeaderMatcher
    matching : String → Regex → HeaderMatcher

  unfoldable pub header_matches : HeaderMatcher → Headers.Header → Bool
  header_matches (presence_only name) h = not (Headers.get h name === "")
  header_matches (matching name regex) h = is_match regex (Headers.get h name)

  unfoldable pub headers_match : List HeaderMatcher → Headers.Header → Bool
  headers_match [] h = true
  headers_match (m ∷ ms) h = header_matches m h && headers_match ms h

  unfoldable pub new_header_matcher : String × String → Option HeaderMatcher
  new_header_matcher (name, pattern) =
      if pattern === "*"
      then some (presence_only name)
      else (elim (compile ("^(?:" <> pattern <> ")$")) [
        | none ↦ none
        | some regex ↦ some (matching name regex)
      ])

  unfoldable pub new_header_matchers : List (String × String) → Option (List HeaderMatcher)
  unfolding new_header_matcher
  new_header_matchers [] = some []
  new_header_matchers (h ∷ hs) = elim (new_header_matcher h) [
    | none ↦ none
    | some m ↦ elim (new_header_matchers hs) [ none ↦ none | some ms ↦ some (m ∷ ms) ]
  ]

  -- `methods` is empty where the source has a nil map, `handler` is `none` where it is nil.
  pub record CompiledRoute (W : Type 0) : Type 0 where
    pub name : String
    pub regex : Regex
    pub methods : List String
    pub host : Option HostMatcher
    pub headers : List HeaderMatcher
    pub handler : Option (Handler W)
    pub config : RouteConfig

  module _ (lower : Char → Char) {W : Type 0} where
    unfoldable pub compile_route :
        List (String × Handler W) → RouteConfig → Option (CompiledRoute W)
    unfolding new_host_matcher new_header_matchers
    compile_route handlers cfg = elim (compile cfg.match.path_regex) [
      | none ↦ none
      | some regex ↦ elim (new_header_matchers cfg.match.headers) [
        | none ↦ none
        | some headers ↦ some (record {
          name = cfg.name;
          regex = regex;
          methods = cfg.match.methods;
          host = new_host_matcher lower cfg.match.host;
          headers = headers;
          handler = lookup cfg.name handlers;
          config = cfg;
        })
      ]
    ]

    -- `New`; `none` is a panic of `MustCompile`.
    unfoldable pub new :
        List (String × Handler W) → List RouteConfig → Option (List (CompiledRoute W))
    unfolding compile_route
    new handlers [] = some []
    new handlers (cfg ∷ cfgs) = elim (compile_route handlers cfg) [
      | none ↦ none
      | some route ↦ elim (new handlers cfgs) [ none ↦ none | some routes ↦ some (route ∷ routes) ]
    ]

    -- The constraints of a route; the submatches of its path if all hold.
    unfoldable pub route_matches : CompiledRoute W → Request → Option (List String)
    route_matches cr r = elim (find_submatch cr.regex r.path) [
      | none ↦ none
      | some groups ↦
          if host_matches lower cr.host r.host
            && method_matches cr.methods r.method
            && headers_match cr.headers r.header
          then some groups
          else none
    ]

    unfoldable pub matched_route : CompiledRoute W → List String → MatchedRoute
    matched_route cr groups = record {
      route_name = cr.config.name;
      path_params = path_params (drop_first (subexp_names cr.regex)) (drop_first groups) [];
    }

    -- `ServeHTTP`.
    unfoldable pub serve_http : List (CompiledRoute W) → Handler W
    serve_http [] r w = reply not_found w
    serve_http (cr ∷ routes) r w = elim (route_matches cr r) [
      | none ↦ serve_http routes r w
      | some groups ↦ call_handler cr.handler (with_route r (matched_route cr groups)) w
    ]
