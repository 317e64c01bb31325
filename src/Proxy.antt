-- ===== src/Proxy.antt =====
-- The proxy: internal/proxy/proxy.go.
-- `httputil.ReverseProxy` with its transport and time limit is a parameter, as is `url.Parse`.
pub mod Rewriting
mod Placeholders
mod Tests
use Prim.Native.String
use tanugate.Common.{
  ℕ, suc, zero, ◌-◌, ◌<>◌, String, Bool, true, false, Option, none, some, List, [], ◌∷◌, Result, ok,
  err, cut_prefix, ◌===◌, ℤ, is_positive, if◌then◌else◌,
}
use tanugate.Http.{Request, MatchedRoute, Reply, reply, Handler, Call, write_json}
use tanugate.Config.{RouteConfig}

abbrev pub chars : String → ℕ
chars String.[] = 0
chars (String.◌∷◌ c s) = suc (chars s)

-- `strings.ReplaceAll`, for a text to replace that is not empty: the characters of an occurrence that
-- is already replaced are skipped.
unfoldable pub replace_from : String → String → ℕ → String → String
unfolding cut_prefix
replace_from old new skip String.[] = ""
replace_from old new (suc skip) (String.◌∷◌ c s) = replace_from old new skip s
replace_from old new ℕ.zero (String.◌∷◌ c s) = elim (cut_prefix (String.◌∷◌ c s) old) [
  | none ↦ String.◌∷◌ c (replace_from old new 0 s)
  | some _ ↦ new <> replace_from old new (chars old - 1) s
]

abbrev pub replace_all : String → String → String → String
replace_all s old new = replace_from old new 0 s

-- The loop over the parameters of the matched route.
unfoldable pub rewrite : List (String × String) → String → String
unfolding replace_from
rewrite [] path = path
rewrite ((key, value) ∷ params) path = rewrite params (replace_all path ("{" <> key <> "}") value)

pub record Url : Type 0 where
  pub scheme : String
  pub host : String

-- The request as the director leaves it.
pub record Outgoing : Type 0 where
  pub scheme : String
  pub request : Request

-- The path that the upstream gets.
abbrev pub rewritten_path : String → String → Option MatchedRoute → String
rewritten_path template path none = path
rewritten_path template path (some matched) =
    if template === "" then path else rewrite matched.path_params template

unfoldable pub director : RouteConfig → Url → Request → Outgoing
unfolding rewrite
director route upstream r = record {
  scheme = upstream.scheme;
  request = record r {
    host = upstream.host;
    path = rewritten_path route.upstream.path_rewrite r.path r.context.matched_route;
  };
}

-- `url.Parse`, and what the reverse proxy does with a request and a time limit.
pub record Upstream (W : Type 0) : Type 0 where
  pub parse_url : String → Option Url
  pub round_trip : Outgoing → Option ℤ → W → Result String (List Call) × W

-- The answer of the error handler, and of a route whose address cannot be parsed.
abbrev pub unavailable : List Call
unavailable = write_json 502 "bad_gateway" "Upstream service unavailable"

abbrev pub or_unavailable : Result String (List Call) → List Call
or_unavailable (err e) = unavailable
or_unavailable (ok calls) = calls

abbrev pub time_limit : ℤ → Option ℤ
time_limit timeout = if is_positive timeout then some timeout else none

module _ {W : Type 0} (up : Upstream W) (route : RouteConfig) where
  open up use {parse_url, round_trip}

  abbrev pub serve_upstream : Option Url → Handler W
  serve_upstream none r w = reply unavailable w
  serve_upstream (some upstream) r w =
      let (outcome, w') =
        round_trip (director route upstream r) (time_limit route.upstream.timeout) w in
      reply (or_unavailable outcome) w'

  -- `NewProxyHandler`.
  unfoldable pub new_proxy_handler : Handler W
  unfolding director
  new_proxy_handler r w = serve_upstream (parse_url route.upstream.url) r w
