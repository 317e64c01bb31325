-- ===== src/Router/Dispatch.antt =====
-- Which route serves a request, and when the router can be built.
use Prim.Native.Char.{Char}
use tanugate.Common.{
  ◌≡◌, refl, ◌∙◌, ◌⊎◌, ◌↔◌, inl, String, true, none, some, List, [], ◌∷◌, ◌++◌, arith, eq_iff, All,
  contains, Option, is_some, lookup, insert, lookup-insert, ◌===◌, if◌then◌else◌,
}
use tanugate.Http.{Request, reply}
use tanugate.Http.Headers
use tanugate.Router.{
  Regexp, CompiledRoute, HeaderMatcher, route_matches, matched_route, with_route, call_handler,
  not_found, serve_http, host_matches, method_matches, headers_match, header_matches, path_params,
  drop_first,
}

method_matches_iff :
    (methods : List String) (method : String)
    → (method_matches methods method ≡ true)
      ↔ ((methods ≡ []) ⊎ (contains method methods ≡ true) ⊎ (method ≡ "OPTIONS"))
unfolding method_matches
method_matches_iff [] method = (λ _. inl refl, λ _. refl)
method_matches_iff (m ∷ ms) method =
    (λ h. ground (arith, eq_iff method "OPTIONS"), λ h. ground (arith, eq_iff method "OPTIONS"))

-- The text of the last group with a name.
unfoldable pub group_named : String → List String → List String → Option String
group_named wanted (name ∷ names) (value ∷ values) =
    let later = group_named wanted names values in
    if is_some later then later else if name === wanted then some value else none
group_named wanted _ _ = none

-- The same for all groups, of which the first is the whole match; no group is named "".
unfoldable pub group_of : String → List String → List String → Option String
unfolding group_named
group_of wanted (_ ∷ names) (_ ∷ values) =
    if wanted === "" then none else group_named wanted names values
group_of wanted _ _ = none

path_params_lem :
    (wanted : String) (names values : List String) (params : List (String × String))
    → lookup wanted (path_params names values params) ≡ (
        if wanted === ""
        then lookup wanted params
        else if is_some (group_named wanted names values)
        then group_named wanted names values
        else lookup wanted params)
unfolding path_params group_named
path_params_lem wanted [] values params = ground arith
path_params_lem wanted (name ∷ names) [] params = ground arith
path_params_lem wanted (name ∷ names) (value ∷ values) params =
    let ih =
      path_params_lem wanted names values
        (if name === "" then params else insert name value params) in
    ground (
      arith,
      lookup-insert name wanted value params,
      eq_iff name wanted,
      eq_iff name "",
      eq_iff wanted "",
    )

lookup-path_params :
    (wanted : String) (names values : List String)
    → lookup wanted (path_params (drop_first names) (drop_first values) [])
      ≡ group_of wanted names values
unfolding group_of path_params lookup
lookup-path_params wanted [] values = refl
lookup-path_params wanted (n ∷ []) [] = refl
lookup-path_params wanted (n ∷ (m ∷ names)) [] = refl
lookup-path_params wanted (n ∷ names) (v ∷ values) =
    let e = path_params_lem wanted names values [] in ground arith

module _ (re : Regexp) where
  headers_match_iff :
      (ms : List (HeaderMatcher re)) (h : Headers.Header)
      → (headers_match re ms h ≡ true) ↔ All (λ m. header_matches re m h ≡ true) ms
  unfolding headers_match
  headers_match_iff [] h = (λ _. tt, λ _. refl)
  headers_match_iff (m ∷ ms) h =
      let (to, from) = headers_match_iff ms h in
      (λ e. (ground arith, to (ground arith)), λ (a, b). let c = from b in ground arith)

module _ (re : Regexp) (lower : Char → Char) {W : Type 0} where
  serve_http-skip :
      (cr : CompiledRoute re W) (routes : List (CompiledRoute re W)) (r : Request) (w : W)
      → route_matches re lower cr r ≡ none
      → serve_http re lower (cr ∷ routes) r w ≡ serve_http re lower routes r w
  unfolding serve_http
  serve_http-skip cr routes r w h = rw (h, serve_http)

  serve_http-matched :
      (skipped later : List (CompiledRoute re W)) (cr : CompiledRoute re W) (groups : List String)
      (r : Request) (w : W)
      → All (λ c. route_matches re lower c r ≡ none) skipped
      → route_matches re lower cr r ≡ some groups
      → serve_http re lower (skipped ++ cr ∷ later) r w
        ≡ call_handler cr.handler (with_route r (matched_route re lower cr groups)) w
  unfolding serve_http
  serve_http-matched [] later cr groups r w h m = rw (m, serve_http)
  serve_http-matched (c ∷ skipped) later cr groups r w (miss, h) m =
      serve_http-skip c (skipped ++ cr ∷ later) r w miss
      ∙ serve_http-matched skipped later cr groups r w h m

  -- The first route in the configured order whose constraints all hold serves the request, with its
  -- name and its parameters in the context: each group of the regular expression that has a name,
  -- the last one of a name, with the text that it matched, and no others. The routes behind it have
  -- no part in it.
  pub serve_http-first :
      (skipped later : List (CompiledRoute re W)) (cr : CompiledRoute re W) (groups : List String)
      (r : Request) (w : W)
      → All (λ c. route_matches re lower c r ≡ none) skipped
      → route_matches re lower cr r ≡ some groups
      → (params : List (String × String)) × ((name : String)
          → lookup name params ≡ group_of name (re.subexp_names cr.regex) groups)
        × (serve_http re lower (skipped ++ cr ∷ later) r w
            ≡ call_handler cr.handler
                (with_route r (record { route_name = cr.config.name; path_params = params }))
                w)
  unfolding matched_route
  serve_http-first skipped later cr groups r w h m = (
    (matched_route re lower cr groups).path_params,
    λ name. lookup-path_params name (re.subexp_names cr.regex) groups,
    serve_http-matched skipped later cr groups r w h m,
  )

  -- The router answers 404, without any handler, if no route takes the request.
  pub serve_http-none :
      (routes : List (CompiledRoute re W)) (r : Request) (w : W)
      → All (λ c. route_matches re lower c r ≡ none) routes
      → serve_http re lower routes r w ≡ reply not_found w
  unfolding serve_http
  serve_http-none [] r w h = refl
  serve_http-none (c ∷ routes) r w (miss, h) =
      serve_http-skip c routes r w miss ∙ serve_http-none routes r w h

  route_matches_parts :
      (cr : CompiledRoute re W) (r : Request) (groups : List String)
      → route_matches re lower cr r ≡ some groups
      → (re.find_submatch cr.regex r.path ≡ some groups)
        × (host_matches lower cr.host r.host ≡ true)
        × (method_matches cr.methods r.method ≡ true)
        × (headers_match re cr.headers r.header ≡ true)
  unfolding route_matches
  route_matches_parts cr r groups h = (ground arith, ground arith, ground arith, ground arith)

  -- A route takes a request exactly when its regular expression matches the path, and the host, the
  -- method and every header rule allow it.
  pub route_matches_iff :
      (cr : CompiledRoute re W) (r : Request) (groups : List String)
      → (route_matches re lower cr r ≡ some groups) ↔ (
          (re.find_submatch cr.regex r.path ≡ some groups)
          × (host_matches lower cr.host r.host ≡ true)
          × ((cr.methods ≡ []) ⊎ (contains r.method cr.methods ≡ true) ⊎ (r.method ≡ "OPTIONS"))
          × All (λ m. header_matches re m r.header ≡ true) cr.headers)
  unfolding route_matches
  route_matches_iff cr r groups = (
    λ h.
        let parts = route_matches_parts cr r groups h in
        (
          parts.0,
          parts.1,
          (method_matches_iff cr.methods r.method).0 parts.2,
          (headers_match_iff re cr.headers r.header).0 parts.3,
        ),
    λ (found, host, method, headers).
        let m = (method_matches_iff cr.methods r.method).1 method in
        let h = (headers_match_iff re cr.headers r.header).1 headers in ground arith,
  )
