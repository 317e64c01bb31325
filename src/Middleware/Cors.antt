-- ===== src/Middleware/Cors.antt =====
-- CORS: internal/middleware/cors.go.
-- The response writer that adds the CORS headers is a function on the handler's calls.
pub mod Laws
mod Preflight
mod Injected
use tanugate.Common.{
  ℕ, String, Bool, true, false, not, ◌&&◌, ◌||◌, List, [], ◌∷◌, ◌++◌, any, contains, join, ◌===◌,
  if◌then◌else◌, is_positive, ℤ,
}
use tanugate.Http.{
  Request, Handler, Middleware, Reply, reply, Call, set_header, add_header, del_header,
  write_header, write, flush,
}
use tanugate.Http.Headers
use tanugate.Config.{CorsConfig}

unfoldable pub is_wildcard : List String → Bool
is_wildcard [] = false
is_wildcard (o ∷ origins) = o === "*" || is_wildcard origins

unfoldable pub is_origin_allowed : String → List String → Bool
is_origin_allowed origin [] = false
is_origin_allowed origin (o ∷ origins) =
    o === "*" || o === origin || is_origin_allowed origin origins

unfoldable pub resolve_allow_origin : String → CorsConfig → String
resolve_allow_origin origin cfg =
    if not (is_origin_allowed origin cfg.allowed_origins)
    then ""
    else if is_wildcard cfg.allowed_origins && not cfg.allow_credentials
    then "*"
    else origin

unfoldable pub is_preflight : Request → Bool
is_preflight r =
    r.method === "OPTIONS"
    && not (Headers.get r.header "Origin" === "")
    && not (Headers.get r.header "Access-Control-Request-Method" === "")

abbrev when : Bool → List Call → List Call
when true calls = calls
when false calls = []

abbrev is_empty : List String → Bool
is_empty [] = true
is_empty (_ ∷ _) = false

unfoldable pub inject_cors_headers : String → CorsConfig → List Call
inject_cors_headers origin cfg =
    let allow_origin = resolve_allow_origin origin cfg in
    set_header "Vary" "Origin"
    ∷ (if allow_origin === ""
        then []
        else set_header "Access-Control-Allow-Origin" allow_origin
          ∷ (when cfg.allow_credentials (set_header "Access-Control-Allow-Credentials" "true" ∷ [])
              ++ when (not (is_empty cfg.exposed_headers)) (
                  set_header "Access-Control-Expose-Headers" (join ", " cfg.exposed_headers) ∷ [])))

-- The calls that reach the wrapped writer; the flag is `headersSent`. `Flush` and the header map go
-- to the wrapped writer as they are.
unfoldable pub cors_calls : String → CorsConfig → Bool → List Call → List Call
cors_calls origin cfg sent [] = []
cors_calls origin cfg sent (write_header code ∷ cs) =
    let rest = write_header code ∷ cors_calls origin cfg true cs in
    if sent then rest else inject_cors_headers origin cfg ++ rest
cors_calls origin cfg sent (write b ∷ cs) =
    let rest = write b ∷ cors_calls origin cfg true cs in
    if sent then rest else inject_cors_headers origin cfg ++ write_header 200 ∷ rest
cors_calls origin cfg sent (c ∷ cs) = c ∷ cors_calls origin cfg sent cs

-- `fmt.Sprintf("%d", …)` is a parameter.
module _ (print_int : ℤ → String) where
  unfoldable pub handle_preflight : String → CorsConfig → List Call
  handle_preflight origin cfg =
      let allow_origin = resolve_allow_origin origin cfg in
      set_header "Vary" "Origin"
      ∷ (if allow_origin === ""
          then write_header 204 ∷ []
          else set_header "Access-Control-Allow-Origin" allow_origin
            ∷ (set_header "Access-Control-Allow-Methods" (join ", " cfg.allowed_methods)
                ∷ (when (not (is_empty cfg.allowed_headers)) (
                      set_header "Access-Control-Allow-Headers" (join ", " cfg.allowed_headers)
                      ∷ [])
                    ++ (when (is_positive cfg.max_age)
                          (set_header "Access-Control-Max-Age" (print_int cfg.max_age) ∷ [])
                        ++ (when cfg.allow_credentials
                              (set_header "Access-Control-Allow-Credentials" "true" ∷ [])
                            ++ write_header 204 ∷ [])))))

  unfoldable pub cors_middleware : {W : Type 0} → CorsConfig → Middleware W
  cors_middleware cfg next r w =
      let origin = Headers.get r.header "Origin" in
      if origin === ""
      then next r w
      else if is_preflight r
      then reply (handle_preflight origin cfg) w
      else record (next r w) { calls = cors_calls origin cfg false (next r w).calls }
